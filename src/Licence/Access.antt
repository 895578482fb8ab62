-- ===== src/Licence/Access.antt =====
-- What each tier may fetch.
use tinysocs.Prelude.Core.{
  ◌≡◌, ◌≢◌, ◌⊎◌, refl, Bool, true, false, not, ◌&&◌, ◌||◌, String, arith, if◌then◌else◌, inl, inr,
}
use tinysocs.Prelude.Equality.{◌==◌, string_eq, beq-cases}
use tinysocs.Licence.{entitlement, can_access}

-- The tests of `can_access` for a tier that is not paid.
abbrev free_access : String → String → Bool
free_access pack_id channel =
    if not (pack_id == "base" || false)
    then false
    else if channel == "live" && not false
    then false
    else true

can_access-free :
    (tier pack_id channel : String)
    → (tier == "pro") ≡ false
    → (tier == "msp") ≡ false
    → can_access tier pack_id channel ≡ free_access pack_id channel
unfolding can_access entitlement string_eq
can_access-free tier pack_id channel p m = rw (p, m) refl

pub free-not_pro : ◌==◌ {A = String} "free" "pro" ≡ false
unfolding string_eq
free-not_pro = refl

pub free-not_msp : ◌==◌ {A = String} "free" "msp" ≡ false
unfolding string_eq
free-not_msp = refl

-- Beyond the base pack on the snapshot channel only the two paid tiers may fetch anything: a tier
-- that may fetch another pack, or a live one, is "pro" or "msp".
pub can_access-paid :
    (tier pack_id channel : String)
    → can_access tier pack_id channel ≡ true
    → (pack_id ≢ "base") ⊎ (channel ≡ "live")
    → (tier ≡ "pro") ⊎ (tier ≡ "msp")
can_access-paid tier pack_id channel ok more = elim (beq-cases tier "pro") [
  | inl (_, e) ↦ inl e
  | inr (p, _) ↦ elim (beq-cases tier "msp") [
    | inl (_, e) ↦ inr e
    | inr (m, _) ↦ absurd (ground (arith, can_access-free tier pack_id channel p m))
  ]
]

-- The free tier may not.
pub can_access-free_more :
    (pack_id channel : String)
    → (pack_id ≢ "base") ⊎ (channel ≡ "live")
    → can_access "free" pack_id channel ≡ false
can_access-free_more pack_id channel more =
    ground (arith, can_access-free "free" pack_id channel free-not_pro free-not_msp)
