-- ===== src/Feed/Revoked.antt =====
-- Revocation: what `revoke_subscription` kills stays dead.
use mathlib.Core.Option.{none-ne-some, some-injective}
use mathlib.Core.List.{nil≢cons}
use tinysocs.Prelude.Core.{
  ◌≡◌, refl, sym, ap, subst, ◌∙◌, ℕ, Bool, true, not, ◌&&◌, ◌||◌, some, List, [], ◌∷◌, ◌++◌, arith,
  Bool-cases, inl, inr,
}
use tinysocs.Prelude.Equality.{Eq, ◌==◌, contains, beq-cases, beq_refl, string_eq}
use tinysocs.Prelude.Json.{Json, Fields, get, truthy, json_eq}
use tinysocs.Prelude.Text.{Text}
use tinysocs.Prelude.Dict.{Dict, lookup}
use tinysocs.Licence.{or_null}
use tinysocs.Feed.Store.{
  Issue, LicenceStore, load, save, record_issue, revoke, kill, store_killed, revoke_subscription,
  is_revoked, Command, issuing, revoking, cancelling, restarting, perform, run,
}

module _ {ℓ} {A : Type ℓ} ⦃e : Eq A⦄ where
  contains-append :
      (xs ys : List A) (a : A) → contains (xs ++ ys) a ≡ (contains xs a || contains ys a)
  contains-append [] ys a = refl
  contains-append (x ∷ xs) ys a = ground (arith, contains-append xs ys a)

contains-snoc :
    (xs : List Json) (a b : Json) → contains xs a ≡ true → contains (xs ++ b ∷ []) a ≡ true
contains-snoc xs a b h = rw (contains-append xs (b ∷ []) a, h) refl

-- What was revoked stays revoked.
kill_mono :
    (sub : Json) (issued : Dict Json Issue) (revoked : List Json) (a : Json)
    → contains revoked a ≡ true
    → contains (kill sub issued revoked).1 a ≡ true
unfolding kill
kill_mono sub [] revoked a h = h
kill_mono sub ((nonce, rec) ∷ issued) revoked a h =
    elim (Bool-cases (rec.sub == sub && not (contains revoked nonce))) [
      | inl e ↦
          rw e (kill_mono sub issued (revoked ++ nonce ∷ []) a (contains-snoc revoked a nonce h))
      | inr e ↦ rw e (kill_mono sub issued revoked a h)
    ]

-- A record of the subscription at the head.
kill-head :
    (sub : Json) (nonce : Json) (rec : Issue) (issued : Dict Json Issue) (revoked : List Json)
    → rec.sub ≡ sub
    → contains (kill sub ((nonce, rec) ∷ issued) revoked).1 nonce ≡ true
unfolding kill
kill-head sub nonce rec issued revoked same = elim (Bool-cases (contains revoked nonce)) [
  | inl e ↦ rw (same, beq_refl (sub), e) (kill_mono sub issued revoked nonce e)
  | inr e ↦
      rw (same, beq_refl (sub), e)
        (kill_mono sub issued (revoked ++ nonce ∷ []) nonce
          (rw (contains-append revoked (nonce ∷ []) nonce, e, beq_refl nonce) refl))
]

kill-tail :
    (sub : Json) (nonce : Json) (rec : Issue) (issued : Dict Json Issue) (revoked : List Json)
    (a : Json)
    → ((rs : List Json) → contains (kill sub issued rs).1 a ≡ true)
    → contains (kill sub ((nonce, rec) ∷ issued) revoked).1 a ≡ true
unfolding kill
kill-tail sub nonce rec issued revoked a h =
    elim (Bool-cases (rec.sub == sub && not (contains revoked nonce))) [
      | inl e ↦ rw e (h (revoked ++ nonce ∷ []))
      | inr e ↦ rw e (h revoked)
    ]

kill-all :
    (sub : Json) (issued : Dict Json Issue) (revoked : List Json) (a : Json) (rec : Issue)
    → lookup a issued ≡ some rec
    → rec.sub ≡ sub
    → contains (kill sub issued revoked).1 a ≡ true
unfolding lookup
kill-all sub [] revoked a rec h same = absurd (none-ne-some rec h)
kill-all sub ((nonce, r) ∷ issued) revoked a rec h same = elim (beq-cases a nonce) [
  | inl (e, p) ↦
      subst (λ x. contains (kill sub ((nonce, r) ∷ issued) revoked).1 x ≡ true) (sym p)
        (kill-head sub nonce r issued revoked
          (ap (λ x. x.sub) (some-injective r rec (rw (e, lookup) at h)) ∙ same))
  | inr (e, _) ↦
      kill-tail sub nonce r issued revoked a
        (λ rs. kill-all sub issued rs a rec (rw (e, lookup) at h) same)
]

kill-none :
    (sub : Json) (issued : Dict Json Issue) (revoked : List Json)
    → (kill sub issued revoked).0 ≡ []
    → (kill sub issued revoked).1 ≡ revoked
unfolding kill
kill-none sub [] revoked h = refl
kill-none sub ((nonce, rec) ∷ issued) revoked h =
    elim (Bool-cases (rec.sub == sub && not (contains revoked nonce))) [
      | inl e ↦ absurd (nil≢cons (sym (rw e at h)))
      | inr e ↦ rw e (kill-none sub issued revoked (rw e at h))
    ]

store_killed-memory :
    (writes : Bool) (s : LicenceStore) (killed after : List Json)
    → (killed ≡ [] → after ≡ s.memory.revoked)
    → (store_killed writes s (killed, after)).1.memory.revoked ≡ after
unfolding save
store_killed-memory writes s [] after h = sym (h refl)
store_killed-memory writes s (n ∷ ns) after h = ground arith

memory-revoke_subscription :
    (writes : Bool) (sub : Json) (s : LicenceStore)
    → truthy sub ≡ true
    → (revoke_subscription writes sub s).1.memory.revoked
      ≡ (kill sub s.memory.issued s.memory.revoked).1
unfolding revoke_subscription
memory-revoke_subscription writes sub s ne = elim (Bool-cases (truthy sub)) [
  | inr e ↦ absurd (ground arith)
  | inl e ↦ rw e (store_killed-memory writes s _ _ (kill-none sub s.memory.issued s.memory.revoked))
]

-- After `revoke_subscription` every key that is recorded for that customer is revoked in memory,
-- also when writing the file fails; a nonce that Python takes as false never counts.
pub revoke_subscription-is_revoked :
    (writes : Bool) (sub : Json) (s : LicenceStore) (nonce : Json) (rec : Issue)
    → truthy sub ≡ true
    → lookup nonce s.memory.issued ≡ some rec
    → rec.sub ≡ sub
    → truthy nonce ≡ true
    → is_revoked nonce (revoke_subscription writes sub s).1 ≡ true
unfolding is_revoked
revoke_subscription-is_revoked writes sub s nonce rec ne h same real =
    rw (real, memory-revoke_subscription writes sub s ne)
      (kill-all sub s.memory.issued s.memory.revoked nonce rec h same)

-- The file is what the memory is, as after every write that succeeds; before the first the memory
-- is empty.
abbrev pub IsSynced : LicenceStore → Type 0
IsSynced s = load s.file ≡ s

Kept : Json → LicenceStore → LicenceStore → Type 0
Kept nonce s s' = IsSynced s' × (is_revoked nonce s ≡ true → is_revoked nonce s' ≡ true)

Kept-store_killed :
    (s : LicenceStore) (nonce : Json) (killed after : List Json)
    → IsSynced s
    → (contains s.memory.revoked nonce ≡ true → contains after nonce ≡ true)
    → Kept nonce s (store_killed true s (killed, after)).1
unfolding Kept save load is_revoked
Kept-store_killed s nonce [] after i h = (i, λ r. r)
Kept-store_killed s nonce (n ∷ ns) after i h = (refl, ground arith)

Kept-record_issue :
    (s : LicenceStore) (nonce : Json) (payload : Fields) (token : Text) (now : ℕ)
    → IsSynced s
    → Kept nonce s (record_issue true payload token now s).1
unfolding Kept record_issue save load is_revoked
Kept-record_issue s nonce payload token now i =
    elim (Bool-cases (truthy (or_null (get "nonce" payload)))) [
      | inl e ↦ rw e (refl, λ r. r)
      | inr e ↦ rw e (i, λ r. r)
    ]

Kept-revoke : (s : LicenceStore) (nonce n : Json) → IsSynced s → Kept nonce s (revoke true n s).1
unfolding Kept revoke save load is_revoked
Kept-revoke s nonce n i = elim (Bool-cases (truthy n)) [
  | inr e ↦ rw e (i, λ r. r)
  | inl e ↦ elim (Bool-cases (contains s.memory.revoked n)) [
    | inl f ↦ rw (e, f) (i, λ r. r)
    | inr f ↦ rw (e, f) (refl, ground (arith, contains-snoc s.memory.revoked nonce n))
  ]
]

Kept-revoke_subscription :
    (s : LicenceStore) (nonce : Json) (sub : Json)
    → IsSynced s
    → Kept nonce s (revoke_subscription true sub s).1
unfolding revoke_subscription Kept
Kept-revoke_subscription s nonce sub i = elim (Bool-cases (truthy sub)) [
  | inr e ↦ rw e (i, λ r. r)
  | inl e ↦
      rw e (Kept-store_killed s nonce _ _ i (kill_mono sub s.memory.issued s.memory.revoked nonce))
]

Kept-perform :
    (c : Command) (s : LicenceStore) (nonce : Json) → IsSynced s → Kept nonce s (perform c s)
unfolding perform Kept
Kept-perform (issuing payload token now) s nonce i = Kept-record_issue s nonce payload token now i
Kept-perform (revoking n) s nonce i = Kept-revoke s nonce n i
Kept-perform (cancelling sub) s nonce i = Kept-revoke_subscription s nonce sub i
Kept-perform restarting s nonce i =
    (ap (λ x. load x.file) i ∙ refl, λ r. subst (λ x. is_revoked nonce x ≡ true) (sym i) r)

-- A key that is revoked stays revoked: whatever is issued, revoked, cancelled and however often the
-- process restarts, if every write succeeds and the file is in step with the memory at the start.
pub run-is_revoked :
    (commands : List Command) (s : LicenceStore) (nonce : Json)
    → IsSynced s
    → is_revoked nonce s ≡ true
    → is_revoked nonce (run commands s) ≡ true
unfolding run Kept
run-is_revoked [] s nonce i h = h
run-is_revoked (c ∷ commands) s nonce i h =
    let (j, keeps) = Kept-perform c s nonce i in
    run-is_revoked commands (perform c s) nonce j (keeps h)
