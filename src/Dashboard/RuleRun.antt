-- ===== src/Dashboard/RuleRun.antt =====
-- The custom rules under any sequence of requests.
use tinysocs.Prelude.Core.{
  ◌≡◌, refl, sym, Bool, true, false, not, ◌&&◌, Option, none, some, List, [], ◌∷◌, ◌++◌, arith,
  if◌then◌else◌, Bool-cases, Option-cases, inl, inr,
}
use tinysocs.Prelude.Equality.{◌==◌, contains}
use tinysocs.Prelude.Lists.{All-append}
use tinysocs.Prelude.Dict.{keys}
use tinysocs.Prelude.Int.{ℤ}
use tinysocs.Prelude.Strings.{codes}
use tinysocs.Prelude.Text.{Text, text_eq, strip}
use tinysocs.Dashboard.Rules.{
  Given, Outcome, given, given_threshold, ids, clean_index, clean_rule, is_complete, store_rule,
  api_rules_create, is_skipped, upload_all, finish_upload, api_rules_upload,
}
use tinysocs.Dashboard.RuleEdits.{
  Updates, updated, find_rule, change_rule, is_valid_update, update_found, api_rules_update,
  api_rules_delete, toggled, api_rules_toggle, delete_found, toggle_found,
}
use tinysocs.Dashboard.RuleIds.{
  IsUnique, IsApart, IsTidy, contains-snoc, IsUnique-snoc, ids-change_rule, IsUnique-ids,
  IsApart-ids, IsUnique-pop_rule, IsApart-pop_rule,
}
use tinysocs.Dashboard.RuleStore.{CustomRule, Rules, save_custom_rules}

pub data Request : Type 0 where
  creating : Bool → Given → Request
  uploading : Text → List Given → Request
  updating : Bool → Text → Updates → Request
  deleting : Text → Request
  toggling : Text → Request

IsTidy-snoc :
    (s : Rules) (r : CustomRule)
    → IsTidy s
    → contains (ids s.custom) r.id ≡ false
    → contains (keys s.builtin) r.id ≡ false
    → IsUnique (s.custom ++ r ∷ []) × IsApart (keys s.builtin) (s.custom ++ r ∷ [])
IsTidy-snoc s r t new apart = (
  IsUnique-snoc s.custom r t.0 new,
  All-append (λ q. contains (keys s.builtin) q.id ≡ false) s.custom (r ∷ []) t.1 (apart, tt),
)

IsTidy-change_rule :
    (s : Rules) (writes : Bool) (rule_id : Text) (f : CustomRule → CustomRule)
    → ((r : CustomRule) → (f r).id ≡ r.id)
    → IsTidy s
    → IsTidy (save_custom_rules writes (change_rule rule_id f s.custom) s)
IsTidy-change_rule s writes rule_id f same t =
    let e = sym (ids-change_rule rule_id f same s.custom) in
    (
      IsUnique-ids s.custom (change_rule rule_id f s.custom) e t.0,
      IsApart-ids (keys s.builtin) s.custom (change_rule rule_id f s.custom) e t.1,
    )

upload_all-IsTidy :
    (builtin : List Text) (source now_iso : Text) (gs : List Given) (existing : List Text)
    (custom : List CustomRule)
    → ((a : Text) → contains existing a ≡ contains (ids custom) a)
    → IsUnique custom
    → IsApart builtin custom
    → IsUnique (upload_all builtin source now_iso gs existing custom).1
      × IsApart builtin (upload_all builtin source now_iso gs existing custom).1
unfolding upload_all
upload_all-IsTidy builtin source now_iso [] existing custom f u p = (u, p)
upload_all-IsTidy builtin source now_iso (g ∷ gs) existing custom f u p =
    let rid = strip (given g.id []) in
    elim (Bool-cases (is_skipped existing builtin g)) [
      | inl skip ↦ rw skip (upload_all-IsTidy builtin source now_iso gs existing custom f u p)
      | inr keep ↦ elim (Option-cases (given_threshold g.threshold)) [
        | inl raises ↦ rw (keep, raises) (u, p)
        | inr (t, whole) ↦
            let clean = clean_rule rid (strip (given g.kql [])) t source now_iso g in
            let apart : contains builtin rid ≡ false = ground (arith, keep) in
            let new : contains (ids custom) rid ≡ false = ground (arith, keep, f rid) in
            rw (keep, whole)
              (upload_all-IsTidy builtin source now_iso gs (rid ∷ existing) (custom ++ clean ∷ [])
                (λ a. ground (arith, f a, contains-snoc a custom clean))
                (IsUnique-snoc custom clean u new)
                (All-append (λ q. contains builtin q.id ≡ false) custom (clean ∷ []) p (apart, tt)))
      ]
    ]

store_rule-IsTidy :
    (o : Option ℤ) (writes : Bool) (rule_id kql now_iso : Text) (g : Given) (s : Rules)
    → IsTidy s
    → contains (ids s.custom) rule_id ≡ false
    → contains (keys s.builtin) rule_id ≡ false
    → IsTidy (store_rule o writes rule_id kql now_iso g s).1
store_rule-IsTidy none writes rule_id kql now_iso g s t new apart = t
store_rule-IsTidy (some n) writes rule_id kql now_iso g s t new apart =
    IsTidy-snoc s (clean_rule rule_id kql n (codes "custom") now_iso g) t new apart

-- A refusal keeps the rules, so that the rest of a handler may rely on the refusal's condition.
guard-IsTidy :
    (s : Rules) (refuses : Bool) (o : Outcome) (rest : Outcome × Rules)
    → IsTidy s
    → (refuses ≡ false → IsTidy rest.1)
    → IsTidy (if refuses then (o, s) else rest).1
guard-IsTidy s true o rest t h = t
guard-IsTidy s false o rest t h = h refl

finish_upload-IsTidy :
    (writes : Bool) (r : (Bool × List Text) × List CustomRule) (s : Rules)
    → IsUnique r.1 × IsApart (keys s.builtin) r.1
    → IsTidy (finish_upload writes r s).1
finish_upload-IsTidy writes ((false, added_ids), rules) s t = t
finish_upload-IsTidy writes ((true, added_ids), rules) s t = t

delete-IsTidy :
    (writes : Bool) (o : Option CustomRule) (s : Rules)
    → IsTidy s
    → IsTidy (delete_found writes o s).1
delete-IsTidy writes none s t = t
delete-IsTidy writes (some r) s t =
    ((IsUnique-pop_rule r.id s.custom t.0).0, IsApart-pop_rule (keys s.builtin) r.id s.custom t.1)

toggle-IsTidy :
    (writes : Bool) (o : Option CustomRule) (s : Rules)
    → IsTidy s
    → IsTidy (toggle_found writes o s).1
toggle-IsTidy writes none s t = t
toggle-IsTidy writes (some r) s t = IsTidy-change_rule s writes r.id toggled (λ q. refl) t

module _ (is_valid : Text → Text → Bool) where
  -- The request at a time; whether its write succeeds is the flag.
  unfoldable pub serve : Request → Bool → Text → Rules → Outcome × Rules
  serve (creating skip g) writes now_iso s = api_rules_create is_valid skip writes now_iso g s
  serve (uploading pack_name gs) writes now_iso s = api_rules_upload writes pack_name now_iso gs s
  serve (updating skip rule_id u) writes now_iso s =
      api_rules_update is_valid skip writes now_iso rule_id u s
  serve (deleting rule_id) writes now_iso s = api_rules_delete writes rule_id s
  serve (toggling rule_id) writes now_iso s = api_rules_toggle writes rule_id s

  unfoldable pub run : List (Request × Bool × Text) → Rules → Rules
  run [] s = s
  run ((r, writes, now_iso) ∷ requests) s = run requests (serve r writes now_iso s).1

  create-IsTidy :
      (skip writes : Bool) (now_iso : Text) (g : Given) (s : Rules)
      → IsTidy s
      → IsTidy (api_rules_create is_valid skip writes now_iso g s).1
  unfolding api_rules_create
  create-IsTidy skip writes now_iso g s t =
      let rule_id = strip (given g.id []) in
      let kql = strip (given g.kql []) in
      guard-IsTidy s (not (is_complete g)) _ _ t λ e1. guard-IsTidy s (rule_id == []) _ _ t λ e2.
        guard-IsTidy s (contains (ids s.custom) rule_id) _ _ t λ new.
          guard-IsTidy s (contains (keys s.builtin) rule_id) _ _ t λ apart.
            guard-IsTidy s (not skip && not (is_valid kql (clean_index g))) _ _ t λ e3.
              store_rule-IsTidy (given_threshold g.threshold) writes rule_id kql now_iso g s t new
                apart

  update-IsTidy :
      (skip writes : Bool) (now_iso : Text) (u : Updates) (o : Option CustomRule) (s : Rules)
      → IsTidy s
      → IsTidy (update_found is_valid skip writes now_iso u o s).1
  update-IsTidy skip writes now_iso u none s t = t
  update-IsTidy skip writes now_iso u (some r) s t =
      guard-IsTidy s (not skip && not (is_valid_update is_valid u.kql u r)) _ _ t
        λ e. IsTidy-change_rule s writes r.id (updated now_iso u) (λ q. refl) t

  pub serve-IsTidy :
      (r : Request) (writes : Bool) (now_iso : Text) (s : Rules)
      → IsTidy s
      → IsTidy (serve r writes now_iso s).1
  unfolding serve api_rules_upload api_rules_update api_rules_delete api_rules_toggle
  serve-IsTidy (creating skip g) writes now_iso s t = create-IsTidy skip writes now_iso g s t
  serve-IsTidy (uploading pack_name gs) writes now_iso s t = finish_upload-IsTidy writes _ s (
      upload_all-IsTidy (keys s.builtin) pack_name now_iso gs (ids s.custom) s.custom (λ a. refl)
        t.0 t.1)
  serve-IsTidy (updating skip rule_id u) writes now_iso s t =
      update-IsTidy skip writes now_iso u (find_rule rule_id s.custom) s t
  serve-IsTidy (deleting rule_id) writes now_iso s t =
      delete-IsTidy writes (find_rule rule_id s.custom) s t
  serve-IsTidy (toggling rule_id) writes now_iso s t =
      toggle-IsTidy writes (find_rule rule_id s.custom) s t

  -- If no identifier is twice in the custom rules and none is that of a packaged rule, then this
  -- still holds after any sequence of creations, uploads, updates, deletions and toggles. The
  -- packaged rules are the same throughout. A write of the file may fail, and a rule of a pack
  -- may raise, which keeps the rules before it in memory only.
  pub run-IsTidy :
      (requests : List (Request × Bool × Text)) (s : Rules) → IsTidy s → IsTidy (run requests s)
  unfolding run
  run-IsTidy [] s t = t
  run-IsTidy ((r, writes, now_iso) ∷ requests) s t =
      run-IsTidy requests (serve r writes now_iso s).1 (serve-IsTidy r writes now_iso s t)
