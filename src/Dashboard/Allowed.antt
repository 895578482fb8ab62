-- ===== src/Dashboard/Allowed.antt =====
-- What marking an alert as normal does to the alerts that are shown, and how it is taken back.
use mathlib.Core.List.{append-nil}
use tinysocs.Prelude.Core.{
  ◌≡◌, refl, ◌∙◌, ◌+◌, ◌-◌, Bool, true, false, not, ◌||◌, Option, none, some, List, [], ◌∷◌, ◌++◌,
  arith, eqb, Bool-cases, inl, inr,
}
use tinysocs.Prelude.Equality.{◌==◌, beq_refl, beq-cases}
use tinysocs.Prelude.Lists.{length, keep, keep-append, length-append}
use tinysocs.Prelude.Strings.{codes}
use tinysocs.Prelude.Text.{Text, text_eq, strip, lower}
use tinysocs.Dashboard.Triage.{
  Entry, Feedback, Desk, Detection, Answer, marked, removed, failed, status_set, tags_set, is_empty,
  is_entry, load_allowlists, lists_host, any_entry, host_entry, mark_normal, normal_given,
  api_detection_normal, is_named, save_kept, api_allowlist_remove, covers, annotate,
}

any_entry-append :
    (p : Entry → Bool) (xs ys : List Entry)
    → any_entry p (xs ++ ys) ≡ (any_entry p xs || any_entry p ys)
unfolding any_entry
any_entry-append p [] ys = refl
any_entry-append p (x ∷ xs) ys = ground (arith, any_entry-append p xs ys)

any_entry_mono :
    (p q : Entry → Bool)
    → ((e : Entry) → p e ≡ true → q e ≡ true)
    → (xs : List Entry) → any_entry p xs ≡ true
    → any_entry q xs ≡ true
unfolding any_entry
any_entry_mono p q le [] h = cc
any_entry_mono p q le (x ∷ xs) h = ground (arith, le x, any_entry_mono p q le xs)

-- Entries that were loaded once stay as they are.
load-load : (xs : List Entry) → keep is_entry (keep is_entry xs) ≡ keep is_entry xs
load-load [] = refl
load-load (x ∷ xs) = ground (arith, load-load xs)

abbrev pub is_marked : Answer → Bool
is_marked (marked b) = true
is_marked (removed n) = false
is_marked (failed code message) = false
is_marked (status_set s) = false
is_marked (tags_set ts) = false

is_entry-host_entry :
    (now_iso rule_id host note : Text)
    → is_empty rule_id ≡ false
    → is_entry (host_entry now_iso rule_id host note) ≡ true
is_entry-host_entry now_iso rule_id host note h = rw h refl

lists_host-host_entry :
    (now_iso rule_id host note : Text)
    → lists_host rule_id host (host_entry now_iso rule_id host note) ≡ true
lists_host-host_entry now_iso rule_id host note =
    rw (beq_refl rule_id, beq_refl (codes "host"), beq_refl (lower host)) refl

-- The file after the host was added.
load-added :
    (now_iso rule_id host note : Text) (file : Option (List Entry))
    → is_empty rule_id ≡ false
    → load_allowlists (some (load_allowlists file ++ host_entry now_iso rule_id host note ∷ []))
      ≡ load_allowlists file ++ host_entry now_iso rule_id host note ∷ []
unfolding load_allowlists
load-added now_iso rule_id host note none h = rw h refl
load-added now_iso rule_id host note (some xs) h =
    keep-append is_entry (keep is_entry xs) (host_entry now_iso rule_id host note ∷ [])
    ∙ rw (load-load xs, h) refl

mark_normal-lists :
    (found saves logs : Bool) (f : Feedback) (d : Desk)
    → is_marked (mark_normal found saves logs f d).0 ≡ true
    → is_empty f.rule_id ≡ false
    → any_entry (lists_host f.rule_id f.host) (load_allowlists d.allowlist) ≡ found
    → any_entry
        (lists_host f.rule_id f.host)
        (load_allowlists (mark_normal found saves logs f d).1.allowlist)
      ≡ true
unfolding any_entry
mark_normal-lists true saves logs f d m h e = e
mark_normal-lists false false logs f d m h e = cc
mark_normal-lists false true logs f d m h e =
    rw
      (
        load-added f.ts f.rule_id f.host f.note d.allowlist h,
        any_entry-append (lists_host f.rule_id f.host) (load_allowlists d.allowlist)
            (host_entry f.ts f.rule_id f.host f.note ∷ []),
        lists_host-host_entry f.ts f.rule_id f.host f.note,
      )
      (ground arith)

normal_given-lists :
    (saves logs : Bool) (f : Feedback) (d : Desk)
    → is_marked (normal_given saves logs f d).0 ≡ true
    → (any_entry
          (lists_host f.rule_id f.host)
          (load_allowlists (normal_given saves logs f d).1.allowlist)
        ≡ true)
      × (is_empty f.host ≡ false)
normal_given-lists saves logs f d m = elim (Bool-cases (is_empty f.rule_id || is_empty f.host)) [
  | inl e ↦ let refused : false ≡ true = rw e at m in cc
  | inr e ↦
      let found = any_entry (lists_host f.rule_id f.host) (load_allowlists d.allowlist) in
      let given : is_marked (mark_normal found saves logs f d).0 ≡ true = rw e at m in
      rw e
        (mark_normal-lists found saves logs f d given (ground (arith, e)) refl, ground (arith, e))
]

is_empty-lower : (s : Text) → is_empty s ≡ false → is_empty (lower s) ≡ false
unfolding lower
is_empty-lower [] h = cc
is_empty-lower (c ∷ s) h = refl

module _ (fnmatch : Text → Text → Bool) where
  -- An entry of a host covers the alerts of its rule and host.
  covers-lists_host :
      (det : Detection) (host : Text) (e : Entry)
      → lower det.host ≡ lower host
      → is_empty (lower host) ≡ false
      → lists_host det.rule_id host e ≡ true
      → covers fnmatch det e ≡ true
  covers-lists_host det host e same given lists = rw same (ground (arith, given, lists))

  -- After an alert was marked as normal and the answer was not an error, every alert of its rule
  -- and its host is shown as expected, whatever case the host is written in, and whether or not
  -- the feedback could be written.
  pub annotate-api_detection_normal :
      (saves logs : Bool) (now_iso alert_id rule_id host note : Text) (d : Desk) (det : Detection)
      → is_marked (api_detection_normal saves logs now_iso alert_id rule_id host note d).0 ≡ true
      → det.rule_id ≡ strip rule_id
      → lower det.host ≡ lower (strip host)
      → (annotate fnmatch
          (load_allowlists
            (api_detection_normal saves logs now_iso alert_id rule_id host note d).1.allowlist)
          det).expected
        ≡ true
  unfolding api_detection_normal
  annotate-api_detection_normal saves logs now_iso alert_id rule_id host note d det m same_rule
        same_host =
      let f : Feedback = record {
        ts = now_iso;
        alert_id = alert_id;
        rule_id = strip rule_id;
        host = strip host;
        note = strip note;
      } in
      let (lists, given) = normal_given-lists saves logs f d m in
      rw
        (any_entry_mono (lists_host (strip rule_id) (strip host)) (covers fnmatch det)
          (λ e. λ h.
            covers-lists_host det (strip host) e same_host (is_empty-lower (strip host) given)
              (rw same_rule h))
          (load_allowlists (normal_given saves logs f d).1.allowlist) lists)
        refl

-- An exact match is a match whatever the case.
lists_host-is_named :
    (rule_id host : Text) (e : Entry)
    → is_named rule_id (codes "host") host e ≡ true
    → lists_host rule_id host e ≡ true
lists_host-is_named rule_id host e h = elim (beq-cases e.value host) [
  | inl (b, same) ↦
      let lowered : (lower e.value == lower host) ≡ true = rw same (beq_refl (lower host)) in
      ground (arith, h)
  | inr (b, n) ↦ ground (arith, h)
]

keep-unnamed :
    (rule_id host : Text) (xs : List Entry)
    → any_entry (lists_host rule_id host) xs ≡ false
    → keep (λ e. not (is_named rule_id (codes "host") host e)) xs ≡ xs
unfolding any_entry
keep-unnamed rule_id host [] h = refl
keep-unnamed rule_id host (x ∷ xs) h =
    ground (arith, keep-unnamed rule_id host xs, lists_host-is_named rule_id host x)

-- What marking a host that was not listed leaves.
record IsAdded (f : Feedback) (d : Desk) (after : Desk) : Type 0 where
  pub was_absent : any_entry (lists_host f.rule_id f.host) (load_allowlists d.allowlist) ≡ false
  pub has_rule : is_empty f.rule_id ≡ false
  pub file :
      load_allowlists after.allowlist
      ≡ load_allowlists d.allowlist ++ host_entry f.ts f.rule_id f.host f.note ∷ []

mark_normal-IsAdded :
    (found saves logs : Bool) (f : Feedback) (d : Desk)
    → (mark_normal found saves logs f d).0 ≡ marked false
    → is_empty f.rule_id ≡ false
    → any_entry (lists_host f.rule_id f.host) (load_allowlists d.allowlist) ≡ found
    → IsAdded f d (mark_normal found saves logs f d).1
mark_normal-IsAdded true saves logs f d m h e = cc
mark_normal-IsAdded false false logs f d m h e = cc
mark_normal-IsAdded false true logs f d m h e = record {
  was_absent = e;
  has_rule = h;
  file = load-added f.ts f.rule_id f.host f.note d.allowlist h;
}

normal_given-IsAdded :
    (saves logs : Bool) (f : Feedback) (d : Desk)
    → (normal_given saves logs f d).0 ≡ marked false
    → IsAdded f d (normal_given saves logs f d).1
normal_given-IsAdded saves logs f d m = elim (Bool-cases (is_empty f.rule_id || is_empty f.host)) [
  | inl e ↦
      let refused : failed 400 "rule_id and host are required" ≡ marked false = rw e at m in cc
  | inr e ↦
      let found = any_entry (lists_host f.rule_id f.host) (load_allowlists d.allowlist) in
      let given : (mark_normal found saves logs f d).0 ≡ marked false = rw e at m in
      rw e (mark_normal-IsAdded found saves logs f d given (ground (arith, e)) refl)
]

load-again :
    (file : Option (List Entry))
    → load_allowlists (some (load_allowlists file)) ≡ load_allowlists file
unfolding load_allowlists
load-again none = refl
load-again (some xs) = load-load xs

save_kept-one :
    (kept entries : List Entry) (d : Desk)
    → length entries ≡ length kept + 1
    → save_kept true kept entries d ≡ (removed 1, record d { allowlist = some kept })
save_kept-one kept entries d h =
    let differ : eqb (length kept) (length entries) ≡ false = ground (arith, h) in
    let one : length entries - length kept ≡ 1 = omega (arith, h) in rw (differ, one) refl

keep-added :
    (f : Feedback) (d after : Desk)
    → IsAdded f d after
    → keep (λ e. not (is_named f.rule_id (codes "host") f.host e)) (load_allowlists after.allowlist)
      ≡ load_allowlists d.allowlist
keep-added f d after a =
    let named : Entry → Bool = λ e. not (is_named f.rule_id (codes "host") f.host e) in
    rw a.file (
      keep-append named (load_allowlists d.allowlist) (host_entry f.ts f.rule_id f.host f.note ∷ [])
      ∙ rw
          (
            keep-unnamed f.rule_id f.host (load_allowlists d.allowlist) a.was_absent,
            beq_refl f.rule_id,
            beq_refl (codes "host"),
            beq_refl f.host,
          )
          (append-nil (load_allowlists d.allowlist)))

strip_host : strip (codes "host") ≡ codes "host"
unfolding strip
strip_host = refl

remove-added :
    (f : Feedback) (d after : Desk) (rule_id host : Text)
    → IsAdded f d after
    → strip rule_id ≡ f.rule_id
    → strip host ≡ f.host
    → api_allowlist_remove true rule_id (codes "host") host after
      ≡ (removed 1, record after { allowlist = some (load_allowlists d.allowlist) })
unfolding api_allowlist_remove
remove-added f d after rule_id host a same_rule same_host =
    let longer : length (load_allowlists after.allowlist)
        ≡ length (load_allowlists d.allowlist) + 1 =
      rw a.file (
        length-append (load_allowlists d.allowlist)
          (host_entry f.ts f.rule_id f.host f.note ∷ [])) in
    rw (strip_host, same_rule, same_host, a.has_rule, keep-added f d after a)
      (save_kept-one (load_allowlists d.allowlist) (load_allowlists after.allowlist) after longer)

-- If marking an alert as normal adds an entry, then the removal of that entry by the same rule and
-- host succeeds, removes one entry, and leaves the entries that the file had before, provided that
-- its write succeeds.
pub api_allowlist_remove-api_detection_normal :
    (saves logs : Bool) (now_iso alert_id rule_id host note : Text) (d : Desk)
    → (api_detection_normal saves logs now_iso alert_id rule_id host note d).0 ≡ marked false
    → let after = (api_detection_normal saves logs now_iso alert_id rule_id host note d).1 in
      let (answer, last) = api_allowlist_remove true rule_id (codes "host") host after in
      (answer ≡ removed 1) × (load_allowlists last.allowlist ≡ load_allowlists d.allowlist)
unfolding api_detection_normal
api_allowlist_remove-api_detection_normal saves logs now_iso alert_id rule_id host note d m =
    let f : Feedback = record {
      ts = now_iso;
      alert_id = alert_id;
      rule_id = strip rule_id;
      host = strip host;
      note = strip note;
    } in
    let after = (normal_given saves logs f d).1 in
    let a = normal_given-IsAdded saves logs f d m in
    rw (remove-added f d after rule_id host a refl refl) (refl, load-again d.allowlist)
