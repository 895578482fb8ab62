-- ===== src/Actions/Tests.antt =====
-- Runs of the action store, and its theorems at concrete data.
use mathlib.Core.Bool.{false≢true}
use text.Mathlib.TextEquality.{eq_iff}
use tinysocs.Prelude.Core.{◌≡◌, ◌≢◌, refl, true, false, String, some, none, List, [], ◌∷◌}
use tinysocs.Prelude.Dict
use tinysocs.Prelude.Equality.{string_eq}
use tinysocs.Prelude.Json.{Json, Fields, end, field, str, get}
use tinysocs.Prelude.Sort.{sort}
use tinysocs.Prelude.Strings.{str_le}
use tinysocs.Actions.{
  Status, staged, acknowledged, Action, Store, init, World, Result, err, new_action,
  resolved_action, approve_text, not_found, stage_action, approve_action, reject_action,
  list_actions,
}
use tinysocs.Actions.Runbook.{build_runbook}
use tinysocs.Actions.Commands.{
  Command, stage, approve, reject, perform, run, IsResolved, run-IsResolved,
}
use tinysocs.Actions.Invariant.{IsValid, reachable-IsValid}
use tinysocs.Actions.Trail.{replay, status_of, audit_complete}
use tinysocs.Actions.Queue.{stage_actions}
use tinysocs.Actions.Bot.{
  Bot, Body, Draw, queued, http_error, bot_exec, accept, write_action, bot_exec-unknown_id,
}

abbrev plain : Json → String
plain (str s) = s
plain _ = "?"

abbrev at : String → World
at t = record { now = t; audit_now = t; writable = true }

abbrev shut : String → World
shut t = record { now = t; audit_now = t; writable = false }

abbrev ip_params : Fields
ip_params = field "ip" (str "10.0.0.9") end

steps :
    build_runbook plain "block_ip" ip_params
    ≡ "Verify the IP 10.0.0.9 is genuinely malicious (check threat intel, VirusTotal, AbuseIPDB)"
      ∷ "Open Windows Firewall (wf.msc) or your network firewall admin console"
      ∷ "Create an inbound deny rule for 10.0.0.9" ∷ "Create an outbound deny rule for 10.0.0.9"
      ∷ "Monitor for continued connection attempts from 10.0.0.9 in Event Explorer"
      ∷ "Document the block in your incident log with the reason: {reason}" ∷ []
unfolding build_runbook get string_eq
steps = refl

abbrev script : List Command
script =
    stage "a" "block_ip" ip_params none (at "t1")
    ∷ stage "b" "open_ticket" end (some "") (at "t2")
    ∷ approve "a" "ann" (at "t3")
    ∷ reject "a" "bob" "" (at "t4")
    ∷ []

abbrev after : Store
after = run plain script init

abbrev approved : Action
approved =
    resolved_action acknowledged "ann" approve_text (at "t3")
      (new_action plain "a" "block_ip" ip_params none (at "t1"))

after_a : Dict.lookup "a" after.actions ≡ some approved
unfolding run perform stage_action approve_action reject_action build_runbook get string_eq
    Dict.lookup Dict.insert
after_a = refl

newest_first :
    list_actions none (some "") 1 after
    ≡ new_action plain "b" "open_ticket" end (some "") (at "t2") ∷ []
unfolding list_actions sort str_le after_a
newest_first = refl

not_acknowledged : ◌≢◌ {A = Status} acknowledged staged
not_acknowledged e = cc

abbrev more : List Command
more = stage "c" "open_ticket" end none (at "t5") ∷ reject "a" "eve" "no" (at "t6") ∷ []

run-IsResolved_example : IsResolved plain "a" approved (run plain more after)
run-IsResolved_example =
    run-IsResolved plain "a" approved more after
      (λ e. false≢true ((eq_iff "a" "c").1 e), (λ h. h, tt)) (after_a, not_acknowledged)

reachable-IsValid_example : IsValid after
reachable-IsValid_example = reachable-IsValid plain script

audit_complete_example : status_of (Dict.lookup "a" after.actions) ≡ replay "a" none after.audit
audit_complete_example = audit_complete plain script (refl, (refl, (refl, (refl, tt)))) "a"

abbrev one : Store
one = run plain (stage "a" "block_ip" ip_params none (at "t1") ∷ []) init

one_a :
    Dict.lookup "a" one.actions ≡ some (new_action plain "a" "block_ip" ip_params none (at "t1"))
unfolding after_a
one_a = refl

abbrev ann_wins : Result Action × Store
ann_wins = approve_action "a" "ann" (at "t3") one

abbrev idle : Bot
idle = record { queue = []; store = init }

abbrev body : Body
body = record {
  action = "block_ip";
  params = ip_params;
  tldr = some "burst";
  incident_id = none;
  dry_run = true;
}

abbrev draw : Draw
draw = record { entry_id = "x"; staged_id = "y"; ts = "t1"; world = at "t1" }

answered : (bot_exec plain draw body idle).0 ≡ queued "x" true
unfolding bot_exec accept write_action get string_eq stage_actions stage_action
answered = refl

loopback :
    (bot_exec plain draw (record body { params = field "ip" (str "127.0.0.1") end }) idle).0
    ≡ http_error 400 "refusing to block loopback"
unfolding answered
loopback = refl

bot_exec-unknown_id_example :
    approve_action "x" "ann" (at "t2") (bot_exec plain draw body idle).1.store
    ≡ (err (not_found "x"), (bot_exec plain draw body idle).1.store)
unfolding answered Dict.lookup
bot_exec-unknown_id_example =
    bot_exec-unknown_id plain draw body idle "x" "ann" true (at "t2")
      (λ e. false≢true ((eq_iff "x" "y").1 e)) refl answered
