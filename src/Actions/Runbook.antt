-- ===== src/Actions/Runbook.antt =====
-- The runbook templates of actions/executor.py and `_build_runbook`. A template is given as the
-- pieces that `str.format` sees: plain text and the names between braces.
use tinysocs.Prelude.Core.{String, ◌<>◌, Option, none, some, List, [], ◌∷◌, map, if◌then◌else◌}
use tinysocs.Prelude.Equality.{◌==◌, string_eq}
use tinysocs.Prelude.Json.{Json, Fields, get}

pub data Piece : Type 0 where
  text : String → Piece
  hole : String → Piece

abbrev pub Template : Type 0
Template = List Piece

abbrev ip : Piece
ip = hole "ip"

abbrev host : Piece
host = hole "host"

abbrev user : Piece
user = hole "user"

abbrev reason : Piece
reason = hole "reason"

abbrev block_ip : List Template
block_ip =
    (text "Verify the IP "
      ∷ ip
      ∷ text " is genuinely malicious (check threat intel, VirusTotal, AbuseIPDB)"
      ∷ [])
    ∷ (text "Open Windows Firewall (wf.msc) or your network firewall admin console" ∷ [])
    ∷ (text "Create an inbound deny rule for " ∷ ip ∷ [])
    ∷ (text "Create an outbound deny rule for " ∷ ip ∷ [])
    ∷ (text "Monitor for continued connection attempts from " ∷ ip ∷ text " in Event Explorer" ∷ [])
    ∷ (text "Document the block in your incident log with the reason: " ∷ reason ∷ [])
    ∷ []

abbrev isolate_host : List Template
isolate_host =
    (text "Confirm the host "
      ∷ host
      ∷ text " is compromised (review alert details and matched events)"
      ∷ [])
    ∷ (text "Notify the user of " ∷ host ∷ text " that their machine is under investigation" ∷ [])
    ∷ (text "Disconnect "
        ∷ host
        ∷ text " from the network (unplug cable or disable Wi-Fi adapter)"
        ∷ [])
    ∷ (text "If remote: use Windows Firewall to block all outbound except SIEM — run:" ∷ [])
    ∷ (text
          "  netsh advfirewall firewall add rule name=\"TinySocs-Isolate-AllowSIEM\" dir=out action=allow remoteip=<SIEM_IP>"
        ∷ [])
    ∷ (text
          "  netsh advfirewall firewall add rule name=\"TinySocs-Isolate-DenyAll\" dir=out action=block remoteip=any"
        ∷ [])
    ∷ (text "Begin forensic triage on "
        ∷ host
        ∷ text " (collect logs, memory dump, check persistence)"
        ∷ [])
    ∷ (text "Document isolation in your incident log: " ∷ reason ∷ [])
    ∷ []

abbrev disable_user : List Template
disable_user =
    (text "Verify the user account '" ∷ user ∷ text "' is genuinely compromised" ∷ [])
    ∷ (text "Check if '"
        ∷ user
        ∷ text "' is a service account — disabling it may cause outages"
        ∷ [])
    ∷ (text "Disable the account: net user " ∷ user ∷ text " /active:no" ∷ [])
    ∷ (text "Force logoff any active sessions for '" ∷ user ∷ text "'" ∷ [])
    ∷ (text "Reset the password for '" ∷ user ∷ text "' before re-enabling" ∷ [])
    ∷ (text "Review recent activity for '"
        ∷ user
        ∷ text "' in Event Explorer (winlog.event_id:4624 AND winlog.TargetUserName:"
        ∷ user
        ∷ text ")"
        ∷ [])
    ∷ (text "Document the action in your incident log: " ∷ reason ∷ [])
    ∷ []

abbrev open_ticket : List Template
open_ticket =
    (text "Create a ticket in your ITSM/ticketing system" ∷ [])
    ∷ (text "Include the alert details: " ∷ reason ∷ [])
    ∷ (text "Assign to the appropriate team for investigation" ∷ [])
    ∷ (text "Link this TinySocs alert ID for reference" ∷ [])
    ∷ []

abbrev default_runbook : List Template
default_runbook =
    (text "Review the alert details and matched events in the dashboard" ∷ [])
    ∷ (text "Assess the severity and determine if this requires immediate action" ∷ [])
    ∷ (text "Follow your organisation's incident response playbook" ∷ [])
    ∷ (text "Document your findings and actions taken" ∷ [])
    ∷ []

-- `_RUNBOOKS.get(action, _DEFAULT_RUNBOOK)`
unfoldable pub runbook_for : String → List Template
runbook_for action =
    if action == "block_ip"
    then block_ip
    else if action == "isolate_host"
    then isolate_host
    else if action == "disable_user"
    then disable_user
    else if action == "open_ticket"
    then open_ticket
    else default_runbook

-- The step as it is written, braces included.
unfoldable pub source_text : Template → String
source_text [] = ""
source_text (text t ∷ ps) = t <> source_text ps
source_text (hole k ∷ ps) = "{" <> k <> "}" <> source_text ps

-- `format_value` is `format(value, "")`, the text that `str.format` puts for a parameter.
module _ (format_value : Json → String) (params : Fields) where
  -- `step.format(**params)`; none is the KeyError of a missing parameter.
  unfoldable pub format_step : Template → Option String
  format_step [] = some ""
  format_step (text t ∷ ps) = elim (format_step ps) [ none ↦ none | some s ↦ some (t <> s) ]
  format_step (hole k ∷ ps) = elim (get k params) [
    | none ↦ none
    | some v ↦ elim (format_step ps) [ none ↦ none | some s ↦ some (format_value v <> s) ]
  ]

  unfoldable pub build_step : Template → String
  unfolding format_step source_text
  build_step step = elim (format_step step) [ none ↦ source_text step | some s ↦ s ]

unfoldable pub build_runbook : (Json → String) → String → Fields → List String
unfolding build_step runbook_for
build_runbook format_value action params = map (build_step format_value params) (runbook_for action)
