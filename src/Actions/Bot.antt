-- ===== src/Actions/Bot.antt =====
-- api/bot_actions.py (src/tinysocs): the endpoint /bot/exec, after its HMAC check.
use text.Mathlib.Text.{starts_with}
use tinysocs.Prelude.Core.{
  ◌≡◌, ◌≢◌, refl, String, Option, none, some, ℕ, Bool, true, ◌||◌, List, [], ◌∷◌, ◌++◌, ◌⊎◌, arith,
  if◌then◌else◌,
}
use tinysocs.Prelude.Dict
use tinysocs.Prelude.Equality.{◌==◌, contains, string_eq, beq_refl}
use tinysocs.Prelude.Json.{Json, bool, str, obj, Fields, end, field, get, put, truthy}
use tinysocs.Actions.{
  World, Store, Action, Result, ok, err, Error, new_action, stage_action, approve_action, not_found,
}
use tinysocs.Actions.Queue.{stage_actions, queue_entry}
use tinysocs.Actions.Commands.{lookup-stage_action}
use tinysocs.Actions.Resolve.{approve_action-missing}

-- `ExecBody`. Pydantic has checked the action's name against the same five words.
pub record Body : Type 0 where
  pub action : String
  pub params : Fields
  pub tldr : Option String
  pub incident_id : Option String
  pub dry_run : Bool

-- The endpoint's answer: the JSON with the id, an HTTP error, or an exception that gets out.
pub data Answer : Type 0 where
  queued : String → Bool → Answer
  http_error : ℕ → String → Answer
  failed : Error → Answer
  attribute_error : Answer

pub record Bot : Type 0 where
  pub queue : List Json
  pub store : Store

abbrev pub allowed_actions : List String
allowed_actions = "ack_incident" ∷ "open_ticket" ∷ "disable_user" ∷ "isolate_host" ∷ "block_ip" ∷ []

-- `if body.tldr: params["tldr"] = body.tldr`
abbrev put_text : String → Option String → Fields → Fields
put_text k none params = params
put_text k (some v) params = if v == "" then params else put k (str v) params

abbrev entry_fields : String → String → Body → Fields → Fields
entry_fields action_id ts body params = field "action_id" (str action_id) (
    field "timestamp" (str ts) (
      field "action" (str body.action) (
        field "params" (obj params) (
          field "who" (str "chat-bot")
            (field "dry_run" (bool body.dry_run) (field "status" (str "staged") end))))))

-- What a call reads of the world besides the body: the two ids drawn from `uuid4`, the time of the
-- queue's line, and the executor's world.
pub record Draw : Type 0 where
  pub entry_id : String
  pub staged_id : String
  pub ts : String
  pub world : World

module _ (format_value : Json → String) where
  -- `write_action`: the line of the queue, then the action of the executor.
  unfoldable pub write_action : Draw → Body → Fields → Bot → Result String × Bot
  write_action d body params b =
      let queue = stage_actions d.ts (entry_fields d.entry_id d.ts body params ∷ []) b.queue in
      let (r, store) =
        stage_action format_value d.staged_id body.action params (some "chat-bot") d.world
          b.store in
      (elim r [ ok _ ↦ ok d.entry_id | err e ↦ err e ], record { queue = queue; store = store })

  unfoldable pub accept : Draw → Body → Bot → Answer × Bot
  unfolding write_action
  accept d body b =
      let params =
        put_text "incident_id" body.incident_id (put_text "tldr" body.tldr body.params) in
      let (r, b') = write_action d body params b in
      (elim r [ ok i ↦ queued i body.dry_run | err e ↦ failed e ], b')

  -- `ip = (body.params or {}).get("ip") or ""`, then the loopback guard
  guard_ip : Json → Answer × Bot → Bot → Answer × Bot
  guard_ip (str ip) go b =
      if starts_with ip "127." || (ip == "::1" || ip == "localhost")
      then (http_error 400 "refusing to block loopback", b)
      else go
  guard_ip other go b = if truthy other then (attribute_error, b) else go

  unfoldable pub bot_exec : Draw → Body → Bot → Answer × Bot
  unfolding guard_ip
  bot_exec d body b =
      let go = accept d body b in
      if contains allowed_actions body.action
      then if body.action == "block_ip"
        then guard_ip (elim (get "ip" body.params) [ none ↦ str "" | some v ↦ v ]) go b
        else go
      else (http_error 400 "action not allowed", b)

  -- The addresses that the guard refuses to block.
  abbrev pub IsLoopback : String → Type 0
  IsLoopback ip = (starts_with ip "127." || (ip == "::1" || ip == "localhost")) ≡ true

  accept-answers :
      (d : Draw) (body : Body) (b : Bot)
      → ((accept d body b).0 ≡ queued d.entry_id body.dry_run)
        ⊎ ((e : Error) × ((accept d body b).0 ≡ failed e))
  unfolding accept write_action
  accept-answers d body b = ground arith

  accept-writes :
      (d : Draw) (body : Body) (b : Bot)
      → ((a : Action) × (Dict.lookup d.staged_id (accept d body b).1.store.actions ≡ some a)
          × (a.action ≡ body.action))
        × ((line : Json) × ((accept d body b).1.queue ≡ b.queue ++ (line ∷ [])))
  unfolding accept write_action stage_actions
  accept-writes d body b =
      let params =
        put_text "incident_id" body.incident_id (put_text "tldr" body.tldr body.params) in
      (
        (
          new_action format_value d.staged_id body.action params (some "chat-bot") d.world,
          rw lookup-stage_action (rw beq_refl refl),
          refl,
        ),
        (queue_entry d.ts (entry_fields d.entry_id d.ts body params), refl),
      )

  accept-lookup :
      (d : Draw) (body : Body) (b : Bot)
      → d.entry_id ≢ d.staged_id
      → Dict.lookup d.entry_id b.store.actions ≡ none
      → Dict.lookup d.entry_id (accept d body b).1.store.actions ≡ none
  unfolding accept write_action
  accept-lookup d body b differ fresh = rw lookup-stage_action (ground arith)

  -- If /bot/exec answers "queued", the action is one of the five allowed ones, it is not the
  -- blocking of a loopback address, one line was added to the queue, and the executor holds an
  -- action of that kind. If it answers with an HTTP error, nothing was staged anywhere.
  pub bot_exec-answers :
      (d : Draw) (body : Body) (b : Bot) (id : String) (dry : Bool) (code : ℕ) (text : String)
      → ((bot_exec d body b).0 ≡ queued id dry
          → (contains allowed_actions body.action ≡ true)
            × (body.action ≡ "block_ip"
                → (ip : String) → get "ip" body.params ≡ some (str ip)
                → ¬ IsLoopback ip)
            × ((a : Action) × (Dict.lookup d.staged_id (bot_exec d body b).1.store.actions ≡ some a)
                × (a.action ≡ body.action))
            × ((line : Json) × ((bot_exec d body b).1.queue ≡ b.queue ++ (line ∷ []))))
        × ((bot_exec d body b).0 ≡ http_error code text → (bot_exec d body b).1 ≡ b)
  unfolding bot_exec
  bot_exec-answers d body b id dry code text = (
    λ q.
        let (written, line) = accept-writes d body b in
        let (a, at, kind) = written in
        let (l, added) = line in
        (ground arith, λ is ip at' loop. ground arith, (a, ground arith, kind), (l, ground arith)),
    λ h. ground (arith, accept-answers d body b),
  )

  -- The id that /bot/exec answers is not the id under which the executor staged the action: if
  -- the two ids drawn differ, and the first was not in use, acknowledging the id that was answered
  -- raises "not found".
  pub bot_exec-unknown_id :
      (d : Draw) (body : Body) (b : Bot) (id by : String) (dry : Bool) (w : World)
      → d.entry_id ≢ d.staged_id
      → Dict.lookup d.entry_id b.store.actions ≡ none
      → (bot_exec d body b).0 ≡ queued id dry
      → let s = (bot_exec d body b).1.store in approve_action id by w s ≡ (err (not_found id), s)
  unfolding bot_exec
  bot_exec-unknown_id d body b id by dry w differ fresh q =
      approve_action-missing id by w _
        (ground (arith, accept-answers d body b, accept-lookup d body b))
