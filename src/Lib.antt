-- ===== src/Lib.antt =====
-- TinySocs: a small federated security operations centre. This library models the parts of the
-- Python code that decide what is believed, done and paid for.
-- The parts and how they interact: an agent on a node collects evidence and appends its hash to
-- a ledger; the master asks all nodes for their evidence, with signed requests, merges it and
-- anchors the heads of their ledgers; `check_ledger` compares the ledgers with the anchors; an
-- operator stages and resolves response actions, over the bot endpoint too; rules are kept with
-- the dashboard, which also admits the sites of the federation, and the detections run them; the
-- feed server hands out rule packs to licence keys that a Stripe webhook issues.
--
-- The files (paths below src/tinysocs, but scripts/ at the root of the repository):
-- - Prelude: tests, lists, integers over the native numbers, JSON, Python dicts in insertion
--   order, texts and stable sorting.
-- - Ledger: agent/models/ledger.py. A file is its list of lines, the head file an optional pair;
--   `append_entry` and `verify_chain` keep the code's names, `verify_from` is its loop and
--   `check_entry` the three checks of an entry.
-- - Actions: actions/executor.py (the dict of actions and the audit log as a record that is
--   passed on), agent/actions_queue.py in Actions.Queue and api/bot_actions.py in Actions.Bot. A
--   call that raises returns an error beside the state it leaves.
-- - Auth: api/auth.py, with the replay cache as state, and `_headers` of orchestrator/master.py.
-- - Versions: reporting/version_check.py.
-- - Master: orchestrator/master.py. Retry is `_try_call` and `_fetch_node_agg_async`; Fanout is
--   `_fanout_agg_async`, whose replies come as an explicit sequence of batches; Merge is
--   `merge_evidence`.
-- - ThreatCache: agent/threat_cache.py, with the SQLite table as a list of rows.
-- - Licence: scripts/licence.py and scripts/stripe_pricing.py.
-- - Feed: Store is api/feed_store.py; Gate, Stripe and Webhook are api/feed.py.
-- - Anchors: orchestrator/anchors.py, over OpenSearch as a parameter: its state is any type, its
--   requests are functions on it, and Service names what is documented of them.
-- - Node: api/node.py. Rate is `_rate_limit`, Token the tokens for event collection, Evidence
--   `/evidence/append`.
-- - Dashboard: api/dashboard.py and the pins of federation_certs.py. Session is
--   `_validate_session` and the tokens, Gate the middleware, EnvFile the file that holds the
--   password, Login and Passwords the handlers around it, Sites and Nodes the registration,
--   approval and removal of sites, Proxy `api_site_proxy` (the pin is checked on a connection of
--   its own, before the one that the request goes over), Accounts the requests that can move the
--   password, the settings among them, Triage the states of alerts and the allowlist, Settings
--   the settings, RuleStore, Rules and RuleEdits the custom rules with the registry of
--   agent/detections/registry.py, whose dict is built again from the file that it finds. The
--   handlers run one after another on a record of the process's variables.
-- - Intel: agent/threat_intel.py, over the cache of ThreatCache; Alert is agent/enrich.py.
-- - Engine: agent/detections/engine.py, over the hits that a search returns: Document is what is
--   read out of a hit, Run the findings of a rule.
-- - CheckLedger: orchestrator/check_ledger.py, over the chain verification of Ledger.
--
-- Parameters: SHA-256, HMAC, ed25519, base64 and JSON texts are functions that the definitions
-- take; where a theorem needs that decoding undoes encoding or that a key verifies its own
-- signatures, it says so among its hypotheses. Clocks and random ids are arguments. The clock of
-- a request to the feed server is read once.
--
-- Bounds and fuel: loops are structural recursion over their lists. `show` has one more unit of
-- fuel than its number, which has no more digits than that. `_try_call` runs on its number of
-- tries. Numbers are unbounded in Python, so they are naturals or integers here; a float occurs
-- only as a value of a hit, by its text and the integer that it equals, and times of the cache
-- are whole microseconds.
--
-- Not modelled: the web frameworks, files and locks but for what they hold, the OpenSearch
-- service, the dashboard's queries, demonstration data, chat and page, the web requests of the
-- threat intelligence providers, the LLM back ends, the launchers and the Windows agent; of the
-- master, the run that anchors and the texts it renders.
pub mod Prelude
pub mod Ledger
pub mod Actions
pub mod Auth
pub mod Versions
pub mod Master
pub mod ThreatCache
pub mod Licence
pub mod Feed
pub mod CheckLedger
pub mod Node
pub mod Anchors
pub mod Dashboard
pub mod Intel
pub mod Engine
