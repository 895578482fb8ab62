-- ===== src/Dashboard.antt =====
-- api/dashboard.py (src/tinysocs): the state that the dashboard's handlers keep. Each handler is a
-- function from a request and the state to a response and the new state; handlers run one after
-- another. The queries to OpenSearch, the demo data and the page itself are not modelled.
pub mod Session
pub mod Entries
pub mod Deadline
pub mod Renewal
pub mod Gate
pub mod EnvFile
pub mod Login
pub mod Passwords
pub mod Admitted
pub mod Attempts
pub mod BruteForce
pub mod Accounts
pub mod FirstBoot
pub mod Relogin
pub mod Lockout
pub mod Sites
pub mod Nodes
pub mod NodeList
pub mod Approval
pub mod Federation
pub mod Takeover
pub mod Proxy
pub mod Removed
pub mod RuleStore
pub mod Rules
pub mod RuleEdits
pub mod RuleIds
pub mod RuleRun
pub mod Registry
pub mod RuleTests
pub mod Triage
pub mod Allowed
pub mod TriageTests
pub mod Settings
pub mod Masked
pub mod SettingsTests
mod Tests
mod SiteTests
