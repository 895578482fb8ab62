-- ===== src/Node.antt =====
-- api/node.py (src/tinysocs): the rate limits, the bearer tokens and the evidence ledger of a node.
pub mod Rate
pub mod Buckets
pub mod Token
pub mod Bearer
pub mod Evidence
pub mod Tests
