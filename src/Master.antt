-- ===== src/Master.antt =====
-- orchestrator/master.py (src/tinysocs): retries, the fan-out to the nodes, the merging of their
-- evidence, and the anchoring run.
pub mod Retry
pub mod Fanout
pub mod Merge
pub mod Union
pub mod Merged
pub mod Tests
