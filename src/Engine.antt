-- ===== src/Engine.antt =====
-- agent/detections/engine.py (src/tinysocs): the detections over the hits of each rule. The search,
-- the reverse lookup of an address and the text of a dict are parameters; the rules are those that
-- the YAML library has parsed. A value is null, a text, an integer or a dict; none is an exception.
pub mod Document
pub mod Run
pub mod Counter
pub mod Buckets
pub mod Tests
