-- ===== src/Feed.antt =====
-- api/feed_store.py and api/feed.py (src/tinysocs): the store of issued and revoked licence keys,
-- the entitlement gate with its signed URLs, and the Stripe webhook.
pub mod Store
pub mod Revoked
pub mod Gate
pub mod Urls
pub mod Paid
pub mod Stripe
pub mod Webhook
pub mod Supersede
pub mod Tests
