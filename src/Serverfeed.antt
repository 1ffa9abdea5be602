-- ===== src/Serverfeed.antt =====
-- packages/serverfeed: an in-process feed of server activity.
pub mod Event
pub mod Feed
