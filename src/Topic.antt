-- ===== src/Topic.antt =====
-- broker/src/topic: topic filters, shared subscriptions, and the topic tree.
pub mod Filter
pub mod Shared
pub mod Tree
pub mod Keys
pub mod Storage
mod Tests
