-- ===== src/Broker.antt =====
-- src/broker: what is read from Pulsar topics, for requests and for webhooks.
pub mod Poll
pub mod Webhook
pub mod Cancel
pub mod Replies
pub mod System
pub mod Consume
