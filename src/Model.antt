-- ===== src/Model.antt =====
-- src/model: the documents of the webhook database and the messages of a poll.
pub mod Regex
pub mod Topic
pub mod Message
