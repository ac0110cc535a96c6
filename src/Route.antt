-- ===== src/Route.antt =====
-- src/route: the HTTP handlers, who may call them, and the route tables.
pub mod Auth
pub mod Http
pub mod Topics
pub mod Consumers
pub mod Receive
pub mod Tokens
pub mod Tables
pub mod Router
