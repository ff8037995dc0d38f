-- ===== src/Frontend.antt =====
-- The part of the web client that reads events of the chain (packages/frontend).
pub mod Events
pub mod Storage
pub mod Session
