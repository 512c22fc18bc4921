-- ===== src/Server.antt =====
-- The cross-memory server, c/zis/server.c: anchors in common storage, plug-ins and services.
pub mod State
pub mod Config
pub mod Load
pub mod Route
pub mod Anchors
pub mod Install
pub mod Deploy
