-- ===== src/Engine.antt =====
-- The user-space dedupe engine (user/dedupe_engine.h, user/dedupe_engine.cpp).
pub mod Data
pub mod Signature
pub mod SignatureMap
pub mod Reference
pub mod Scan
pub mod Write
pub mod Session
