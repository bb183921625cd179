-- ===== src/Driver.antt =====
-- The kernel-mode driver (driver/deduper.h, driver/deduper.cpp).
pub mod Kernel
pub mod Data
pub mod Compare
pub mod Policy
pub mod State
pub mod Copies
pub mod Registry
pub mod CowRegistry
pub mod Groups
pub mod Pages
pub mod Query
pub mod Drain
pub mod CowFault
pub mod Scanner
pub mod Interception
pub mod Shutdown
pub mod Lifecycle
pub mod Dispatch
