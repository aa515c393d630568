-- ===== src/Dubbo.antt =====
-- The dubbo client's wire formats: hessian values and dubbo packets (dubbo_client/).
pub mod Hessian
pub mod Codec
pub mod Client
pub mod Sync
mod Tests
mod ClientTests
mod SyncTests
mod ResponseTests
