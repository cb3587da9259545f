-- ===== src/Platform.antt =====
-- The parts of src/platform/linux below the drivers and tasks.
pub mod Intr
pub mod Timer
