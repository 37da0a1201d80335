-- ===== src/Admission.antt =====
-- The admission of an adapter to a lane, hydralisk/admission/deepseek_v4_fable.py.
pub mod Files
pub mod Targets
pub mod Retarget
pub mod Manifest
pub mod Canary
pub mod Owner
pub mod Smoke
pub mod Context
pub mod Delta
pub mod Written
pub mod Tests
