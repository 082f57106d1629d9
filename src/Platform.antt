-- ===== src/Platform.antt =====
-- internal/platform: the platform database.
pub mod Types
pub mod Json
pub mod Badger
pub mod Keys
pub mod Store
pub mod Untouched
pub mod Counters
