-- ===== src/Validity.antt =====
-- What may be concluded from a report: foghttp_benchmark/validity/.
pub mod Summary
pub mod Helpers
pub mod Serialization
pub mod Profiles
pub mod Resource
pub mod Proxy
pub mod Compatibility
pub mod Generic
pub mod Children
pub mod Lifecycle
pub mod Attribution
pub mod Classification
