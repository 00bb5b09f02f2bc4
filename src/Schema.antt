-- ===== src/Schema.antt =====
-- The admission of saved reports: foghttp_benchmark/report_schema/.
pub mod Fields
pub mod Identity
pub mod Tables
pub mod Optional
pub mod Ordinary
pub mod Resources
pub mod Layouts
pub mod Metadata
pub mod Decoding
