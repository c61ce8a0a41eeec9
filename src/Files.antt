-- ===== src/Files.antt =====
-- src/files: upload policy, the upload contract, and the sweep of uploads that nobody finished.
pub mod Policy
pub mod Tables
pub mod Rows
pub mod Service
pub mod Orphans
pub mod Requests
pub mod Tests
