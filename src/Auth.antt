-- ===== src/Auth.antt =====
-- Authentication: tokens, guards, and the service behind login, refresh and logout.
pub mod Service
pub mod Password
pub mod Config
pub mod Guard
pub mod Tables
