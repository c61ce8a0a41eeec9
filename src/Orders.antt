-- ===== src/Orders.antt =====
-- Orders: placing them, and the service behind the controller.
pub mod Place
pub mod Events
pub mod Live
pub mod Service
pub mod Tables
