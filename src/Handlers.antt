-- ===== src/Handlers.antt =====
-- internal/handlers: the HTTP handlers, and the handler of the devices' responses.
pub mod Hold
pub mod Transaction
pub mod Edc
pub mod Admin
pub mod Health
pub mod Middleware
pub mod Lifecycle
