-- ===== src/Auth.antt =====
-- pkg/auth: server-side sessions, the permission that a route asks for, and the middleware chain in
-- front of the console's handlers.
pub mod Sessions
pub mod Routes
pub mod Middleware
mod Tests
