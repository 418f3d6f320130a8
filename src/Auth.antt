-- ===== src/Auth.antt =====
-- backend/app/api/v1/auth.py, backend/app/services/auth, backend/app/middleware/rate_limit.py.
pub mod Users
pub mod Tokens
pub mod Login
pub mod Lockout
pub mod Sessions
pub mod Google
pub mod Passwords
pub mod RateLimit
mod Tests
