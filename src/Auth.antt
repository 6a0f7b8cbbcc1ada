-- ===== src/Auth.antt =====
-- Accounts, sessions and passwords (src/modules/auth/auth.service.ts).
pub mod Store
pub mod Tokens
pub mod Sessions
pub mod Passwords
pub mod Google
pub mod Codes
pub mod History
