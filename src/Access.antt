-- ===== src/Access.antt =====
-- modules/access: one-time codes, accounts and sessions.
pub mod Otp
pub mod Login
