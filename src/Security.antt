-- ===== src/Security.antt =====
-- security: passwords and time-based codes.
pub mod Passwords
pub mod RoundTrip
pub mod Totp
pub mod TotpWindow
