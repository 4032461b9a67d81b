-- ===== src/Access/Otp.antt =====
-- One-time codes: OtpMessagingService of modules/access/otp.py.
pub mod Codes
pub mod Challenge
pub mod Verify
pub mod RoundTrip
