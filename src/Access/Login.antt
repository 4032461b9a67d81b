-- ===== src/Access/Login.antt =====
-- Accounts and sessions: IdentityAccessService of modules/access/identity.py.
pub mod Accounts
pub mod Sessions
pub mod Authenticate
pub mod FirstPassword
pub mod Owner
pub mod OwnerLogin
pub mod Enroll
pub mod EnrolledOnce
pub mod Lifetime
pub mod Pending
pub mod Commits
pub mod OwnerCommits
pub mod Requests
