-- ===== src/Tests/Owner.antt =====
-- The platform owner is created, logs in and enrols a TOTP secret.
use io_tables.Common.{◌+◌, [], ◌∷◌}
use io_tables.Session.{Session, begin}
use io_tables.Access.Login.Owner.{create_platform_owner}
use io_tables.Database.{Db}
use io_tables.Access.Login.Owner.{new_owner, owner_credential, owner_assignment}
use io_tables.Access.Login.Enroll.{enroll_platform_totp}
use io_tables.Tests.Totp
use io_tables.Tests.Fixture.{venue}
use io_tables.Tests.Access.{services}

abbrev creating : Session
creating = begin venue (λ n. 1000 + n) (λ n. 100 + n)

abbrev logging_in : Session
logging_in =
    begin (create_platform_owner services " root " "tea" creating).1.committed (λ n. 2000 + n)
      (λ n. 300 + n)

abbrev owned : Db
owned = record venue {
  users = new_owner 7 "root" 5 ∷ [];
  credentials = owner_credential 7 "pbkdf2_sha256$390000$b$ab" 5 ∷ [];
  platform_role_assignments = owner_assignment 70 7 5 ∷ [];
}

-- The clock stands at 130 seconds; the code was shown at 100.
abbrev enrolling : Session
enrolling = begin owned (λ n. 1000 + n) (λ n. 130000000 + n)

abbrev later : Session
later =
    begin
      (enroll_platform_totp services Totp.services (λ secret. secret) "root" "tea" "GEZDGNBV"
        "124105" enrolling).1.committed
      (λ n. 2000 + n) (λ n. 190000000 + n)
