-- ===== src/Access/Login/EnrolledOnce.antt =====
-- The enrolment of a TOTP secret: what it leaves, and that it happens once.
use Prim.Native.String.{String}
use io_tables.Session.{Session}
