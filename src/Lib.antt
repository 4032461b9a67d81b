-- ===== src/Lib.antt =====
-- IoTables: restaurant tables, orders, the kitchen and the till.
--
-- The program is a Python service (iotables/) over a relational database. A request names an actor
-- (iotables/security/context.py); a service of iotables/modules/ runs it against the tables of
-- iotables/database/schema.py in one transaction, and commits by itself. The services meet only in
-- the tables: an order writes order items and preparation items, the kitchen moves the preparation
-- items, the waiters deliver what is ready, and the till bills order items, records payments and
-- closes the session. Displays at the tables show codes by which guests prove that they are there;
-- staff log in, at first with a one-time code. This library models the services of the kitchen, the
-- waiters and the till, the presence at a table, the cart and the submission of an order, and logins.
--
-- Files and code. All paths are below src/iotables/ of the repository.
--   Common        tables as lists of rows in the order of insertion; select, find, update, insert,
--                 join, sum and order_by stand for the statements, with lemmas on how they act on
--                 each other; Boolean tests on numbers; str.strip; integers with a sign
--   Errors        the error codes of the services, one constructor each (api/errors.py ApiError)
--   Actor         security/context.py
--   Database      a row type for each table that the services use, a record of these tables, and
--                 the status words of the CHECK constraints as data types (database/schema.py)
--   Session       one request's transaction: the open database, what is committed, the ids of
--                 uuid4() and the clock readings still to come. Exec A is a service call that
--                 returns an A or raises; do blocks follow the code statement by statement.
--                 Session.Ends proves what a call leaves behind, statement by statement
--   Settlement    Billing: modules/settlement/table_session_billing.py; Payments:
--                 modules/settlement/payments.py; Balance: any run of their requests
--   Fulfillment   Preparation: modules/fulfillment/preparation.py; Delivery:
--                 modules/fulfillment/service_delivery.py; each with any run of its requests
--   Ordering      Menu: what of a product a guest sees, from modules/tenant_setup/menu_catalog.py;
--                 Pricing, Cart, Submit and Orders: validate_and_price_cart_item, the cart
--                 operations, submit_order and list_table_orders of
--                 modules/ordering/customer_ordering.py. The hashes of hashlib and the lookup of a
--                 product in the menu's tables are the record Services, which a caller supplies.
--                 Presence: modules/ordering/table_presence.py, with any run of its requests; the
--                 hashes and the text of a random token are the record PresenceServices
--   Access        Otp: modules/access/otp.py; Login: the platform owner, logins, sessions and first
--                 passwords of modules/access/identity.py and the resolver of
--                 security/session.py, with any run of their requests. HMAC, SHA-256, Fernet and
--                 lower() are the records OtpServices and LoginServices
--   Security      Passwords: security/passwords.py, over PBKDF2, base64 and int() as a record; Totp:
--                 the codes of security/totp.py, over HMAC-SHA1 and base32 as a record
--   Tests         a venue with one open table, runs on it, and the theorems at these runs
--
-- How the code is modelled. A method is a definition of its name; a long one is cut where the code
-- returns early or starts to write (record_new, record_writes, deliver_rows), and the pieces are
-- composed as in the code. `if x is None: raise e` is or_raise, another guard is raise_if. UUIDs and
-- times are numbers, in the order of the database. An amount that a request names is an integer, a
-- stored one a natural number, as the CHECK constraints ask. `.first()` is the first row in the order
-- of insertion; where more rows could match, a theorem that depends on it says that one does. An
-- update that returns no row is a find before it. The request hash is an argument where the API
-- computes it (payments, voids, bulk deliveries).
-- Random bytes are drawn like the ids, as numbers, and spelled by a parameter. Times count
-- microseconds. The API payloads (as_api_payload) rename fields and are left out.
--
-- Loops run over the rows of a query and are recursion on the list; no fuel is needed.
--
-- Not modelled: unique indexes and foreign keys as failing statements (a theorem that needs one
-- has it as a hypothesis), concurrent transactions (and so the IntegrityErrors of submit_order and
-- create_platform_owner), the HTTP layer (api/), the tables and the setup of the menu, venue layout
-- and display setup (modules/tenant_setup/), staff accounts (modules/access/), provisioning
-- (modules/platform/), the audit query (modules/governance/), the FastAPI dependencies (security/),
-- and the generation and encryption of TOTP secrets, which only call libraries.
pub mod Common
pub mod Errors
pub mod Actor
pub mod Database
pub mod Session
pub mod Settlement
pub mod Fulfillment
pub mod Security
pub mod Ordering
pub mod Access
pub mod Tests
