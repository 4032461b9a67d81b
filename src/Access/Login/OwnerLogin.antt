-- ===== src/Access/Login/OwnerLogin.antt =====
-- The platform owner logs in with the password that the account was created with.
use Prim.Native.String.{String}
use io_tables.Common.{
  ℕ, ◌≡◌, ap, ◌∙◌, Bool, true, ◌&&◌, none, some, List, [], ◌∷◌, find, find-append,
  find-sharper_none, insert, any, is_none, str_eq, arith, ◌==◌,
}
use io_tables.Database.{Db, User, PlatformRoleAssignment, is_in_use}
use io_tables.Session.{Session, Result}
use io_tables.Access.Login.Accounts.{LoginServices, is_owner, load_platform_user}
use io_tables.Access.Login.Owner.{
  BootstrapPlatformOwnerResult, new_owner, owner_assignment, insert_owner,
}

-- The first assignment in force is the only one that makes an owner.
any-assigned :
    (user_id : ℕ) (r : PlatformRoleAssignment) (rs : List PlatformRoleAssignment)
    → find (λ x. is_in_use x.status) rs ≡ none
    → any (λ x. (x.user_id == user_id) && is_in_use x.status) (insert r rs)
      ≡ ((r.user_id == user_id) && is_in_use r.status)
any-assigned user_id r [] h = ground arith
any-assigned user_id r (x ∷ rs) h = ground (arith, any-assigned user_id r rs)

same_id : (a b : ℕ) → (a == b) ≡ true → (b == a) ≡ true
same_id a b h = ground (arith, h)

module _ (services : LoginServices) (user_id now assignment_id : ℕ) (name : String) (db : Db)
    (users : List User) (assignments : List PlatformRoleAssignment)
    (at_users : db.users ≡ insert (new_owner user_id name now) users)
    (at_assignments : db.platform_role_assignments
      ≡ insert (owner_assignment assignment_id user_id now) assignments)
    (no_owner : find (λ r. is_in_use r.status) assignments ≡ none) where
  is_owner-created : (u : User) → is_owner u db ≡ (user_id == u.id)
  is_owner-created u =
      ap (any (λ x. (x.user_id == u.id) && is_in_use x.status)) at_assignments
      ∙ any-assigned u.id (owner_assignment assignment_id user_id now) assignments no_owner
      ∙ ground arith

  abbrev matches : User → Bool
  matches u =
      is_none u.tenant_id
      && str_eq (services.sql_lower u.username) name
      && is_in_use u.status
      && is_owner u db

  matches_id : (u : User) → matches u ≡ true → (u.id == user_id) ≡ true
  matches_id u h = same_id user_id u.id (ground (arith, h, is_owner-created u))

  matches_new :
      str_eq (services.sql_lower name) name ≡ true → matches (new_owner user_id name now) ≡ true
  matches_new lowered = ground (arith, lowered, is_owner-created (new_owner user_id name now))

  pub load_platform_user-created :
      find (λ u. u.id == user_id) users ≡ none
      → str_eq (services.sql_lower name) name ≡ true
      → load_platform_user services name db ≡ some (new_owner user_id name now)
  unfolding load_platform_user
  load_platform_user-created unused lowered =
      ap (find matches) at_users
      ∙ find-append matches users (new_owner user_id name now ∷ [])
      ∙ ground (
        arith,
        matches_new lowered,
        find-sharper_none (λ u. u.id == user_id) matches matches_id users unused,
      )

module _ (services : LoginServices) (name password : String) (s : Session) where
  inserted : Result BootstrapPlatformOwnerResult × Session
  inserted = insert_owner services name password s
