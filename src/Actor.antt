-- ===== src/Actor.antt =====
-- security/context.py: who makes a request.
use io_tables.Common.{ℕ, Bool, true, false, Option, List, any}

pub data ActorType : Type 0 where
  platform_owner tenant_user customer_session display_device system : ActorType

pub data AppScope : Type 0 where
  platform tenant cashier_app station service : AppScope

pub data StaffRole : Type 0 where
  tenant_admin cashier station_staff service_staff : StaffRole

abbrev pub same_role : StaffRole → StaffRole → Bool
same_role tenant_admin tenant_admin = true
same_role cashier cashier = true
same_role station_staff station_staff = true
same_role service_staff service_staff = true
same_role _ _ = false

pub record ActorContext : Type 0 where
  pub actor_type : ActorType
  pub app_scope : AppScope
  pub user_id : Option ℕ
  pub tenant_id : Option ℕ
  pub roles : List StaffRole
  pub session_id : Option ℕ

-- `role in actor.roles`
unfoldable pub has_role : StaffRole → ActorContext → Bool
has_role role actor = any (same_role role) actor.roles
