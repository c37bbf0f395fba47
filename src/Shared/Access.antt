-- ===== src/Shared/Access.antt =====
-- The role lists of libs/shared/src/constants/billing-permissions.constants.ts and
-- deal-permissions.constants.ts, and the guard of
-- apps/api-gateway/src/modules/auth/guards/roles.guard.ts that reads them.
-- Identifiers (uuids) are only compared, so they are numbers.
use crm_system_backend.Prelude.{
  ℕ, ◌≡◌, Bool, true, false, Option, none, some, List, [], ◌∷◌, String, arith, ◌==◌, any,
}

pub data Role : Type 0 where
  user admin manager technologist logist : Role

pub record AuthUser : Type 0 where
  pub id : ℕ
  pub email : String
  pub role : Role

abbrev pub role_index : Role → ℕ
role_index user = 0
role_index admin = 1
role_index manager = 2
role_index technologist = 3
role_index logist = 4

-- `===` on two roles.
abbrev pub same_role : Role → Role → Bool
same_role r s = role_index r == role_index s

pub same_role→eq : (r s : Role) → same_role r s ≡ true → r ≡ s
same_role→eq r s h = ground arith

abbrev pub includes_role : List Role → Role → Bool
includes_role rs r = any (λ s. same_role s r) rs

-- The routes that carry `@Roles(...)`.
pub data OrderRoute : Type 0 where
  create_order update_order change_order_status delete_order : OrderRoute

pub data PaymentRoute : Type 0 where
  create_payment change_payment_status refund_payment delete_payment : PaymentRoute

pub data DealRoute : Type 0 where
  create_deal update_deal update_main_comment update_responsibles delete_deal import_deal :
      DealRoute

-- ORDER_PERMISSIONS with the `@Roles` lines of OrdersController.
abbrev pub order_permissions : OrderRoute → List Role
order_permissions create_order = manager ∷ admin ∷ user ∷ []
order_permissions update_order = manager ∷ admin ∷ user ∷ []
order_permissions change_order_status = manager ∷ admin ∷ user ∷ []
order_permissions delete_order = admin ∷ []

-- PAYMENT_PERMISSIONS with the `@Roles` lines of PaymentsController.
abbrev pub payment_permissions : PaymentRoute → List Role
payment_permissions create_payment = manager ∷ admin ∷ user ∷ []
payment_permissions change_payment_status = manager ∷ admin ∷ user ∷ []
payment_permissions refund_payment = admin ∷ manager ∷ []
payment_permissions delete_payment = admin ∷ []

-- DEAL_PERMISSIONS with the `@Roles` lines of DealsController.
abbrev pub deal_permissions : DealRoute → List Role
deal_permissions create_deal = manager ∷ admin ∷ user ∷ []
deal_permissions update_deal = manager ∷ admin ∷ user ∷ []
deal_permissions update_main_comment = admin ∷ manager ∷ user ∷ []
deal_permissions update_responsibles = manager ∷ admin ∷ user ∷ []
deal_permissions delete_deal = admin ∷ []
deal_permissions import_deal = admin ∷ []

-- `requiredRoles.some((role) => role === user?.role)`.
abbrev pub has_role : List Role → Option AuthUser → Bool
has_role rs none = false
has_role rs (some u) = includes_role rs u.role

-- RolesGuard.canActivate: a route with no list, or with an empty one, is open.
unfoldable pub can_activate : Option (List Role) → Option AuthUser → Bool
can_activate none u = true
can_activate (some []) u = true
can_activate (some (r ∷ rs)) u = has_role (r ∷ rs) u
