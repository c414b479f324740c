-- ===== src/Pos/Couriers.antt =====
-- `validate_courier_for_sale` of services/pos-service/app/services/courier_service.py.
pub mod Manage
use foodo.Prelude.{ℕ, Option, none, some, List, [], ◌∷◌, ◌==◌, if◌then◌else◌, Exec, pure, raise}
use foodo.Pos.Model.{Courier, Session, PosError, courier_unknown, courier_inactive}

unfoldable pub find_courier : ℕ → List Courier → Option Courier
find_courier i [] = none
find_courier i (c ∷ cs) = if c.id == i then some c else find_courier i cs

-- The courier is there, is the business's own, and is active.
unfoldable pub check_courier : ℕ → Option Courier → Exec Session PosError Courier
check_courier business_id none = raise courier_unknown
check_courier business_id (some c) =
    if c.business_id == business_id
    then (if c.is_active then pure c else raise courier_inactive)
    else raise courier_unknown

unfoldable pub validate_courier_for_sale : ℕ → ℕ → Exec Session PosError Courier
unfolding find_courier check_courier
validate_courier_for_sale business_id courier_id s =
    check_courier business_id (find_courier courier_id s.couriers) s
