-- ===== src/Pos/Delivery.antt =====
-- `update_delivery_status` of services/pos-service/app/services/sale_service.py.
pub mod Outcome
pub mod Rows
pub mod Lifecycle
use foodo.Prelude.{
  ℕ, Bool, true, false, not, ◌&&◌, ◌||◌, Option, none, some, List, [], ◌∷◌, ◌++◌, ◌==◌,
  if◌then◌else◌, Exec, ok, err, pure, raise, raise_if, or_raise, modify, ◌>>=◌, ◌>>◌,
}
use foodo.Pos.Model.{
  Sale, OrderType, dine_in, takeaway, delivery, DeliveryStatus, pending, assigned, out_for_delivery,
  delivered, failed, Session, Message, delivery_status_changed, PosError, sale_not_found,
  not_a_delivery, cannot_move, courier_must_be_assigned,
}
use foodo.Pos.Couriers.{validate_courier_for_sale}

-- `_DELIVERY_TRANSITIONS`
unfoldable pub delivery_transitions : Option DeliveryStatus → List DeliveryStatus
delivery_transitions none = []
delivery_transitions (some pending) = assigned ∷ failed ∷ []
delivery_transitions (some assigned) = out_for_delivery ∷ failed ∷ []
delivery_transitions (some out_for_delivery) = delivered ∷ failed ∷ []
delivery_transitions (some delivered) = []
delivery_transitions (some failed) = []

-- Members of an enum are equal when they stand at the same place.
unfoldable pub place : DeliveryStatus → ℕ
place pending = 0
place assigned = 1
place out_for_delivery = 2
place delivered = 3
place failed = 4

-- `new_status in allowed`
unfoldable pub is_allowed : DeliveryStatus → List DeliveryStatus → Bool
unfolding place
is_allowed d [] = false
is_allowed d (x ∷ xs) = place d == place x || is_allowed d xs

unfoldable pub is_delivery : OrderType → Bool
is_delivery dine_in = false
is_delivery takeaway = false
is_delivery delivery = true

-- The select by `Sale.id` and `Sale.business_id`.
unfoldable pub find_sale : ℕ → ℕ → List Sale → Option Sale
find_sale business_id sale_id [] = none
find_sale business_id sale_id (x ∷ xs) =
    if x.id == sale_id && x.business_id == business_id
    then some x
    else find_sale business_id sale_id xs

-- The flush of a changed sale: the row with its id is written.
unfoldable pub put_sale : Sale → List Sale → List Sale
put_sale v [] = []
put_sale v (x ∷ xs) = if x.id == v.id then v ∷ xs else x ∷ put_sale v xs

-- An optional courier of the request replaces the sale's, if it is valid.
unfoldable pub reassign : ℕ → Option ℕ → Sale → Exec Session PosError Sale
reassign business_id none sale = pure sale
reassign business_id (some c) sale = do
  validate_courier_for_sale business_id c
  pure (record sale { courier_id = some c })

unfoldable pub needs_courier : DeliveryStatus → Option ℕ → Bool
unfolding place
needs_courier d none = place d == place assigned
needs_courier d (some _) = false

abbrev pub publish : Message → Session → Session
publish m s = record s { outbox = s.outbox ++ m ∷ [] }

abbrev pub commit : Session → Session
commit s = record s { committed = s.rows }

abbrev pub flush_sale : Sale → Session → Session
flush_sale v s = record s { rows = record s.rows { sales = put_sale v s.sales } }

unfoldable pub update_delivery_status :
    ℕ → ℕ → Option ℕ → DeliveryStatus → Option ℕ → Exec Session PosError Sale
update_delivery_status business_id sale_id actor_id new_status courier_id = do
  sale ← (λ s. or_raise (find_sale business_id sale_id s.sales) (sale_not_found sale_id) s)
  raise_if (not (is_delivery sale.order_type)) (not_a_delivery sale.order_type)
  raise_if (not (is_allowed new_status (delivery_transitions sale.delivery_status)))
      (cannot_move sale.delivery_status new_status)
  moved ← reassign business_id courier_id sale
  raise_if (needs_courier new_status moved.courier_id) courier_must_be_assigned
  let updated = record moved { delivery_status = some new_status }
  modify (flush_sale updated)
  modify (publish (delivery_status_changed updated new_status actor_id))
  modify commit
  pure updated
