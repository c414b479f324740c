-- ===== src/Inventory/Rules.antt =====
-- Which movement types an item type allows: `_COMPATIBILITY_RULES` and `_validate_item_type` of
-- services/inventory-service/app/services/stock_movement_service.py.
use foodo.Prelude.{
  ℕ, ◌≡◌, Bool, false, ◌||◌, List, [], ◌∷◌, arith, ◌==◌, if◌then◌else◌, Result, ok, err,
}
use foodo.Inventory.Model.{
  ItemType, sellable, raw_material, both, MovementType, sale, purchase_received, manual_adjustment,
  waste, transfer_in, transfer_out, sale_reversal, refund_reversal, production_input,
  production_output, production_reversal,
}

-- Members of an enum are equal when they stand at the same place.
place : MovementType → ℕ
place sale = 0
place purchase_received = 1
place manual_adjustment = 2
place waste = 3
place transfer_in = 4
place transfer_out = 5
place sale_reversal = 6
place refund_reversal = 7
place production_input = 8
place production_output = 9
place production_reversal = 10

-- `movement_type in allowed`
unfoldable pub is_member : MovementType → List MovementType → Bool
unfolding place
is_member m [] = false
is_member m (x ∷ xs) = place m == place x || is_member m xs

-- `_COMPATIBILITY_RULES`
pub compatibility_rules : ItemType → List MovementType
compatibility_rules sellable =
    sale ∷ waste ∷ manual_adjustment ∷ transfer_in ∷ transfer_out ∷ sale_reversal ∷ refund_reversal
    ∷ production_input ∷ production_output ∷ production_reversal ∷ []
compatibility_rules raw_material =
    purchase_received ∷ waste ∷ manual_adjustment ∷ transfer_in ∷ transfer_out ∷ sale_reversal
    ∷ refund_reversal ∷ production_input ∷ production_output ∷ production_reversal ∷ []
compatibility_rules both =
    sale ∷ purchase_received ∷ waste ∷ manual_adjustment ∷ transfer_in ∷ transfer_out
    ∷ sale_reversal ∷ refund_reversal ∷ production_input ∷ production_output ∷ production_reversal
    ∷ []

-- The exceptions of the module, with the values that their texts show.
pub data MoveError : Type 0 where
  item_not_found : ℕ → MoveError
  item_type_mismatch : ItemType → MovementType → MoveError
  insufficient_stock : ℕ → ℕ → MoveError
  invalid_actor_type : MoveError

unfoldable pub validate_item_type : ItemType → MovementType → Result MoveError (Unit {0})
unfolding compatibility_rules is_member
validate_item_type t m =
    if is_member m (compatibility_rules t) then ok tt else err (item_type_mismatch t m)

-- A movement type that is no sale and no purchase is allowed for every item.
pub validate_correction :
    (t : ItemType) {m : MovementType}
    → (m ≡ sale → ⊥)
    → (m ≡ purchase_received → ⊥)
    → validate_item_type t m ≡ ok tt
unfolding validate_item_type
validate_correction sellable {m} p q = ground arith
validate_correction raw_material {m} p q = ground arith
validate_correction both {m} p q = ground arith
