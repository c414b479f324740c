-- ===== src/Pos/Void.antt =====
-- `void_or_refund_sale` of services/pos-service/app/services/sale_service.py.
pub mod Outcome
pub mod Once
pub mod Effect
use text.Mathlib.Text.{◌==◌ as str_eq}
use foodo.Prelude.{
  ℕ, ℤ, String, Bool, true, false, not, ◌||◌, Option, none, some, List, [], ◌∷◌, ◌==◌,
  if◌then◌else◌, Exec, ok, pure, raise_if, or_raise, gets, modify, ◌>>=◌, ◌>>◌,
}
use foodo.Pos.Decimal.{Decimal}
use foodo.Pos.Model.{
  Sale, SaleStatus, completed, voided, refunded, SaleLineItem, Session, sale_reversed,
  audit_recorded, PosError, sale_not_found, invalid_state,
}
use foodo.Pos.Delivery.{find_sale, publish, commit, flush_sale}

-- `new_status` of the request.
pub data Correction : Type 0 where
  void refund : Correction

pub record VoidRefundRequest : Type 0 where
  pub client_action_id : String
  pub new_status : Correction
  pub reason : String

-- Is this the action id that is stored on the row?
unfoldable pub has_action : String → Option String → Bool
has_action a none = false
has_action a (some x) = str_eq x a

-- The first select: a sale of any business that was voided or refunded by this action.
unfoldable pub find_action : String → List Sale → Option Sale
unfolding has_action
find_action a [] = none
find_action a (x ∷ xs) =
    if has_action a x.void_client_action_id || has_action a x.refund_client_action_id
    then some x
    else find_action a xs

unfoldable pub is_completed : SaleStatus → Bool
is_completed completed = true
is_completed voided = false
is_completed refunded = false

-- The second select, whose quantities have the places of their column.
unfoldable pub lines_of : ℕ → List SaleLineItem → List (ℕ × Decimal)
lines_of sale_id [] = []
lines_of sale_id (l ∷ ls) =
    if l.sale_id == sale_id
    then (l.item_id, record { coefficient = l.quantity; places = 3 }) ∷ lines_of sale_id ls
    else lines_of sale_id ls

abbrev pub status_of : Correction → SaleStatus
status_of void = voided
status_of refund = refunded

-- The transition of the row.
unfoldable pub correct : Correction → String → String → ℕ → Sale → Sale
correct void action_id reason now sale = record sale {
  status = voided;
  voided_at = some now;
  void_client_action_id = some action_id;
  void_or_refund_reason = some reason;
}
correct refund action_id reason now sale = record sale {
  status = refunded;
  refunded_at = some now;
  refund_client_action_id = some action_id;
  void_or_refund_reason = some reason;
}

-- The steps behind the idempotency check.
unfoldable pub correct_sale : ℕ → ℕ → Option ℕ → VoidRefundRequest → ℕ → Exec Session PosError Sale
correct_sale business_id sale_id actor_id r now = do
  sale ← (λ s. or_raise (find_sale business_id sale_id s.sales) (sale_not_found sale_id) s)
  raise_if (not (is_completed sale.status)) (invalid_state sale.status)
  lines ← gets (λ s. lines_of sale_id s.line_items)
  let updated = correct r.new_status r.client_action_id r.reason now sale
  modify (flush_sale updated)
  modify (publish (sale_reversed (status_of r.new_status) r.client_action_id updated lines))
  modify (
      publish
        (audit_recorded (status_of r.new_status) r.client_action_id updated actor_id r.reason))
  modify commit
  pure updated

unfoldable pub void_or_refund_sale :
    ℕ → ℕ → Option ℕ → VoidRefundRequest → ℕ → Exec Session PosError Sale
void_or_refund_sale business_id sale_id actor_id r now s =
    elim (find_action r.client_action_id s.sales) [
      | none ↦ correct_sale business_id sale_id actor_id r now s
      | some existing ↦ (ok existing, s)
    ]
