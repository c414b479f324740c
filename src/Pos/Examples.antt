-- ===== src/Pos/Examples.antt =====
-- Runs of the sale service at concrete rows.
use foodo.Prelude.{pos, ◌≡◌, ◌+◌, ◌≤◌, refl, true, false, none, some, List, [], ◌∷◌, ok, err}
use foodo.Pos.Model.{
  Sale, Courier, Tables, Session, completed, voided, cash, delivery, pending, assigned,
  out_for_delivery, delivered, sale_not_found, courier_must_be_assigned, courier_inactive,
  invalid_state,
}
use foodo.Pos.Couriers.{find_courier, check_courier, validate_courier_for_sale}
use foodo.Pos.Delivery.{
  find_sale, put_sale, is_delivery, is_allowed, delivery_transitions, reassign, needs_courier,
  update_delivery_status,
}
use foodo.Pos.Delivery.Rows.{UniqueIds}
use foodo.Pos.Delivery.Lifecycle.{IsMoved, remaining, update_delivery_status_effect}
use foodo.Pos.Void.{
  void, refund, VoidRefundRequest, has_action, find_action, is_completed, lines_of, correct,
  correct_sale, void_or_refund_sale,
}
use foodo.Pos.Void.Once.{void_or_refund_sale_again}
use foodo.Pos.History.Closed.{corrected_once}
use foodo.Pos.Void.Effect.{IsCorrected, void_or_refund_sale_error, void_or_refund_sale_effect}
use foodo.Pos.History.{Request, deliver, undo, run, perform}
use foodo.Pos.History.Sales.{moves_in, moves_made, moves_in-remaining, run-settled}

abbrev home_delivery : Sale
home_delivery = record {
  id = 10;
  business_id = 1;
  store_id = 2;
  client_sale_id = "till-1";
  status = completed;
  subtotal = pos 1000;
  discount_amount = pos 0;
  tax_amount = pos 180;
  delivery_fee = pos 200;
  total = pos 1380;
  payment_method = cash;
  actor_id = some 5;
  customer_id = none;
  order_type = delivery;
  courier_id = none;
  delivery_address_line1 = some "Main Street 1";
  delivery_recipient_phone = none;
  delivery_note = none;
  delivery_status = some pending;
  occurred_at = 100;
  device_sequence = none;
  is_time_suspect = false;
  void_client_action_id = none;
  refund_client_action_id = none;
  voided_at = none;
  refunded_at = none;
  void_or_refund_reason = none;
}

abbrev other_delivery : Sale
other_delivery = record home_delivery { id = 11; client_sale_id = "till-2" }

abbrev active_courier : Courier
active_courier = record {
  id = 7;
  business_id = 1;
  name = "Asha";
  phone = "0700";
  vehicle = none;
  is_active = true;
  actor_id = none;
}

abbrev retired_courier : Courier
retired_courier = record active_courier { id = 8; is_active = false }

abbrev shop : Tables
shop = record {
  sales = home_delivery ∷ other_delivery ∷ [];
  line_items =
      record {
        sale_id = 10;
        item_id = 3;
        quantity = pos 2000;
        unit_price = pos 500;
        discount_amount = pos 0;
        line_total = pos 1000;
        unit_cost = none;
      }
      ∷ [];
  customers = [];
  couriers = active_courier ∷ retired_courier ∷ [];
  next_id = 100;
}

abbrev session : Session
session = record { rows = shop; committed = shop; outbox = [] }

abbrev void_request : VoidRefundRequest
void_request = record { client_action_id = "act-1"; new_status = void; reason = "wrong table" }

abbrev refund_request : VoidRefundRequest
refund_request = record { client_action_id = "act-2"; new_status = refund; reason = "cold" }

abbrev all_of_it : List Request
all_of_it =
    deliver 1 10 none assigned (some 7)
    ∷ deliver 1 10 none delivered none
    ∷ undo 1 10 none void_request 500
    ∷ deliver 1 10 none out_for_delivery none
    ∷ undo 1 10 none refund_request 600
    ∷ deliver 1 10 none delivered none
    ∷ []

unassigned_refused :
    update_delivery_status 1 10 none assigned none session ≡ (err courier_must_be_assigned, session)
unfolding update_delivery_status find_sale is_delivery is_allowed delivery_transitions reassign
    needs_courier
unassigned_refused = refl

retired_courier_refused :
    update_delivery_status 1 10 none assigned (some 8) session ≡ (err courier_inactive, session)
unfolding update_delivery_status find_sale is_delivery is_allowed delivery_transitions reassign
    validate_courier_for_sale find_courier check_courier
retired_courier_refused = refl

three_moves_granted : moves_in 1 10 all_of_it session ≡ 3
unfolding moves_in moves_made perform update_delivery_status find_sale put_sale is_delivery
    is_allowed delivery_transitions reassign needs_courier validate_courier_for_sale find_courier
    check_courier void_or_refund_sale find_action has_action correct_sale is_completed correct
    lines_of
three_moves_granted = refl

session-UniqueIds : UniqueIds session.sales
session-UniqueIds = (((λ e. cc), tt), (tt, tt))

abbrev sent : Sale
sent = record home_delivery { courier_id = some 7; delivery_status = some assigned }

abbrev undone : Sale
undone = record home_delivery {
  status = voided;
  voided_at = some 500;
  void_client_action_id = some "act-1";
  void_or_refund_reason = some "wrong table";
}

sent_granted : (update_delivery_status 1 10 (some 5) assigned (some 7) session).0 ≡ ok sent
unfolding update_delivery_status find_sale is_delivery is_allowed delivery_transitions reassign
    needs_courier validate_courier_for_sale find_courier check_courier
sent_granted = refl

undone_granted : (void_or_refund_sale 1 10 (some 5) void_request 500 session).0 ≡ ok undone
unfolding void_or_refund_sale find_action find_sale has_action correct_sale is_completed correct
undone_granted = refl

update_delivery_status_effect_example :
    IsMoved 1 10
      (some 5)
      assigned
      (some 7)
      session
      sent
      (update_delivery_status 1 10 (some 5) assigned (some 7) session).1
update_delivery_status_effect_example =
    update_delivery_status_effect 1 10 (some 5) assigned (some 7) session sent session-UniqueIds
      sent_granted

void_or_refund_sale_effect_example :
    IsCorrected 1 10
      (some 5)
      void_request
      500
      session
      undone
      (void_or_refund_sale 1 10 (some 5) void_request 500 session).1
unfolding find_action has_action
void_or_refund_sale_effect_example =
    void_or_refund_sale_effect 1 10 (some 5) void_request 500 session undone session-UniqueIds refl
      undone_granted

unknown_refused :
    (void_or_refund_sale 1 99 none void_request 500 session).0 ≡ err (sale_not_found 99)
unfolding void_or_refund_sale find_action find_sale has_action correct_sale
unknown_refused = refl

void_or_refund_sale_error_example :
    (void_or_refund_sale 1 99 none void_request 500 session).1 ≡ session
void_or_refund_sale_error_example =
    void_or_refund_sale_error 1 99 none void_request 500 session (sale_not_found 99) unknown_refused

-- The repetition comes from another business.
void_or_refund_sale_again_example :
    let t = (void_or_refund_sale 1 10 (some 5) void_request 500 session).1 in
    (w : Sale) × (void_or_refund_sale 2 11 none void_request 501 t ≡ (ok w, t))
void_or_refund_sale_again_example =
    void_or_refund_sale_again 1 10 (some 5) void_request 500 session 2 11 none void_request 501
      undone refl undone_granted

moves_in-remaining_example :
    (w : Sale) × (find_sale 1 10 (run all_of_it session).sales ≡ some w)
    × (moves_in 1 10 all_of_it session + remaining w.delivery_status ≤ 3)
unfolding find_sale
moves_in-remaining_example =
    moves_in-remaining 1 10 all_of_it session home_delivery session-UniqueIds refl

abbrev voided_shop : Session
voided_shop = record session { rows = record shop { sales = undone ∷ other_delivery ∷ [] } }

run-settled_example :
    (w : Sale) × (find_sale 1 10 (run all_of_it voided_shop).sales ≡ some w)
    × (w.total ≡ pos 1380)
    × (w.status ≡ voided)
unfolding find_sale
run-settled_example =
    run-settled 1 10 all_of_it voided_shop undone (((λ e. cc), tt), (tt, tt)) refl (λ e. cc)

corrected_once_example :
    void_or_refund_sale 1 10 none refund_request 700 (run all_of_it voided_shop)
    ≡ (err (invalid_state voided), run all_of_it voided_shop)
unfolding run perform update_delivery_status find_sale put_sale is_delivery is_allowed
    delivery_transitions reassign needs_courier validate_courier_for_sale find_courier check_courier
    void_or_refund_sale find_action has_action correct_sale is_completed correct lines_of
corrected_once_example =
    corrected_once 1 10 all_of_it voided_shop undone void (((λ e. cc), tt), (tt, tt)) refl refl none
      refund_request 700 refl
