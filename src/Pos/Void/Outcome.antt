-- ===== src/Pos/Void/Outcome.antt =====
-- The ways in which `void_or_refund_sale` can end, and what a repeated action does.
use foodo.Prelude.{
  ℕ, ◌≡◌, inl, inr, true, Option, none, some, ok, err, Result, Bool-cases, Option-cases,
}
use foodo.Pos.Model.{
  Sale, Session, PosError, sale_reversed, audit_recorded, sale_not_found, invalid_state,
}
use foodo.Pos.Delivery.{find_sale, publish, commit, flush_sale}
use foodo.Pos.Void.{
  VoidRefundRequest, find_action, is_completed, lines_of, status_of, correct, correct_sale,
  void_or_refund_sale,
}

module _ (business_id sale_id : ℕ) (actor_id : Option ℕ) (r : VoidRefundRequest) (now : ℕ)
    (s : Session) where
  abbrev request : Result PosError Sale × Session
  request = void_or_refund_sale business_id sale_id actor_id r now s

  abbrev pub corrected : Sale → Sale
  corrected sale = correct r.new_status r.client_action_id r.reason now sale

  abbrev pub after : Sale → Session
  after sale = commit (
      publish
        (audit_recorded (status_of r.new_status) r.client_action_id (corrected sale) actor_id
          r.reason)
        (publish
          (sale_reversed (status_of r.new_status) r.client_action_id (corrected sale)
            (lines_of sale_id s.line_items))
          (flush_sale (corrected sale) s)))

  pub data Outcome : Type 0 where
    repeated :
        (old : Sale)
        → find_action r.client_action_id s.sales ≡ some old
        → request ≡ (ok old, s)
        → Outcome
    refused :
        (e : PosError)
        → find_action r.client_action_id s.sales ≡ none
        → request ≡ (err e, s)
        → Outcome
    granted :
        (old : Sale)
        → find_action r.client_action_id s.sales ≡ none
        → find_sale business_id sale_id s.sales ≡ some old
        → is_completed old.status ≡ true
        → request ≡ (ok (corrected old), after old)
        → Outcome

  Outcome-first : find_action r.client_action_id s.sales ≡ none → Outcome
  unfolding void_or_refund_sale correct_sale
  Outcome-first new = elim (Option-cases (find_sale business_id sale_id s.sales)) [
    | inl e ↦ refused (sale_not_found sale_id) new (rw (new, void_or_refund_sale, e))
    | inr (old, e) ↦ elim (Bool-cases (is_completed old.status)) [
      | inl open_sale ↦ granted old new e open_sale (rw (new, void_or_refund_sale, e, open_sale))
      | inr closed ↦
          refused (invalid_state old.status) new (rw (new, void_or_refund_sale, e, closed))
    ]
  ]

  pub outcome : Outcome
  unfolding void_or_refund_sale
  outcome = elim (Option-cases (find_action r.client_action_id s.sales)) [
    | inl new ↦ Outcome-first new
    | inr (old, e) ↦ repeated old e (rw (e, void_or_refund_sale))
  ]
