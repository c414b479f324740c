-- ===== src/Pos/Void/Once.antt =====
-- An action is carried out at most once, and a sale that is closed is not corrected again.
use text.Mathlib.TextPositions.{eq_refl}
use foodo.Prelude.{
  ℕ, String, ◌≡◌, refl, ap, ◌∙◌, inl, inr, Bool, true, false, ◌||◌, Option, none, some, List, [],
  ◌∷◌, arith, ok, err, ◌==◌, Bool-cases,
}
use foodo.Pos.Model.{Sale, Session, invalid_state}
use foodo.Pos.Delivery.{find_sale, put_sale}
use foodo.Pos.Delivery.Rows.{find_sale-keys}
use foodo.Pos.Void.{
  Correction, void, refund, VoidRefundRequest, has_action, find_action, is_completed, status_of,
  correct, correct_sale, void_or_refund_sale,
}
use foodo.Pos.Void.Outcome.{outcome, repeated, refused, granted, after}

||_true : (b : Bool) → (b || true) ≡ true
||_true true = refl
||_true false = refl

-- The transition keeps the keys of the row and marks it with the action.
pub correct_marks :
    (c : Correction) (a reason : String) (now : ℕ) (v : Sale)
    → ((correct c a reason now v).id ≡ v.id)
      × ((correct c a reason now v).business_id ≡ v.business_id)
      × ((correct c a reason now v).status ≡ status_of c)
      × ((has_action a (correct c a reason now v).void_client_action_id
            || has_action a (correct c a reason now v).refund_client_action_id)
          ≡ true)
unfolding correct has_action
correct_marks void a reason now v = (refl, refl, refl, simp eq_refl)
correct_marks refund a reason now v = (refl, refl, refl, simp (eq_refl a, ||_true))

find_action-put_sale :
    (a : String) (b i : ℕ) (xs : List Sale) (old v : Sale)
    → find_sale b i xs ≡ some old
    → v.id ≡ i
    → (has_action a v.void_client_action_id || has_action a v.refund_client_action_id) ≡ true
    → (w : Sale) × (find_action a (put_sale v xs) ≡ some w)
unfolding find_sale put_sale find_action
find_action-put_sale a b i [] old v f e m = absurd (cc)
find_action-put_sale a b i (x ∷ xs) old v f e m = elim (Bool-cases (x.id == v.id)) [
  | inl here ↦ (v, simp (here, m))
  | inr other ↦
      elim (Bool-cases
        (has_action a x.void_client_action_id || has_action a x.refund_client_action_id)) [
          | inl marked ↦ (x, simp (other, marked))
          | inr unmarked ↦
              let later : find_sale b i xs ≡ some old = ground arith in
              let rest = find_action-put_sale a b i xs old v later e m in
              (rest.0, simp (other, unmarked, rest.1))
        ]
]

-- The row that a request writes is found by the request's action.
find_action-corrected :
    (b i : ℕ) (r : VoidRefundRequest) (now : ℕ) (xs : List Sale) (old : Sale)
    → find_sale b i xs ≡ some old
    → (w : Sale) × (find_action r.client_action_id
          (put_sale (correct r.new_status r.client_action_id r.reason now old) xs)
        ≡ some w)
find_action-corrected b i r now xs old f =
    let marks = correct_marks r.new_status r.client_action_id r.reason now old in
    find_action-put_sale r.client_action_id b i xs old
      (correct r.new_status r.client_action_id r.reason now old) f
      (marks.0 ∙ (find_sale-keys b i xs old f).0) marks.3

module _ (business_id sale_id : ℕ) (actor_id : Option ℕ) (r : VoidRefundRequest) (now : ℕ)
    (t : Session) where
  -- A request whose action id is stored on a sale returns that sale and changes nothing.
  pub void_or_refund_sale-repeated :
      (w : Sale)
      → find_action r.client_action_id t.sales ≡ some w
      → void_or_refund_sale business_id sale_id actor_id r now t ≡ (ok w, t)
  unfolding void_or_refund_sale
  void_or_refund_sale-repeated w e = rw (e, void_or_refund_sale)

  -- A sale that is voided or refunded refuses a request with a new action id.
  pub void_or_refund_sale-closed :
      (v : Sale) (c : Correction)
      → find_action r.client_action_id t.sales ≡ none
      → find_sale business_id sale_id t.sales ≡ some v
      → v.status ≡ status_of c
      → void_or_refund_sale business_id sale_id actor_id r now t
        ≡ (err (invalid_state (status_of c)), t)
  unfolding void_or_refund_sale correct_sale is_completed
  void_or_refund_sale-closed v void fresh f e = rw (fresh, void_or_refund_sale, f, e)
  void_or_refund_sale-closed v refund fresh f e = rw (fresh, void_or_refund_sale, f, e)

module _ (business_id sale_id : ℕ) (actor_id : Option ℕ) (r : VoidRefundRequest) (now : ℕ)
    (s : Session) where
  -- Once a request has succeeded, every later request with its action id returns a sale and changes
  -- nothing, whatever sale or business it names.
  pub void_or_refund_sale_again :
      (business_id' sale_id' : ℕ) (actor_id' : Option ℕ) (r' : VoidRefundRequest) (now' : ℕ)
      (v : Sale)
      → r'.client_action_id ≡ r.client_action_id
      → (void_or_refund_sale business_id sale_id actor_id r now s).0 ≡ ok v
      → let t = (void_or_refund_sale business_id sale_id actor_id r now s).1 in
        (w : Sale) × (void_or_refund_sale business_id' sale_id' actor_id' r' now' t ≡ (ok w, t))
  void_or_refund_sale_again b' i' act' r' now' v same h =
      elim (outcome business_id sale_id actor_id r now s) [
        | repeated old e q ↦ (
          old,
          rw q (
              void_or_refund_sale-repeated b' i' act' r' now' s old
                (ap (λ a. find_action a s.sales) same ∙ e)),
        )
        | refused x e q ↦ absurd (cc)
        | granted old new f open_sale q ↦
            let found = find_action-corrected business_id sale_id r now s.sales old f in
            (
              found.0,
              rw q (
                  void_or_refund_sale-repeated b' i' act' r' now'
                    (after business_id sale_id actor_id r now s old) found.0
                    (ap (λ a. find_action a (after business_id sale_id actor_id r now s old).sales)
                        same
                      ∙ found.1)),
            )
      ]
