-- ===== src/Pos/Void/Effect.antt =====
-- What one request to void or to refund changes.
use foodo.Prelude.{ℕ, String, ◌≡◌, refl, sym, ◌∙◌, true, Option, none, some, [], ◌∷◌, ◌++◌, ok, err}
use foodo.Pos.Model.{
  Sale, SaleStatus, completed, voided, refunded, Session, PosError, sale_reversed, audit_recorded,
}
use foodo.Pos.Delivery.{find_sale}
use foodo.Pos.Delivery.Rows.{
  UniqueIds, find_sale-keys, find_sale-put_sale, IsOnlyAt, IsOnlyAt-put_sale,
}
use foodo.Pos.Void.{
  Correction, void, refund, VoidRefundRequest, find_action, is_completed, lines_of, status_of,
  correct, void_or_refund_sale,
}
use foodo.Pos.Void.Once.{correct_marks}
use foodo.Pos.Void.Outcome.{outcome, repeated, refused, granted, corrected}

pub is_completed-elim : (d : SaleStatus) → is_completed d ≡ true → d ≡ completed
unfolding is_completed
is_completed-elim completed e = refl
is_completed-elim voided e = absurd (cc)
is_completed-elim refunded e = absurd (cc)

pub correct-total :
    (c : Correction) (a reason : String) (now : ℕ) (v : Sale)
    → (correct c a reason now v).total ≡ v.total
unfolding correct
correct-total void a reason now v = refl
correct-total refund a reason now v = refl

-- The moment and the action of a correction, and those of the other one.
abbrev pub IsStamped : Correction → String → ℕ → Sale → Sale → Type 0
IsStamped void a now old v =
    (v.voided_at ≡ some now)
    × (v.void_client_action_id ≡ some a)
    × (v.refunded_at ≡ old.refunded_at)
    × (v.refund_client_action_id ≡ old.refund_client_action_id)
IsStamped refund a now old v =
    (v.refunded_at ≡ some now)
    × (v.refund_client_action_id ≡ some a)
    × (v.voided_at ≡ old.voided_at)
    × (v.void_client_action_id ≡ old.void_client_action_id)

-- Has the sale `v` every field of `old` that a correction leaves alone?
abbrev pub IsKeptElsewhere : Sale → Sale → Type 0
IsKeptElsewhere old v =
    record v {
      status = old.status;
      voided_at = old.voided_at;
      refunded_at = old.refunded_at;
      void_client_action_id = old.void_client_action_id;
      refund_client_action_id = old.refund_client_action_id;
      void_or_refund_reason = old.void_or_refund_reason;
    }
    ≡ old

correct_lem :
    (c : Correction) (a reason : String) (now : ℕ) (old : Sale)
    → let v = correct c a reason now old in
      IsStamped c a now old v × (v.void_or_refund_reason ≡ some reason) × IsKeptElsewhere old v
unfolding correct
correct_lem void a reason now old = ((refl, refl, refl, refl), refl, refl)
correct_lem refund a reason now old = ((refl, refl, refl, refl), refl, refl)

-- What a request that succeeds says of the sale that it returns, and of the session after it.
abbrev pub IsCorrected :
    ℕ → ℕ → Option ℕ → VoidRefundRequest → ℕ → Session → Sale → Session → Type 0
IsCorrected business_id sale_id actor_id r now s v t =
    ((old : Sale) × (find_sale business_id sale_id s.sales ≡ some old)
      × (old.status ≡ completed)
      × IsStamped r.new_status r.client_action_id now old v
      × (v.void_or_refund_reason ≡ some r.reason)
      × IsKeptElsewhere old v)
    × (v.status ≡ status_of r.new_status)
    × (find_sale business_id sale_id t.sales ≡ some v)
    × (t.committed ≡ t.rows)
    × (t.outbox
        ≡ (s.outbox
            ++ sale_reversed (status_of r.new_status) r.client_action_id v
                (lines_of sale_id s.line_items)
              ∷ [])
          ++ audit_recorded (status_of r.new_status) r.client_action_id v actor_id r.reason ∷ [])
    × IsOnlyAt sale_id s.rows t.rows

module _ (business_id sale_id : ℕ) (actor_id : Option ℕ) (r : VoidRefundRequest) (now : ℕ)
    (s : Session) where
  -- A request that is refused leaves the rows, the commit and the messages as they were.
  pub void_or_refund_sale_error :
      (e : PosError)
      → (void_or_refund_sale business_id sale_id actor_id r now s).0 ≡ err e
      → (void_or_refund_sale business_id sale_id actor_id r now s).1 ≡ s
  void_or_refund_sale_error x h = elim (outcome business_id sale_id actor_id r now s) [
    | repeated old e q ↦ absurd (cc)
    | refused y e q ↦ rw q refl
    | granted old new f open_sale q ↦ absurd (cc)
  ]

  -- In a table of sales with different ids, a request with a new action id that succeeds found a
  -- completed sale of the business. The sale it
  -- returns has the requested status, the moment, the action id and the reason of the request, and
  -- is as it was in every other field. It stands in the table in its place, every other sale and the
  -- other tables are as before, and all is committed; and exactly the reversal of the sale, with the
  -- lines of its table, and the audit record were published.
  pub void_or_refund_sale_effect :
      (v : Sale)
      → UniqueIds s.sales
      → find_action r.client_action_id s.sales ≡ none
      → (void_or_refund_sale business_id sale_id actor_id r now s).0 ≡ ok v
      → IsCorrected business_id sale_id actor_id r now s v
          (void_or_refund_sale business_id sale_id actor_id r now s).1
  void_or_refund_sale_effect v u new h = elim (outcome business_id sale_id actor_id r now s) [
    | repeated old e q ↦ absurd (cc)
    | refused y e q ↦ absurd (cc)
    | granted old new' f open_sale q ↦
        let w = corrected business_id sale_id actor_id r now s old in
        let marks = correct_marks r.new_status r.client_action_id r.reason now old in
        let keys = find_sale-keys business_id sale_id s.sales old f in
        let fields = correct_lem r.new_status r.client_action_id r.reason now old in
        let same : w ≡ v = cc in
        rw (sym same, q)
          (
            (old, f, is_completed-elim old.status open_sale, fields.0, fields.1, fields.2),
            marks.2,
            find_sale-put_sale business_id sale_id s.sales old w u f (marks.0 ∙ keys.0)
                (marks.1 ∙ keys.1),
            refl,
            refl,
            IsOnlyAt-put_sale sale_id w s.rows u (marks.0 ∙ keys.0),
          )
  ]
