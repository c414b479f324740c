-- ===== src/Pos/History.antt =====
-- Sequences of requests to the sale service, in the order in which they are served, and what a
-- sale can go through in them.
pub mod Sales
pub mod Closed
use foodo.Prelude.{
  ℕ, String, suc, ◌+◌, ◌≤◌, ◌<◌, ◌≡◌, ◌≢◌, refl, sym, ap, ◌∙◌, ◌⊎◌, inl, inr, Bool, true, false,
  ◌&&◌, ◌==◌, Option, none, some, List, [], ◌∷◌, ◌++◌, arith, ok, err, Result, Bool-cases,
  if◌then◌else◌,
}
use foodo.Pos.Model.{Sale, SaleStatus, completed, Session, PosError, DeliveryStatus}
use foodo.Pos.Delivery.{
  find_sale, put_sale, is_allowed, delivery_transitions, update_delivery_status,
}
use foodo.Pos.Delivery.Rows.{
  UniqueIds, UniqueIds-put_sale, find_sale-keys, find_sale-put_sale, find_sale-put_sale_ne,
  find_sale_unique,
}
use foodo.Pos.Delivery.Outcome as Delivery
use foodo.Pos.Delivery.Outcome.{Reassigned, kept, changed}
use foodo.Pos.Delivery.Lifecycle.{
  Moves, remaining, Reassigned-keys, Moves-remaining, is_allowed-Moves,
}
use foodo.Pos.Void.{
  Correction, void, refund, VoidRefundRequest, status_of, correct, void_or_refund_sale,
}
use foodo.Pos.Void.Effect.{is_completed-elim, correct-total}
use foodo.Pos.Void.Once.{correct_marks}
use foodo.Pos.Void.Outcome as Void

-- The requests that write a sale that is there.
pub data Request : Type 0 where
  deliver : ℕ → ℕ → Option ℕ → DeliveryStatus → Option ℕ → Request
  undo : ℕ → ℕ → Option ℕ → VoidRefundRequest → ℕ → Request

unfoldable pub perform : Request → Session → Result PosError Sale × Session
perform (deliver b i actor d c) s = update_delivery_status b i actor d c s
perform (undo b i actor r now) s = void_or_refund_sale b i actor r now s

unfoldable pub run : List Request → Session → Session
unfolding perform
run [] s = s
run (q ∷ qs) s = run qs (perform q s).1

-- What one request can do to one sale.
pub data Change : Sale → Sale → Type 0 where
  same : {v : Sale} → Change v v
  moved :
      {v w : Sale} (d : DeliveryStatus)
      → w.delivery_status ≡ some d
      → Moves v.delivery_status d
      → w.status ≡ v.status
      → w.total ≡ v.total
      → Change v w
  corrected :
      {v w : Sale}
      → v.status ≡ completed
      → w.status ≢ completed
      → w.delivery_status ≡ v.delivery_status
      → w.total ≡ v.total
      → Change v w

-- The sale that a request names.
abbrev pub target : Request → ℕ
target (deliver b i actor d c) = i
target (undo b i actor r now) = i

-- The row that a request writes, and what it did to the row.
pub data Written (q : Request) (s t : Session) : Type 0 where
  nothing : t.sales ≡ s.sales → Written q s t
  row :
      (b : ℕ) (old w : Sale)
      → find_sale b (target q) s.sales ≡ some old
      → w.id ≡ old.id
      → w.business_id ≡ old.business_id
      → Change old w
      → t.sales ≡ put_sale w s.sales
      → Written q s t

status_of-completed : (c : Correction) → status_of c ≢ completed
status_of-completed void e = absurd (cc)
status_of-completed refund e = absurd (cc)

correct-delivery_status :
    (c : Correction) (a reason : String) (now : ℕ) (v : Sale)
    → (correct c a reason now v).delivery_status ≡ v.delivery_status
unfolding correct
correct-delivery_status void a reason now v = refl
correct-delivery_status refund a reason now v = refl

Reassigned-rest :
    {b : ℕ} {s : Session} {old : Sale} {c : Option ℕ} {m : Sale}
    → Reassigned b s old c m
    → (m.status ≡ old.status) × (m.total ≡ old.total)
Reassigned-rest kept = (refl, refl)
Reassigned-rest (changed c k) = (refl, refl)

pub perform-Written : (q : Request) (s : Session) → Written q s (perform q s).1
unfolding perform
perform-Written (deliver b i actor d c) s = elim (Delivery.outcome b i actor d c s) [
  | Delivery.refused e q ↦ nothing (rw q refl)
  | Delivery.granted old m f del fits why fine q ↦
      let keys = Reassigned-keys why in
      let rest = Reassigned-rest why in
      row b old (Delivery.with_status d m) f keys.0 keys.1
        (moved d refl (is_allowed-Moves old.delivery_status d fits) rest.0 rest.1) (rw q refl)
]
perform-Written (undo b i actor r now) s = elim (Void.outcome b i actor r now s) [
  | Void.repeated old e q ↦ nothing (rw q refl)
  | Void.refused x e q ↦ nothing (rw q refl)
  | Void.granted old new f open_sale q ↦
      let marks = correct_marks r.new_status r.client_action_id r.reason now old in
      row b old (Void.corrected b i actor r now s old) f marks.0 marks.1
        (corrected (is_completed-elim old.status open_sale)
          (λ e. status_of-completed r.new_status (sym marks.2 ∙ e))
          (correct-delivery_status r.new_status r.client_action_id r.reason now old)
          (correct-total r.new_status r.client_action_id r.reason now old))
        (rw q refl)
]
