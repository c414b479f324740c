-- ===== src/Pos/Delivery/Lifecycle.antt =====
-- The deliveries as a state machine.
use foodo.Prelude.{
  ℕ, ◌<◌, ◌≡◌, ◌≢◌, refl, sym, ◌∙◌, ◌⊎◌, inl, inr, true, false, Option, none, some, [], ◌∷◌, ◌++◌,
  arith, ok,
}
use foodo.Pos.Model.{
  Sale, Session, DeliveryStatus, pending, assigned, out_for_delivery, delivered, failed, OrderType,
  delivery, dine_in, takeaway, delivery_status_changed,
}
use foodo.Pos.Delivery.{
  delivery_transitions, place, is_allowed, is_delivery, find_sale, needs_courier,
  update_delivery_status,
}
use foodo.Pos.Delivery.Rows.{
  UniqueIds, find_sale-keys, find_sale-put_sale, IsOnlyAt, IsOnlyAt-put_sale,
}
use foodo.Pos.Delivery.Outcome.{
  IsSendable, Reassigned, kept, changed, outcome, refused, granted, with_status,
}

-- The moves of a delivery.
pub data Moves : Option DeliveryStatus → DeliveryStatus → Type 0 where
  assign : Moves (some pending) assigned
  depart : Moves (some assigned) out_for_delivery
  arrive : Moves (some out_for_delivery) delivered
  fail_pending : Moves (some pending) failed
  fail_assigned : Moves (some assigned) failed
  fail_out : Moves (some out_for_delivery) failed

-- How many moves a delivery can still make.
abbrev pub remaining : Option DeliveryStatus → ℕ
remaining none = 0
remaining (some pending) = 3
remaining (some assigned) = 2
remaining (some out_for_delivery) = 1
remaining (some delivered) = 0
remaining (some failed) = 0

pub is_allowed-Moves :
    (o : Option DeliveryStatus) (d : DeliveryStatus)
    → is_allowed d (delivery_transitions o) ≡ true
    → Moves o d
unfolding is_allowed delivery_transitions place
is_allowed-Moves none d e = absurd (cc)
is_allowed-Moves (some pending) pending e = absurd (cc)
is_allowed-Moves (some pending) assigned e = assign
is_allowed-Moves (some pending) out_for_delivery e = absurd (cc)
is_allowed-Moves (some pending) delivered e = absurd (cc)
is_allowed-Moves (some pending) failed e = fail_pending
is_allowed-Moves (some assigned) pending e = absurd (cc)
is_allowed-Moves (some assigned) assigned e = absurd (cc)
is_allowed-Moves (some assigned) out_for_delivery e = depart
is_allowed-Moves (some assigned) delivered e = absurd (cc)
is_allowed-Moves (some assigned) failed e = fail_assigned
is_allowed-Moves (some out_for_delivery) pending e = absurd (cc)
is_allowed-Moves (some out_for_delivery) assigned e = absurd (cc)
is_allowed-Moves (some out_for_delivery) out_for_delivery e = absurd (cc)
is_allowed-Moves (some out_for_delivery) delivered e = arrive
is_allowed-Moves (some out_for_delivery) failed e = fail_out
is_allowed-Moves (some delivered) d e = absurd (cc)
is_allowed-Moves (some failed) d e = absurd (cc)

pub Moves-remaining :
    {o : Option DeliveryStatus} {d : DeliveryStatus} → Moves o d → remaining (some d) < remaining o
Moves-remaining assign = omega arith
Moves-remaining depart = omega arith
Moves-remaining arrive = omega arith
Moves-remaining fail_pending = omega arith
Moves-remaining fail_assigned = omega arith
Moves-remaining fail_out = omega arith

is_delivery-elim : (o : OrderType) → is_delivery o ≡ true → o ≡ delivery
unfolding is_delivery
is_delivery-elim dine_in e = absurd (cc)
is_delivery-elim takeaway e = absurd (cc)
is_delivery-elim delivery e = refl

needs_courier-assigned :
    (d : DeliveryStatus) (c : Option ℕ) → needs_courier d c ≡ false → (d ≢ assigned) ⊎ (c ≢ none)
unfolding needs_courier place
needs_courier-assigned pending c e = inl (λ a. cc)
needs_courier-assigned assigned none e = absurd (cc)
needs_courier-assigned assigned (some c) e = inr (λ a. cc)
needs_courier-assigned out_for_delivery c e = inl (λ a. cc)
needs_courier-assigned delivered c e = inl (λ a. cc)
needs_courier-assigned failed c e = inl (λ a. cc)

module _ {b : ℕ} {s : Session} {old : Sale} where
  pub Reassigned-keys :
      {c : Option ℕ} {moved : Sale}
      → Reassigned b s old c moved
      → (moved.id ≡ old.id) × (moved.business_id ≡ old.business_id)
  Reassigned-keys kept = (refl, refl)
  Reassigned-keys (changed c k) = (refl, refl)

  Reassigned-rest :
      {c : Option ℕ} {moved : Sale} (d : DeliveryStatus)
      → Reassigned b s old c moved
      → record (with_status d moved) {
        courier_id = old.courier_id;
        delivery_status = old.delivery_status;
      }
        ≡ old
  Reassigned-rest d kept = refl
  Reassigned-rest d (changed c k) = refl

  Reassigned-courier :
      {c : Option ℕ} {moved : Sale}
      → Reassigned b s old c moved
      → ((c ≡ none) × (moved.courier_id ≡ old.courier_id))
        ⊎ ((i : ℕ) × (c ≡ some i) × (moved.courier_id ≡ some i) × IsSendable b i s)
  Reassigned-courier kept = inl (refl, refl)
  Reassigned-courier (changed c k) = inr (c, refl, refl, k)

-- What a granted request says of the sale that it returns, and of the session after it. With its old
-- courier and its old status the sale is the old one.
abbrev pub IsMoved :
    ℕ → ℕ → Option ℕ → DeliveryStatus → Option ℕ → Session → Sale → Session → Type 0
IsMoved business_id sale_id actor_id new_status courier_id s v t =
    ((old : Sale) × (find_sale business_id sale_id s.sales ≡ some old)
      × (old.order_type ≡ delivery)
      × Moves old.delivery_status new_status
      × (record v { courier_id = old.courier_id; delivery_status = old.delivery_status } ≡ old)
      × (((courier_id ≡ none) × (v.courier_id ≡ old.courier_id))
          ⊎ ((c : ℕ) × (courier_id ≡ some c)
              × (v.courier_id ≡ some c)
              × IsSendable business_id c s)))
    × (v.delivery_status ≡ some new_status)
    × ((new_status ≢ assigned) ⊎ (v.courier_id ≢ none))
    × (find_sale business_id sale_id t.sales ≡ some v)
    × (t.committed ≡ t.rows)
    × (t.outbox ≡ s.outbox ++ delivery_status_changed v new_status actor_id ∷ [])
    × IsOnlyAt sale_id s.rows t.rows

module _ (business_id sale_id : ℕ) (actor_id : Option ℕ) (new_status : DeliveryStatus)
    (courier_id : Option ℕ) (s : Session) where
  -- In a table of sales with different ids, a request that is granted found a delivery of the
  -- business, made one of its moves, and the sale it returns has the new status and, when the request named a courier, that courier, who is the
  -- business's own and active; a sale that is now assigned has a courier. But for its status and its
  -- courier the sale is as it was. It stands in the table in its place, every other sale and the
  -- other tables are as before, all is committed, and exactly the change was published.
  pub update_delivery_status_effect :
      (v : Sale)
      → UniqueIds s.sales
      → (update_delivery_status business_id sale_id actor_id new_status courier_id s).0 ≡ ok v
      → IsMoved business_id sale_id actor_id new_status courier_id s v
          (update_delivery_status business_id sale_id actor_id new_status courier_id s).1
  update_delivery_status_effect v u h =
      elim (outcome business_id sale_id actor_id new_status courier_id s) [
        | refused y q ↦ absurd (cc)
        | granted old moved f del fits why fine q ↦
            let w = with_status new_status moved in
            let same : w ≡ v = cc in
            let keys = find_sale-keys business_id sale_id s.sales old f in
            let kept_keys = Reassigned-keys why in
            rw (sym same, q)
              (
                (
                  old,
                  f,
                  is_delivery-elim old.order_type del,
                  is_allowed-Moves old.delivery_status new_status fits,
                  Reassigned-rest new_status why,
                  Reassigned-courier why,
                ),
                refl,
                needs_courier-assigned new_status moved.courier_id fine,
                find_sale-put_sale business_id sale_id s.sales old w u f (kept_keys.0 ∙ keys.0)
                    (kept_keys.1 ∙ keys.1),
                refl,
                refl,
                IsOnlyAt-put_sale sale_id w s.rows u (kept_keys.0 ∙ keys.0),
              )
      ]
