-- ===== src/Pos/Delivery/Outcome.antt =====
-- The two ways in which `update_delivery_status` can end.
use foodo.Prelude.{
  ℕ, ◌≡◌, refl, inl, inr, ◌⊎◌, true, false, Option, none, some, arith, ok, err, Result, Bool-cases,
  Option-cases, ◌==◌,
}
use foodo.Pos.Model.{
  Sale, DeliveryStatus, Session, PosError, Courier, courier_unknown, courier_inactive,
  sale_not_found, not_a_delivery, cannot_move, courier_must_be_assigned, delivery_status_changed,
}
use foodo.Pos.Couriers.{find_courier, check_courier, validate_courier_for_sale}
use foodo.Pos.Delivery.{
  delivery_transitions, is_allowed, is_delivery, find_sale, reassign, needs_courier, publish,
  commit, flush_sale, update_delivery_status,
}

-- A courier that a business may send: there, its own, and active.
pub record IsSendable (business_id courier_id : ℕ) (s : Session) : Type 0 where
  pub courier : Courier
  pub found : find_courier courier_id s.couriers ≡ some courier
  pub own : courier.business_id ≡ business_id
  pub active : courier.is_active ≡ true

-- Why the sale has the courier that it has after the request.
pub data Reassigned (business_id : ℕ) (s : Session) (old : Sale) : Option ℕ → Sale → Type 0 where
  kept : Reassigned business_id s old none old
  changed :
      (c : ℕ)
      → IsSendable business_id c s
      → Reassigned business_id s old (some c) (record old { courier_id = some c })

check_courier-cases :
    (business_id : ℕ) (o : Option Courier) (s : Session)
    → ((c : Courier) × (o ≡ some c)
        × (c.business_id ≡ business_id)
        × (c.is_active ≡ true)
        × (check_courier business_id o s ≡ (ok c, s)))
      ⊎ ((e : PosError) × (check_courier business_id o s ≡ (err e, s)))
unfolding check_courier
check_courier-cases b none s = inr (_, refl)
check_courier-cases b (some c) s = elim (Bool-cases (c.business_id == b)) [
  | inl own ↦ elim (Bool-cases c.is_active) [
    | inl active ↦ inl (c, refl, ground arith, active, simp (own, active))
    | inr inactive ↦ inr (courier_inactive, simp (own, inactive))
  ]
  | inr foreign ↦ inr (courier_unknown, simp foreign)
]

reassign-cases :
    (business_id : ℕ) (c : Option ℕ) (old : Sale) (s : Session)
    → ((moved : Sale) × Reassigned business_id s old c moved
        × (reassign business_id c old s ≡ (ok moved, s)))
      ⊎ ((e : PosError) × (reassign business_id c old s ≡ (err e, s)))
unfolding reassign validate_courier_for_sale
reassign-cases b none old s = inl (old, kept, refl)
reassign-cases b (some c) old s = elim (check_courier-cases b (find_courier c s.couriers) s) [
  | inl (k, found, own, active, e) ↦ inl (
    record old { courier_id = some c },
    changed c (record { courier = k; found = found; own = own; active = active }),
    rw e,
  )
  | inr (x, e) ↦ inr (x, rw e)
]

abbrev pub with_status : DeliveryStatus → Sale → Sale
with_status d v = record v { delivery_status = some d }

module _ (business_id sale_id : ℕ) (actor_id : Option ℕ) (new_status : DeliveryStatus)
    (courier_id : Option ℕ) (s : Session) where
  abbrev request : Result PosError Sale × Session
  request = update_delivery_status business_id sale_id actor_id new_status courier_id s

  -- A request that is refused changes nothing; one that is granted has passed every guard.
  pub data Outcome : Type 0 where
    refused : (e : PosError) → request ≡ (err e, s) → Outcome
    granted :
        (old moved : Sale)
        → find_sale business_id sale_id s.sales ≡ some old
        → is_delivery old.order_type ≡ true
        → is_allowed new_status (delivery_transitions old.delivery_status) ≡ true
        → Reassigned business_id s old courier_id moved
        → needs_courier new_status moved.courier_id ≡ false
        → request ≡ (
          ok (with_status new_status moved),
          commit (
              publish
                (delivery_status_changed (with_status new_status moved) new_status actor_id)
                (flush_sale (with_status new_status moved) s)),
        )
        → Outcome

  module _ (old : Sale) (found : find_sale business_id sale_id s.sales ≡ some old)
      (is_del : is_delivery old.order_type ≡ true)
      (ok_move : is_allowed new_status (delivery_transitions old.delivery_status) ≡ true) where
    Outcome-allowed : Outcome
    unfolding update_delivery_status
    Outcome-allowed = elim (reassign-cases business_id courier_id old s) [
      | inl (moved, why, e) ↦ elim (Bool-cases (needs_courier new_status moved.courier_id)) [
        | inl missing ↦ refused courier_must_be_assigned (rw (found, is_del, ok_move, e, missing))
        | inr fine ↦
            granted old moved found is_del ok_move why fine (rw (found, is_del, ok_move, e, fine))
      ]
      | inr (x, e) ↦ refused x (rw (found, is_del, ok_move, e))
    ]

  Outcome-found : (old : Sale) → find_sale business_id sale_id s.sales ≡ some old → Outcome
  unfolding update_delivery_status
  Outcome-found old found = elim (Bool-cases (is_delivery old.order_type)) [
    | inl is_del ↦
        elim (Bool-cases (is_allowed new_status (delivery_transitions old.delivery_status))) [
          | inl fits ↦ Outcome-allowed old found is_del fits
          | inr stuck ↦
              refused (cannot_move old.delivery_status new_status) (rw (found, is_del, stuck))
        ]
    | inr served ↦ refused (not_a_delivery old.order_type) (rw (found, served))
  ]

  pub outcome : Outcome
  unfolding update_delivery_status
  outcome = elim (Option-cases (find_sale business_id sale_id s.sales)) [
    | inl e ↦ refused (sale_not_found sale_id) (rw e)
    | inr (old, e) ↦ Outcome-found old e
  ]
