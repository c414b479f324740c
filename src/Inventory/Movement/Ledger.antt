-- ===== src/Inventory/Movement/Ledger.antt =====
-- The stock level against the ledger of movements, and the sign of the stock.
use foodo.Prelude.{
  ℕ, ℤ, pos, ◌+ℤ◌, ◌≤ℤ◌, ◌≡◌, inl, inr, true, false, ◌&&◌, some, List, [], ◌∷◌, arith, ◌==◌,
  if◌then◌else◌, is_some, Bool-cases,
}
use foodo.Inventory.Model.{Item, StockMovement, Tables, Session}
use foodo.Inventory.Movement.{
  Move, apply_movement, record_movement, find_item, would_go_negative, actor_of, is_repeat,
}
use foodo.Inventory.Movement.Levels.{quantity_at}
use foodo.Inventory.Movement.Outcome.{
  on_hand, Outcome, outcome, unknown_item, mismatch, insufficient, bad_actor, done,
}
use foodo.Inventory.Movement.Effect.{
  on_hand-with_level, rest-with_level, on_hand-finished, items-finished,
}

-- The sum of the movements of an item at a store.
unfoldable pub ledger_sum : ℕ → ℕ → List StockMovement → ℤ
ledger_sum i j [] = pos 0
ledger_sum i j (v ∷ vs) =
    if v.item_id == i && v.store_id == j
    then ledger_sum i j vs +ℤ v.quantity_delta
    else ledger_sum i j vs

-- Every stock level is the sum of its movements.
abbrev pub IsBalanced : Tables → Type 0
IsBalanced t = (i j : ℕ) → quantity_at i j t.levels ≡ ledger_sum i j t.movements

-- Both what the session sees and what was committed last agree with the ledger.
pub record IsKept (s : Session) : Type 0 where
  pub rows : IsBalanced s.rows
  pub committed : IsBalanced s.committed

-- No item without `allow_negative_stock` has negative stock.
abbrev pub IsStocked : Session → Type 0
IsStocked s =
    (i j : ℕ) (item : Item)
    → find_item i s.items ≡ some item
    → item.allow_negative_stock ≡ false
    → pos 0 ≤ℤ on_hand i j s

apply_movement-IsStocked :
    (m : Move) (s : Session)
    → m.skip_negative_check ≡ false
    → is_some (actor_of m.actor_type) ≡ true
    → IsStocked s
    → Outcome m s
    → IsStocked (apply_movement m s).1
unfolding would_go_negative
apply_movement-IsStocked m s checked known k (unknown_item _ e) = rw e k
apply_movement-IsStocked m s checked known k (mismatch _ _ _ _ e) = rw e k
apply_movement-IsStocked m s checked known k (insufficient _ _ _ _ e) = rw e λ i j x found strict.
    ground (
      arith,
      on_hand-with_level m.item_id m.store_id s i j,
      rest-with_level m.item_id m.store_id s,
      k i j x,
    )
apply_movement-IsStocked m s checked known k (bad_actor _ _ _ a _) = absurd (ground arith)
apply_movement-IsStocked m s checked known k (done item actor f _ safe _ e) =
    rw e λ i j x found strict.
      ground (arith, on_hand-finished m item actor s i j, items-finished m item actor s, k i j x)

-- With the check on, no movement by a known kind of actor, accepted or refused, drives the stock of an
-- item below zero, unless the item allows it.
pub record_movement-IsStocked :
    (m : Move) (s : Session)
    → m.skip_negative_check ≡ false
    → is_some (actor_of m.actor_type) ≡ true
    → IsStocked s
    → IsStocked (record_movement m s).1
unfolding record_movement
record_movement-IsStocked m s checked known k =
    elim (Bool-cases (is_repeat m.event_id s.processed)) [
      | inl e ↦ rw e k
      | inr e ↦ rw e (apply_movement-IsStocked m s checked known k (outcome m s))
    ]
