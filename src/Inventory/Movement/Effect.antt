-- ===== src/Inventory/Movement/Effect.antt =====
-- What a call of `record_movement` does to the stock, the ledger and the messages.
use foodo.Prelude.{
  ℕ, ◌≡◌, refl, inl, inr, Bool, true, false, ◌&&◌, Option, none, some, List, arith, ◌==◌,
  if◌then◌else◌, is_some, Bool-cases, Option-cases, ◌++◌, ◌∷◌, String,
}
use foodo.Inventory.Model.{Item, ActorType, Session}
use foodo.Inventory.Movement.{
  Move, apply_movement, record_movement, write_quantity, add_movement, add_processed,
  commit_and_publish, movement_of, is_repeat, messages_of,
}
use foodo.Inventory.Movement.Levels.{find_level, quantity_at-cons, quantity_at-set_level}
use foodo.Inventory.Movement.Outcome.{
  on_hand, with_level, new_quantity, levelled, recorded, finished,
}

module _ (i r : ℕ) (s : Session) where
  pub on_hand-with_level : (j q : ℕ) → on_hand j q (with_level i r s) ≡ on_hand j q s
  unfolding with_level
  on_hand-with_level j q = elim (Option-cases (find_level i r s.levels)) [
    | inl e ↦ ground (arith, quantity_at-cons j q i r s.levels)
    | inr (l, e) ↦ ground arith
  ]

  with_level-found : is_some (find_level i r (with_level i r s).levels) ≡ true
  unfolding with_level find_level
  with_level-found = ground arith

on_hand-levelled :
    (m : Move) (s : Session) (i j : ℕ)
    → on_hand i j (levelled m s)
      ≡ (if m.item_id == i && m.store_id == j then new_quantity m s else on_hand i j s)
unfolding write_quantity
on_hand-levelled m s i j = cc (
  quantity_at-set_level i j m.item_id m.store_id (new_quantity m s)
      (with_level m.item_id m.store_id s).levels (with_level-found m.item_id m.store_id s),
  on_hand-with_level m.item_id m.store_id s i j,
)

at-if :
    {A : Type 0} (b : Bool) (f : Session → Session) (s : Session) (g : Session → A)
    → g ((if b then f else λ t. t) s) ≡ (if b then g (f s) else g s)
at-if true f s g = refl
at-if false f s g = refl

-- Step 8 changes no row of the tables.
pub rows-finished :
    (m : Move) (item : Item) (actor : ActorType) (s : Session)
    → (finished m item actor s).rows ≡ (recorded m item actor s).rows
unfolding commit_and_publish
rows-finished m item actor s = elim (Bool-cases m.commit) [ inl e ↦ rw e | inr e ↦ rw e ]

pub rows-add_processed :
    (e : Option String) (s : Session)
    → ((add_processed e s).levels ≡ s.levels)
      × ((add_processed e s).movements ≡ s.movements)
      × ((add_processed e s).items ≡ s.items)
      × ((add_processed e s).committed ≡ s.committed)
      × ((add_processed e s).outbox ≡ s.outbox)
unfolding add_processed
rows-add_processed none s = (refl, refl, refl, refl, refl)
rows-add_processed (some e) s = (refl, refl, refl, refl, refl)

abbrev pub with_event : Option String → List String → List String
with_event none es = es
with_event (some e) es = e ∷ es

pub processed-add_processed :
    (e : Option String) (s : Session) → (add_processed e s).processed ≡ with_event e s.processed
unfolding add_processed
processed-add_processed none s = refl
processed-add_processed (some e) s = refl

-- The levels after all steps are those of Step 5.
pub on_hand-finished :
    (m : Move) (item : Item) (actor : ActorType) (s : Session) (i j : ℕ)
    → on_hand i j (finished m item actor s)
      ≡ (if m.item_id == i && m.store_id == j then new_quantity m s else on_hand i j s)
unfolding add_movement
on_hand-finished m item actor s i j = cc (
  rows-finished m item actor s,
  (rows-add_processed m.event_id (add_movement (movement_of m item actor) (levelled m s))).0,
  on_hand-levelled m s i j,
)

-- Steps 3 and 5 write nothing but levels.
pub rest-with_level :
    (i r : ℕ) (s : Session)
    → ((with_level i r s).movements ≡ s.movements)
      × ((with_level i r s).items ≡ s.items)
      × ((with_level i r s).processed ≡ s.processed)
      × ((with_level i r s).committed ≡ s.committed)
      × ((with_level i r s).outbox ≡ s.outbox)
unfolding with_level
rest-with_level i r s = elim (Bool-cases (is_some (find_level i r s.levels))) [
  | inl e ↦ rw e (refl, refl, refl, refl, refl)
  | inr e ↦ rw e (refl, refl, refl, refl, refl)
]

pub rest-levelled :
    (m : Move) (s : Session)
    → ((levelled m s).movements ≡ s.movements)
      × ((levelled m s).items ≡ s.items)
      × ((levelled m s).processed ≡ s.processed)
      × ((levelled m s).committed ≡ s.committed)
      × ((levelled m s).outbox ≡ s.outbox)
unfolding write_quantity
rest-levelled m s = rest-with_level m.item_id m.store_id s

module _ (m : Move) (item : Item) (actor : ActorType) (s : Session) where
  abbrev moved : Session
  moved = add_movement (movement_of m item actor) (levelled m s)

  pub movements-finished :
      (finished m item actor s).movements ≡ movement_of m item actor ∷ s.movements
  unfolding add_movement
  movements-finished =
      cc (
        rows-finished m item actor s,
        (rows-add_processed m.event_id moved).1,
        (rest-levelled m s).0,
      )

  pub items-finished : (finished m item actor s).items ≡ s.items
  unfolding add_movement
  items-finished =
      cc (
        rows-finished m item actor s,
        (rows-add_processed m.event_id moved).2,
        (rest-levelled m s).1,
      )

  -- The processed events after the call: those before, and the call's own.
  pub processed-finished :
      (finished m item actor s).processed ≡ (add_processed m.event_id s).processed
  unfolding add_movement
  processed-finished = cc (
    rows-finished m item actor s,
    processed-add_processed m.event_id moved,
    processed-add_processed m.event_id s,
    (rest-levelled m s).2,
  )

  pub committed-finished :
      (finished m item actor s).committed
      ≡ (if m.commit then (recorded m item actor s).rows else s.committed)
  unfolding commit_and_publish add_movement
  committed-finished = cc (
    at-if m.commit (commit_and_publish m item (on_hand m.item_id m.store_id s) (new_quantity m s))
        (recorded m item actor s) (λ t. t.committed),
    (rows-add_processed m.event_id moved).3,
    (rest-levelled m s).3,
  )

  -- The messages are published at the commit, behind those that were published before.
  pub outbox-finished : (finished m item actor s).outbox ≡ (
      if m.commit
      then s.outbox ++ messages_of m item (on_hand m.item_id m.store_id s) (new_quantity m s)
      else s.outbox)
  unfolding commit_and_publish add_movement
  outbox-finished = cc (
    at-if m.commit (commit_and_publish m item (on_hand m.item_id m.store_id s) (new_quantity m s))
        (recorded m item actor s) (λ t. t.outbox),
    (rows-add_processed m.event_id moved).4,
    (rest-levelled m s).4,
  )

pub record_movement_fresh :
    (m : Move) (s : Session)
    → is_repeat m.event_id s.processed ≡ false
    → record_movement m s ≡ apply_movement m s
unfolding record_movement
record_movement_fresh m s h = rw h
