-- ===== src/Inventory/Legs/Effect.antt =====
-- What a list of movements without a commit of their own does.
use mathlib.Core.Path.{subst}
use foodo.Prelude.{
  ℕ, ℤ, pos, ◌+ℤ◌, ◌≡◌, refl, sym, ap, ◌∙◌, ◌⊎◌, inl, inr, Bool, true, false, none, some, List, [],
  ◌∷◌, ◌++◌, ◌&&◌, ◌==◌, if◌then◌else◌, ok, err, arith, int_laws, +ℤ_assoc, +ℤ_zero, zero_+ℤ,
}
use foodo.Inventory.Model.{Item, ActorType, Session}
use foodo.Inventory.Rules.{MoveError}
use foodo.Inventory.Movement.{
  Move, record_movement, apply_movement, find_item, is_repeat, movement_of,
}
use foodo.Inventory.Movement.Outcome.{
  Outcome, outcome, unknown_item, mismatch, insufficient, bad_actor, done, on_hand, new_quantity,
  finished,
}
use foodo.Inventory.Movement.Effect.{
  on_hand-finished, items-finished, committed-finished, outbox-finished, record_movement_fresh,
}

-- No event id and no commit.
pub record IsQuiet (m : Move) : Type 0 where
  pub no_event : m.event_id ≡ none
  pub no_commit : m.commit ≡ false

abbrev pub AllQuiet : List Move → Type 0
AllQuiet [] = Unit
AllQuiet (m ∷ ms) = IsQuiet m × AllQuiet ms

-- The sum of the movements of an item at a store.
abbrev pub net : ℕ → ℕ → List Move → ℤ
net i j [] = pos 0
net i j (m ∷ ms) =
    (if m.item_id == i && m.store_id == j then m.quantity_delta else pos 0) +ℤ net i j ms

-- Only stock levels and the ledger change, the levels by the movements.
pub record IsMoved (ms : List Move) (s t : Session) : Type 0 where
  pub levels : (i j : ℕ) → on_hand i j t ≡ on_hand i j s +ℤ net i j ms
  pub items : t.items ≡ s.items
  pub committed : t.committed ≡ s.committed
  pub outbox : t.outbox ≡ s.outbox

-- An item of the table for each movement.
abbrev pub AllFound : List Move → List Item → Type 0
AllFound [] items = Unit
AllFound (m ∷ ms) items =
    ((item : Item) × (find_item m.item_id items ≡ some item)) × AllFound ms items

pub record_quiet : (m : Move) (s : Session) → IsQuiet m → record_movement m s ≡ apply_movement m s
unfolding is_repeat
record_quiet m s q = record_movement_fresh m s (rw q.no_event)

step_net :
    (b : Bool) (a d n : ℤ) → (if b then a +ℤ d else a) +ℤ n ≡ a +ℤ ((if b then d else pos 0) +ℤ n)
step_net true a d n = +ℤ_assoc a d n
step_net false a d n = omega int_laws

-- The item and the store of the test are those of the movement.
same_level :
    (m : Move) (s : Session) (i j : ℕ)
    → (if m.item_id == i && m.store_id == j then new_quantity m s else on_hand i j s) ≡ (
        if m.item_id == i && m.store_id == j
        then on_hand i j s +ℤ m.quantity_delta
        else on_hand i j s)
same_level m s i j = ground arith

pub finished-IsMoved :
    (m : Move) (item : Item) (actor : ActorType) (s : Session)
    → IsQuiet m
    → (ms : List Move) (t : Session) → IsMoved ms (finished m item actor s) t
    → IsMoved (m ∷ ms) s t
finished-IsMoved m item actor s q ms t h = record {
  levels = λ i j.
      h.levels i j
      ∙ ap (λ x. x +ℤ net i j ms) (on_hand-finished m item actor s i j ∙ same_level m s i j)
      ∙ step_net (m.item_id == i && m.store_id == j) (on_hand i j s) m.quantity_delta (net i j ms);
  items = h.items ∙ items-finished m item actor s;
  committed = h.committed ∙ committed-finished m item actor s ∙ rw q.no_commit;
  outbox = h.outbox ∙ outbox-finished m item actor s ∙ rw q.no_commit;
}

pub unmoved-IsMoved : (s : Session) → IsMoved [] s s
unmoved-IsMoved s = record {
  levels = λ i j. sym (+ℤ_zero (on_hand i j s));
  items = refl;
  committed = refl;
  outbox = refl;
}

-- A step that succeeded: the state it leaves.
pub quiet_step :
    (m : Move) (s : Session)
    → IsQuiet m
    → (((e : MoveError) × ((record_movement m s).0 ≡ err e))
        ⊎ ((item : Item) × (actor : ActorType) × (find_item m.item_id s.items ≡ some item)
            × (record_movement m s
                ≡ (ok (some (movement_of m item actor)), finished m item actor s))))
quiet_step m s q =
    subst
      (λ x.
        (((e : MoveError) × (x.0 ≡ err e))
          ⊎ ((item : Item) × (actor : ActorType) × (find_item m.item_id s.items ≡ some item)
              × (x ≡ (ok (some (movement_of m item actor)), finished m item actor s)))))
      (sym (record_quiet m s q)) (step (outcome m s))
  where
    step :
        Outcome m s
        → ((e : MoveError) × ((apply_movement m s).0 ≡ err e))
          ⊎ ((item : Item) × (actor : ActorType) × (find_item m.item_id s.items ≡ some item)
              × (apply_movement m s
                  ≡ (ok (some (movement_of m item actor)), finished m item actor s)))
    step (unknown_item _ r) = inl (_, ap (λ x. x.0) r)
    step (mismatch _ _ e _ r) = inl (e, ap (λ x. x.0) r)
    step (insufficient _ _ _ _ r) = inl (_, ap (λ x. x.0) r)
    step (bad_actor _ _ _ _ r) = inl (_, ap (λ x. x.0) r)
    step (done i a f _ _ _ r) = inr (i, a, f, r)

-- Lists of movements, joined.
pub AllQuiet-append : (xs ys : List Move) → AllQuiet xs → AllQuiet ys → AllQuiet (xs ++ ys)
AllQuiet-append [] ys p q = q
AllQuiet-append (x ∷ xs) ys p q = (p.0, AllQuiet-append xs ys p.1 q)

pub net-append : (i j : ℕ) (xs ys : List Move) → net i j (xs ++ ys) ≡ net i j xs +ℤ net i j ys
net-append i j [] ys = sym (zero_+ℤ (net i j ys))
net-append i j (x ∷ xs) ys =
    ap (λ n. (if x.item_id == i && x.store_id == j then x.quantity_delta else pos 0) +ℤ n)
      (net-append i j xs ys)
    ∙ sym (
        +ℤ_assoc (if x.item_id == i && x.store_id == j then x.quantity_delta else pos 0)
          (net i j xs) (net i j ys))
