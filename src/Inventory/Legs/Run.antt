-- ===== src/Inventory/Legs/Run.antt =====
-- When a list of movements without a commit of their own succeeds, and what it leaves.
use mathlib.Core.Path.{subst}
use foodo.Prelude.{
  ◌≡◌, refl, sym, ◌∙◌, ◌⊎◌, inl, inr, true, some, List, [], ◌∷◌, ◌++◌, Result, ok, err, arith,
}
use foodo.Inventory.Model.{Item, ActorType, Session}
use foodo.Inventory.Rules.{MoveError, validate_item_type}
use foodo.Inventory.Movement.{
  Move, record_movement, find_item, actor_of, movement_of, would_go_negative,
}
use foodo.Inventory.Movement.Outcome.{
  Outcome, outcome, unknown_item, mismatch, insufficient, bad_actor, done, finished,
}
use foodo.Inventory.Movement.Effect.{items-finished, committed-finished, outbox-finished}
use foodo.Inventory.Movement.Refusal.{record_movement-IsUntouched}
use foodo.Inventory.Legs.{perform_legs}
use foodo.Inventory.Legs.Effect.{
  record_quiet, IsQuiet, AllQuiet, IsMoved, AllFound, quiet_step, finished-IsMoved, unmoved-IsMoved,
}

pub perform_legs-cases :
    (ms : List Move) (s : Session)
    → ((perform_legs ms s).0 ≡ ok tt) ⊎ ((x : MoveError) × ((perform_legs ms s).0 ≡ err x))
perform_legs-cases ms s = go (perform_legs ms s).0
  where
    go : (r : Result MoveError (Unit {0})) → (r ≡ ok tt) ⊎ ((x : MoveError) × (r ≡ err x))
    go (ok tt) = inl refl
    go (err x) = inr (x, refl)

pub perform_legs-IsMoved :
    (ms : List Move) (s : Session)
    → AllQuiet ms
    → (perform_legs ms s).0 ≡ ok tt
    → IsMoved ms s (perform_legs ms s).1 × AllFound ms s.items
unfolding perform_legs
perform_legs-IsMoved [] s q h = (unmoved-IsMoved s, tt)
perform_legs-IsMoved (m ∷ ms) s q h = elim (quiet_step m s q.0) [
  | inl (e, r) ↦ absurd (cc)
  | inr (i, a, f, r) ↦
      let rest = perform_legs-IsMoved ms (finished m i a s) q.1 (rw r at h) in
      rw r (
        finished-IsMoved m i a s q.0 ms _ rest.0,
        ((i, f), subst (AllFound ms) (items-finished m i a s) rest.1),
      )
]

-- Whatever happens, the last commit and the messages stay, and the items.
pub perform_legs-keeps :
    (ms : List Move) (s : Session)
    → AllQuiet ms
    → ((perform_legs ms s).1.committed ≡ s.committed) × ((perform_legs ms s).1.outbox ≡ s.outbox)
unfolding perform_legs
perform_legs-keeps [] s q = (refl, refl)
perform_legs-keeps (m ∷ ms) s q = elim (quiet_step m s q.0) [
  | inl (e, r) ↦ let u = record_movement-IsUntouched m s e r in rw r (u.committed, u.outbox)
  | inr (i, a, f, r) ↦
      let rest = perform_legs-keeps ms (finished m i a s) q.1 in
      rw r (
        rest.0 ∙ committed-finished m i a s ∙ rw q.0.no_commit,
        rest.1 ∙ outbox-finished m i a s ∙ rw q.0.no_commit,
      )
]

-- A leg that no rule can refuse.
pub record IsFree (m : Move) : Type 0 where
  pub no_check : m.skip_negative_check ≡ true
  pub allowed : (i : Item) → validate_item_type i.item_type m.movement_type ≡ ok tt
  pub actor : ActorType
  pub actor_known : actor_of m.actor_type ≡ some actor

abbrev pub AllFree : List Move → Type 0
AllFree [] = Unit
AllFree (m ∷ ms) = IsFree m × AllFree ms

free_step :
    (m : Move) (s : Session)
    → IsQuiet m
    → IsFree m
    → (item : Item) → find_item m.item_id s.items ≡ some item
    → (i : Item) × (a : ActorType) × (record_movement m s
        ≡ (ok (some (movement_of m i a)), finished m i a s))
unfolding would_go_negative
free_step m s q w item found = go (outcome m s)
  where
    go :
        Outcome m s
        → (i : Item) × (a : ActorType) × (record_movement m s
            ≡ (ok (some (movement_of m i a)), finished m i a s))
    go (unknown_item f _) = absurd (cc)
    go (mismatch i f e v _) = absurd (cc (w.allowed i))
    go (insufficient i f v n _) = absurd (ground (arith, w.no_check))
    go (bad_actor i f n b _) = absurd (cc (w.actor_known))
    go (done i a f _ _ _ r) = (i, a, record_quiet m s q ∙ r)

pub AllFree-append : (xs ys : List Move) → AllFree xs → AllFree ys → AllFree (xs ++ ys)
AllFree-append [] ys p q = q
AllFree-append (x ∷ xs) ys p q = (p.0, AllFree-append xs ys p.1 q)

-- Legs that no rule can refuse succeed when their items are there.
pub perform_legs_free :
    (ms : List Move) (s : Session)
    → AllQuiet ms
    → AllFree ms
    → AllFound ms s.items
    → (perform_legs ms s).0 ≡ ok tt
unfolding perform_legs
perform_legs_free [] s q a f = refl
perform_legs_free (m ∷ ms) s q a f =
    let (i, b, r) = free_step m s q.0 a.0 f.0.0 f.0.1 in
    rw r (
      perform_legs_free ms (finished m i b s) q.1 a.1
        (subst (AllFound ms) (sym (items-finished m i b s)) f.1))
