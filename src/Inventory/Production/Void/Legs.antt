-- ===== src/Inventory/Production/Void/Legs.antt =====
-- The legs of an undoing.
use Prim.Native.Char.{Char}
use foodo.Prelude.{
  ℕ, ℤ, pos, ◌+ℤ◌, ◌-ℤ◌, String, Bool, ◌≡◌, refl, true, false, ◌&&◌, Option, none, some, List, [],
  ◌∷◌, map, ◌==◌, if◌then◌else◌, arith, int_laws, +ℤ_zero, ap, ◌∙◌, Bool-cases, inl, inr,
}
use foodo.Inventory.Model.{MovementType, production_reversal, ActorType}
use foodo.Inventory.Rules.{validate_correction}
use foodo.Inventory.Movement.{Move, actor_of}
use foodo.Inventory.Legs.Effect.{IsQuiet, AllQuiet, AllQuiet-append, net, net-append}
use foodo.Inventory.Legs.Run.{IsFree, AllFree, AllFree-append}
use foodo.Inventory.Production.{ProductionEvent, ProductionEventComponent, leg_of}
use foodo.Inventory.Production.Void.{VoidRequest, acting, reversal_legs}

pub leg-IsQuiet :
    (e : ProductionEvent) (i : ℕ) (d : ℤ) (t : MovementType) (a : String) (n : Option ℕ)
    (r : String) (b : Bool) (c : Option ℤ)
    → IsQuiet (leg_of e i d t a n r b c)
unfolding leg_of
leg-IsQuiet e i d t a n r b c = record { no_event = refl; no_commit = refl }

-- The loop over `used`.
abbrev pub back_legs :
    ProductionEvent → String → Option ℕ → String → List ProductionEventComponent → List Move
back_legs e a n r used =
    map
      (λ c. leg_of e c.raw_material_item_id c.quantity_consumed production_reversal a n r true none)
      used

back-AllQuiet :
    (e : ProductionEvent) (a : String) (n : Option ℕ) (r : String)
    (used : List ProductionEventComponent)
    → AllQuiet (back_legs e a n r used)
back-AllQuiet e a n r [] = tt
back-AllQuiet e a n r (c ∷ cs) = (leg-IsQuiet e _ _ _ a n r true none, back-AllQuiet e a n r cs)

reversal-IsFree :
    (e : ProductionEvent) (i : ℕ) (d : ℤ) (a : String) (n : Option ℕ) (r : String)
    (actor : ActorType)
    → actor_of a ≡ some actor
    → IsFree (leg_of e i d production_reversal a n r true none)
unfolding leg_of
reversal-IsFree e i d a n r actor h = record {
  no_check = refl;
  allowed = λ x. validate_correction x.item_type (λ p. ground arith) (λ p. ground arith);
  actor = actor;
  actor_known = h;
}

back-AllFree :
    (e : ProductionEvent) (a : String) (n : Option ℕ) (r : String)
    (used : List ProductionEventComponent) (actor : ActorType)
    → actor_of a ≡ some actor
    → AllFree (back_legs e a n r used)
back-AllFree e a n r [] actor h = tt
back-AllFree e a n r (c ∷ cs) actor h =
    (reversal-IsFree e _ _ a n r actor h, back-AllFree e a n r cs actor h)

-- What the components of an item sum up to.
abbrev pub put_back : ℕ → List ProductionEventComponent → ℤ
put_back a [] = pos 0
put_back a (c ∷ cs) =
    (if c.raw_material_item_id == a then c.quantity_consumed else pos 0) +ℤ put_back a cs

at_store :
    (p b : Bool) (q n : ℤ)
    → (if p && b then q else pos 0) +ℤ (if b then n else pos 0)
      ≡ (if b then (if p then q else pos 0) +ℤ n else pos 0)
at_store true true q n = refl
at_store false true q n = refl
at_store true false q n = +ℤ_zero (pos 0)
at_store false false q n = +ℤ_zero (pos 0)

take_away :
    (p b : Bool) (n q : ℤ)
    → (if b then n else pos 0) +ℤ ((if p && b then pos 0 -ℤ q else pos 0) +ℤ pos 0)
      ≡ (if b then n -ℤ (if p then q else pos 0) else pos 0)
take_away true true n q = omega int_laws
take_away false true n q = omega int_laws
take_away true false n q = omega int_laws
take_away false false n q = omega int_laws

net-back :
    (a j : ℕ) (e : ProductionEvent) (t : String) (n : Option ℕ) (r : String)
    (used : List ProductionEventComponent)
    → net a j (back_legs e t n r used) ≡ (if e.store_id == j then put_back a used else pos 0)
unfolding leg_of
net-back a j e t n r [] = elim (Bool-cases (e.store_id == j)) [
  | inl p ↦ ground arith
  | inr p ↦ ground arith
]
net-back a j e t n r (c ∷ cs) =
    ap
      (λ x.
        (if c.raw_material_item_id == a && e.store_id == j then c.quantity_consumed else pos 0)
        +ℤ x)
      (net-back a j e t n r cs)
    ∙ at_store (c.raw_material_item_id == a) (e.store_id == j) c.quantity_consumed (put_back a cs)

module _ (uuid_text : ℕ → String) (is_space : Char → Bool) (v : VoidRequest) (e : ProductionEvent)
    (name : String) (i : ℕ) (used : List ProductionEventComponent) where
  pub reversal-AllQuiet : AllQuiet (reversal_legs uuid_text is_space v e name i used)
  unfolding reversal_legs
  reversal-AllQuiet =
      AllQuiet-append _ _ (back-AllQuiet (acting v e) v.actor_type v.actor_id _ used)
        (leg-IsQuiet (acting v e) _ _ _ _ _ _ _ _, tt)

  pub reversal-AllFree :
      (actor : ActorType)
      → actor_of v.actor_type ≡ some actor
      → AllFree (reversal_legs uuid_text is_space v e name i used)
  unfolding reversal_legs
  reversal-AllFree actor h =
      AllFree-append _ _ (back-AllFree (acting v e) v.actor_type v.actor_id _ used actor h)
        (reversal-IsFree (acting v e) _ _ _ _ _ actor h, tt)

  abbrev pub on_void : ℕ → ℕ → ℤ
  on_void a j =
      if e.store_id == j
      then put_back a used -ℤ (if i == a then e.actual_output_quantity else pos 0)
      else pos 0

  pub net-reversal_legs :
      (a j : ℕ) → net a j (reversal_legs uuid_text is_space v e name i used) ≡ on_void a j
  unfolding reversal_legs leg_of
  net-reversal_legs a j =
      net-append a j (back_legs (acting v e) v.actor_type v.actor_id _ used) _
      ∙ ap
          (λ n.
            n
            +ℤ ((if i == a && e.store_id == j then pos 0 -ℤ e.actual_output_quantity else pos 0)
                +ℤ pos 0))
          (net-back a j (acting v e) v.actor_type v.actor_id _ used)
      ∙ take_away (i == a) (e.store_id == j) (put_back a used) e.actual_output_quantity
