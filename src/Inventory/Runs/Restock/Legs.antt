-- ===== src/Inventory/Runs/Restock/Legs.antt =====
-- The movements of a start and of a stop.
use Prim.Native.Char.{Char}
use mathlib.Core.Path.{subst}
use foodo.Prelude.{
  ℕ, ℤ, pos, ◌+ℤ◌, ◌-ℤ◌, +ℤ_zero, ◌≡◌, refl, ap, ◌∙◌, Bool, Bool-cases, inl, inr, true, false,
  Option, some, List, [], ◌∷◌, map, String, ◌==◌, ◌&&◌, ◌||◌, if◌then◌else◌, arith, int_laws,
}
use foodo.Inventory.Model.{Item, MovementType, production_input, production_reversal, user}
use foodo.Inventory.Rules.{validate_correction}
use foodo.Inventory.Movement.{Move, actor_of, find_item}
use foodo.Inventory.Legs.Effect.{AllQuiet, AllFound, net}
use foodo.Inventory.Legs.Run.{AllFree}
use foodo.Inventory.Production.{Recipe, ProductionRun, ProductionRunComponent}
use foodo.Inventory.Runs.{run_leg}
use foodo.Inventory.Runs.Start.{Amounts, has_amount, start_legs}
use foodo.Inventory.Runs.Cancel.{put_back_legs}
use foodo.Inventory.Runs.Restock.{total, noted, has_line}

-- A loop over amounts.
abbrev legs :
    ProductionRun → (ℤ → ℤ) → MovementType → Option ℕ → String → Bool → Amounts → List Move
legs run sign t n r b as' = map (λ a. run_leg run a.0 (sign a.1) t n r b) as'

legs-AllQuiet :
    (run : ProductionRun) (sign : ℤ → ℤ) (t : MovementType) (n : Option ℕ) (r : String) (b : Bool)
    (as' : Amounts)
    → AllQuiet (legs run sign t n r b as')
unfolding run_leg
legs-AllQuiet run sign t n r b [] = tt
legs-AllQuiet run sign t n r b (a ∷ as') =
    (record { no_event = refl; no_commit = refl }, legs-AllQuiet run sign t n r b as')

user-known : actor_of "user" ≡ some user
unfolding actor_of
user-known = refl

back-AllFree :
    (run : ProductionRun) (n : Option ℕ) (r : String) (as' : Amounts)
    → AllFree (legs run (λ q. q) production_reversal n r true as')
unfolding run_leg
back-AllFree run n r [] = tt
back-AllFree run n r (a ∷ as') = (
  record {
    no_check = refl;
    allowed = λ x. validate_correction x.item_type (λ p. ground arith) (λ p. ground arith);
    actor = user;
    actor_known = user-known;
  },
  back-AllFree run n r as',
)

-- The item of an amount whose movement found it.
legs-found :
    (run : ProductionRun) (sign : ℤ → ℤ) (t : MovementType) (n : Option ℕ) (r : String) (b : Bool)
    (as' : Amounts) (items : List Item)
    → AllFound (legs run sign t n r b as') items
    → (a : ℕ) → has_amount a as' ≡ true
    → (item : Item) × (find_item a items ≡ some item)
unfolding run_leg has_amount
legs-found run sign t n r b [] items f a h = absurd (cc)
legs-found run sign t n r b (x ∷ as') items f a h = elim (Bool-cases (x.0 == a)) [
  | inl p ↦
      let e : x.0 ≡ a = ground (arith, p) in
      subst (λ y. (item : Item) × (find_item y items ≡ some item)) e f.0
  | inr p ↦ legs-found run sign t n r b as' items f.1 a (right (x.0 == a) (has_amount a as') p h)
]
  where
    right : (c d : Bool) → c ≡ false → (c || d) ≡ true → d ≡ true
    right true d p q = absurd (cc)
    right false d p q = q

-- The movements that give back find their items where those of the start did.
back-AllFound :
    (run : ProductionRun) (n : Option ℕ) (r : String) (as' : Amounts) (items : List Item)
    (cs : List ProductionRunComponent)
    → ((a : ℕ) → has_line a cs ≡ true → (item : Item) × (find_item a items ≡ some item))
    → AllFound (legs run (λ q. q) production_reversal n r true (noted as' cs)) items
unfolding run_leg
back-AllFound run n r as' items [] f = tt
back-AllFound run n r as' items (c ∷ cs) f = (
  f c.raw_material_item_id (ground arith),
  back-AllFound run n r as' items cs (λ a h. f a (ground (arith, h))),
)

at_store :
    (p b : Bool) (q n : ℤ)
    → (if p && b then q else pos 0) +ℤ (if b then n else pos 0)
      ≡ (if b then (if p then q else pos 0) +ℤ n else pos 0)
at_store true true q n = refl
at_store false true q n = refl
at_store true false q n = +ℤ_zero (pos 0)
at_store false false q n = +ℤ_zero (pos 0)

taken_at_store :
    (p b : Bool) (q n : ℤ)
    → (if p && b then pos 0 -ℤ q else pos 0) +ℤ (if b then pos 0 -ℤ n else pos 0)
      ≡ (if b then pos 0 -ℤ ((if p then q else pos 0) +ℤ n) else pos 0)
taken_at_store true true q n = omega int_laws
taken_at_store false true q n = omega int_laws
taken_at_store true false q n = omega int_laws
taken_at_store false false q n = omega int_laws

nothing : (b : Bool) → pos 0 ≡ (if b then pos 0 -ℤ pos 0 else pos 0)
nothing true = omega int_laws
nothing false = refl

nothing_back : (b : Bool) → pos 0 ≡ (if b then pos 0 else pos 0)
nothing_back true = refl
nothing_back false = refl

net-back :
    (a j : ℕ) (run : ProductionRun) (n : Option ℕ) (r : String) (as' : Amounts)
    → net a j (legs run (λ q. q) production_reversal n r true as')
      ≡ (if run.store_id == j then total a as' else pos 0)
unfolding run_leg
net-back a j run n r [] = nothing_back (run.store_id == j)
net-back a j run n r (x ∷ as') =
    ap (λ y. (if x.0 == a && run.store_id == j then x.1 else pos 0) +ℤ y) (net-back a j run n r as')
    ∙ at_store (x.0 == a) (run.store_id == j) x.1 (total a as')

net-taken :
    (a j : ℕ) (run : ProductionRun) (n : Option ℕ) (r : String) (as' : Amounts)
    → net a j (legs run (λ q. pos 0 -ℤ q) production_input n r false as')
      ≡ (if run.store_id == j then pos 0 -ℤ total a as' else pos 0)
unfolding run_leg
net-taken a j run n r [] = nothing (run.store_id == j)
net-taken a j run n r (x ∷ as') =
    ap (λ y. (if x.0 == a && run.store_id == j then pos 0 -ℤ x.1 else pos 0) +ℤ y)
      (net-taken a j run n r as')
    ∙ taken_at_store (x.0 == a) (run.store_id == j) x.1 (total a as')

module _ (uuid_text : ℕ → String) (run : ProductionRun) (recipe : Recipe) (actor_id : Option ℕ)
    (as' : Amounts) where
  pub start_legs-AllQuiet : AllQuiet (start_legs uuid_text run recipe actor_id as')
  unfolding start_legs
  start_legs-AllQuiet = legs-AllQuiet run _ production_input actor_id _ false as'

  pub net-start_legs :
      (a j : ℕ)
      → net a j (start_legs uuid_text run recipe actor_id as')
        ≡ (if run.store_id == j then pos 0 -ℤ total a as' else pos 0)
  unfolding start_legs
  net-start_legs a j = net-taken a j run actor_id _ as'

  pub start_legs-found :
      (items : List Item)
      → AllFound (start_legs uuid_text run recipe actor_id as') items
      → (a : ℕ) → has_amount a as' ≡ true
      → (item : Item) × (find_item a items ≡ some item)
  unfolding start_legs
  start_legs-found items f =
      legs-found run (λ q. pos 0 -ℤ q) production_input actor_id _ false as' items f

module _ (uuid_text : ℕ → String) (is_space : Char → Bool) (run : ProductionRun)
    (actor_id : Option ℕ) (as' : Amounts) where
  pub put_back_legs-AllQuiet : AllQuiet (put_back_legs uuid_text is_space run actor_id as')
  unfolding put_back_legs
  put_back_legs-AllQuiet = legs-AllQuiet run _ production_reversal actor_id _ true as'

  pub put_back_legs-AllFree : AllFree (put_back_legs uuid_text is_space run actor_id as')
  unfolding put_back_legs
  put_back_legs-AllFree = back-AllFree run actor_id _ as'

  pub net-put_back_legs :
      (a j : ℕ)
      → net a j (put_back_legs uuid_text is_space run actor_id as')
        ≡ (if run.store_id == j then total a as' else pos 0)
  unfolding put_back_legs
  net-put_back_legs a j = net-back a j run actor_id _ as'

pub put_back_legs-AllFound :
    (uuid_text : ℕ → String) (is_space : Char → Bool) (run : ProductionRun) (actor_id : Option ℕ)
    (as' : Amounts) (items : List Item) (cs : List ProductionRunComponent)
    → ((a : ℕ) → has_line a cs ≡ true → (item : Item) × (find_item a items ≡ some item))
    → AllFound (put_back_legs uuid_text is_space run actor_id (noted as' cs)) items
unfolding put_back_legs
put_back_legs-AllFound uuid_text is_space run actor_id as' items cs f =
    back-AllFound run actor_id _ as' items cs f
