-- ===== src/Inventory/Production/Void/Outcome.antt =====
-- The ways in which `void_production_event` can end, each with the state that it leaves.
use Prim.Native.Char.{Char}
use foodo.Prelude.{
  ℕ, String, Bool, ◌≡◌, refl, inl, inr, true, false, none, some, List, is_some, Result, ok, err,
  Bool-cases, Option-cases,
}
use foodo.Inventory.Rules.{MoveError}
use foodo.Inventory.Movement.{Move}
use foodo.Inventory.Legs.{perform_legs}
use foodo.Inventory.Legs.Run.{perform_legs-cases}
use foodo.Inventory.Production.{
  Recipe, ProductionEvent, Kitchen, KitchenError, production_not_found, menu_item_gone,
  movement_failed, rollback, commit, find_event, find_recipe, components_of, in_stock, or_rollback,
}
use foodo.Inventory.Production.Void.{
  VoidRequest, reversal_legs, voided_event, write_event, tell, undo_event, void_production_event,
}

module _ (uuid_text : ℕ → String) (is_space : Char → Bool) (v : VoidRequest) (now : ℕ)
    (k : Kitchen) where
  abbrev pub legs_of : ProductionEvent → String → ℕ → List Move
  legs_of e recipe_name i =
      reversal_legs uuid_text is_space v e recipe_name i (components_of e.id k.book.used)

  abbrev pub call : Result KitchenError ProductionEvent × Kitchen
  call = void_production_event uuid_text is_space v now k

  -- After the legs.
  abbrev pub moved : List Move → Kitchen
  moved ms = record k { stock = (perform_legs ms k.stock).1 }

  abbrev pub undone : ProductionEvent → List Move → Kitchen
  undone e ms =
      tell uuid_text is_space v e (
        commit
          (write_event uuid_text is_space (voided_event uuid_text is_space v now e) (moved ms)))

  pub data Outcome : Type 0 where
    missing :
        find_event v.event_id v.business_id k.book.events ≡ none
        → call ≡ (err (production_not_found v.event_id), k)
        → Outcome
    already :
        (e : ProductionEvent)
        → find_event v.event_id v.business_id k.book.events ≡ some e
        → is_some e.voided_at ≡ true
        → call ≡ (ok e, k)
        → Outcome
    gone :
        (e : ProductionEvent)
        → find_event v.event_id v.business_id k.book.events ≡ some e
        → is_some e.voided_at ≡ false
        → ((r : Recipe) (i : ℕ)
            → find_recipe e.recipe_id k.recipes ≡ some r
            → r.sellable_item_id ≡ some i
            → ⊥)
        → call ≡ (err menu_item_gone, k)
        → Outcome
    failed :
        (e : ProductionEvent) (r : Recipe) (i : ℕ) (x : MoveError)
        → find_event v.event_id v.business_id k.book.events ≡ some e
        → is_some e.voided_at ≡ false
        → find_recipe e.recipe_id k.recipes ≡ some r
        → r.sellable_item_id ≡ some i
        → (perform_legs (legs_of e r.name i) k.stock).0 ≡ err x
        → call ≡ (err (movement_failed x), rollback (moved (legs_of e r.name i)))
        → Outcome
    done :
        (e : ProductionEvent) (r : Recipe) (i : ℕ)
        → find_event v.event_id v.business_id k.book.events ≡ some e
        → is_some e.voided_at ≡ false
        → find_recipe e.recipe_id k.recipes ≡ some r
        → r.sellable_item_id ≡ some i
        → (perform_legs (legs_of e r.name i) k.stock).0 ≡ ok tt
        → call ≡ (ok (voided_event uuid_text is_space v now e), undone e (legs_of e r.name i))
        → Outcome

  pub void_done :
      (e : ProductionEvent) (r : Recipe) (i : ℕ)
      → find_event v.event_id v.business_id k.book.events ≡ some e
      → is_some e.voided_at ≡ false
      → find_recipe e.recipe_id k.recipes ≡ some r
      → r.sellable_item_id ≡ some i
      → (perform_legs (legs_of e r.name i) k.stock).0 ≡ ok tt
      → call ≡ (ok (voided_event uuid_text is_space v now e), undone e (legs_of e r.name i))
  unfolding void_production_event undo_event or_rollback in_stock
  void_done e r i f n fr si p = rw (f, n, fr, si, p) refl

  pub void_failed :
      (x : MoveError) (e : ProductionEvent) (r : Recipe) (i : ℕ)
      → find_event v.event_id v.business_id k.book.events ≡ some e
      → is_some e.voided_at ≡ false
      → find_recipe e.recipe_id k.recipes ≡ some r
      → r.sellable_item_id ≡ some i
      → (perform_legs (legs_of e r.name i) k.stock).0 ≡ err x
      → call ≡ (err (movement_failed x), rollback (moved (legs_of e r.name i)))
  unfolding void_production_event undo_event or_rollback in_stock
  void_failed x e r i f n fr si p = rw (f, n, fr, si, p) refl

  outcome_legs :
      (e : ProductionEvent) (r : Recipe) (i : ℕ)
      → find_event v.event_id v.business_id k.book.events ≡ some e
      → is_some e.voided_at ≡ false
      → find_recipe e.recipe_id k.recipes ≡ some r
      → r.sellable_item_id ≡ some i
      → Outcome
  outcome_legs e r i f n fr si = elim (perform_legs-cases (legs_of e r.name i) k.stock) [
    | inl p ↦ done e r i f n fr si p (void_done e r i f n fr si p)
    | inr (x, p) ↦ failed e r i x f n fr si p (void_failed x e r i f n fr si p)
  ]

  pub void_already :
      (e : ProductionEvent)
      → find_event v.event_id v.business_id k.book.events ≡ some e
      → is_some e.voided_at ≡ true
      → call ≡ (ok e, k)
  unfolding void_production_event
  void_already e f y = rw (f, y) refl

  outcome_found :
      (e : ProductionEvent) → find_event v.event_id v.business_id k.book.events ≡ some e → Outcome
  unfolding void_production_event undo_event
  outcome_found e f = elim (Bool-cases (is_some e.voided_at)) [
    | inl y ↦ already e f y (void_already e f y)
    | inr n ↦ elim (Option-cases (find_recipe e.recipe_id k.recipes)) [
      | inl z ↦ gone e f n (λ r i p q. absurd (cc)) (rw (f, n, z) refl)
      | inr (r, fr) ↦ elim (Option-cases r.sellable_item_id) [
        | inl z ↦ gone e f n (λ r i p q. absurd (cc)) (rw (f, n, fr, z) refl)
        | inr (i, si) ↦ outcome_legs e r i f n fr si
      ]
    ]
  ]

  pub outcome : Outcome
  unfolding void_production_event
  outcome = elim (Option-cases (find_event v.event_id v.business_id k.book.events)) [
    | inl f ↦ missing f (rw f refl)
    | inr (e, f) ↦ outcome_found e f
  ]
