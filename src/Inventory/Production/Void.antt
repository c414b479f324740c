-- ===== src/Inventory/Production/Void.antt =====
-- `void_production_event` of services/inventory-service/app/services/production_service.py. The text
-- of a UUID and Python's test for white space are parameters.
pub mod Outcome
pub mod Legs
pub mod Effect
use Prim.Native.Char.{Char}
use Prim.Native.String.{◌++◌ as str_append}
use foodo.Prelude.{
  first_chars, is_empty, lstrip, rstrip, strip, ℕ, zero, suc, ℤ, pos, ◌-ℤ◌, String, Bool, true,
  false, ◌&&◌, Option, none, some, List, [], ◌∷◌, ◌++◌, map, if◌then◌else◌, is_some, Exec, pure,
  gets, or_raise, modify, ◌>>=◌, ◌>>◌,
}
use foodo.Inventory.Model.{production_reversal}
use foodo.Inventory.Movement.{Move}
use foodo.Inventory.Legs.{perform_legs}
use foodo.Inventory.Production.{
  ProductionEvent, ProductionEventComponent, production_voided, audit_voided, Kitchen, KitchenError,
  production_not_found, menu_item_gone, in_stock, or_rollback, commit, find_event, find_recipe,
  components_of, set_event, leg_of,
}

-- What the caller of `void_production_event` passes.
pub record VoidRequest : Type 0 where
  pub business_id : ℕ
  pub event_id : ℕ
  pub reason : Option String
  pub actor_type : String
  pub actor_id : Option ℕ

-- The legs carry the caller's business.
abbrev pub acting : VoidRequest → ProductionEvent → ProductionEvent
acting v e = record e { business_id = v.business_id }

module _ (uuid_text : ℕ → String) (is_space : Char → Bool) where
  -- `(reason or "").strip() or "Undone by staff"`
  unfoldable pub clean_reason : Option String → String
  unfolding lstrip rstrip is_empty
  clean_reason none = "Undone by staff"
  clean_reason (some reason) =
      let text = strip is_space reason in if is_empty text then "Undone by staff" else text

  unfoldable pub undo_reason : ProductionEvent → String → String → String
  undo_reason e recipe_name what = str_append "Undo cooking " (
      str_append (uuid_text e.id)
        (str_append " (" (str_append recipe_name (str_append "): " what))))

  -- The legs of the undoing: each component back, then the output away, both unchecked.
  unfoldable pub reversal_legs :
      VoidRequest → ProductionEvent → String → ℕ → List ProductionEventComponent → List Move
  unfolding leg_of undo_reason
  reversal_legs v e recipe_name sellable_id used =
      map
        (λ c.
          leg_of (acting v e) c.raw_material_item_id c.quantity_consumed production_reversal
            v.actor_type v.actor_id (undo_reason e recipe_name "put back") true none)
        used
      ++ (leg_of (acting v e) sellable_id (pos 0 -ℤ e.actual_output_quantity) production_reversal
            v.actor_type v.actor_id (undo_reason e recipe_name "take back") true none
          ∷ [])

  -- The row after the undoing.
  unfoldable pub voided_event : VoidRequest → ℕ → ProductionEvent → ProductionEvent
  unfolding clean_reason first_chars
  voided_event v now e = record e {
    voided_at = some now;
    void_reason = some (first_chars 500 (clean_reason v.reason));
  }

  unfoldable pub write_event : ProductionEvent → Kitchen → Kitchen
  write_event e k = record k { book = record k.book { events = set_event e k.book.events } }

  -- What is published after the commit.
  unfoldable pub tell : VoidRequest → ProductionEvent → Kitchen → Kitchen
  unfolding clean_reason
  tell v e k = record k {
    notices =
        k.notices
        ++ (production_voided e.id v.business_id (clean_reason v.reason)
            ∷ audit_voided v.actor_id v.business_id e.id (clean_reason v.reason)
            ∷ []);
  }

  -- The part below the early return.
  unfoldable pub undo_event :
      VoidRequest → ℕ → ProductionEvent → Exec Kitchen KitchenError ProductionEvent
  undo_event v now e = do
    used ← gets (λ k. components_of e.id k.book.used)
    found ← gets (λ k. find_recipe e.recipe_id k.recipes)
    recipe ← or_raise found menu_item_gone
    sellable_id ← or_raise recipe.sellable_item_id menu_item_gone
    or_rollback (do
      in_stock (perform_legs (reversal_legs v e recipe.name sellable_id used))
      modify (write_event (voided_event v now e))
      modify commit)
    modify (tell v e)
    pure (voided_event v now e)

  -- An event that is voided comes back as it is.
  unfoldable pub void_production_event : VoidRequest → ℕ → Exec Kitchen KitchenError ProductionEvent
  void_production_event v now = do
    found ← gets (λ k. find_event v.event_id v.business_id k.book.events)
    event ← or_raise found (production_not_found v.event_id)
    if is_some event.voided_at then pure event else undo_event v now event
