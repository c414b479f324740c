-- ===== src/Inventory/Production/Void/Effect.antt =====
-- What `void_production_event` does to the stock, to the rows and at a second call.
use mathlib.Core.Path.{subst}
use Prim.Native.Char.{Char}
use foodo.Prelude.{
  ℕ, ◌+ℤ◌, String, Bool, ◌≡◌, refl, sym, ap, ◌∙◌, inl, inr, true, false, some, List, [], ◌∷◌,
  is_some, Result, ok, err, arith,
}
use foodo.Inventory.Model.{ActorType}
use foodo.Inventory.Movement.{actor_of}
use foodo.Inventory.Movement.Outcome.{on_hand}
use foodo.Inventory.Legs.{perform_legs}
use foodo.Inventory.Legs.Effect.{AllFound}
use foodo.Inventory.Legs.Run.{perform_legs-cases, perform_legs-IsMoved, perform_legs_free}
use foodo.Inventory.Production.{
  Recipe, ProductionEvent, Kitchen, KitchenError, commit, find_event, find_recipe, components_of,
  set_event,
}
use foodo.Inventory.Production.Clean.{IsClean, rollback-legs}
use foodo.Inventory.Production.Void.{
  VoidRequest, void_production_event, voided_event, write_event, tell,
}
use foodo.Inventory.Production.Void.Outcome.{
  undone, void_already, void_done, void_failed, legs_of, Outcome, outcome, missing, already, gone,
  failed, done,
}
use foodo.Inventory.Production.Void.Legs.{
  reversal-AllQuiet, reversal-AllFree, net-reversal_legs, on_void,
}

pub found_ids :
    (i b : ℕ) (es : List ProductionEvent) (e : ProductionEvent)
    → find_event i b es ≡ some e
    → (e.id ≡ i) × (e.business_id ≡ b)
unfolding find_event
found_ids i b [] e h = absurd (cc)
found_ids i b (x ∷ xs) e h = ground (arith, found_ids i b xs e)

find-set_event :
    (i b : ℕ) (es : List ProductionEvent) (e e' : ProductionEvent)
    → find_event i b es ≡ some e
    → e'.id ≡ i
    → e'.business_id ≡ b
    → find_event i b (set_event e' es) ≡ some e'
unfolding find_event set_event
find-set_event i b [] e e' h p q = absurd (cc)
find-set_event i b (x ∷ xs) e e' h p q = ground (arith, find-set_event i b xs e e')

module _ (uuid_text : ℕ → String) (is_space : Char → Bool) (v : VoidRequest) (now : ℕ)
    (k : Kitchen) where
  abbrev result : Result KitchenError ProductionEvent
  result = (void_production_event uuid_text is_space v now k).0

  abbrev after : Kitchen
  after = (void_production_event uuid_text is_space v now k).1

  levels_of :
      (e : ProductionEvent) (r : Recipe) (i a j : ℕ)
      → (perform_legs (legs_of uuid_text is_space v now k e r.name i) k.stock).0 ≡ ok tt
      → on_hand a j
          (undone uuid_text is_space v now k e
            (legs_of uuid_text is_space v now k e r.name i)).stock
        ≡ on_hand a j k.stock
          +ℤ on_void uuid_text is_space v e r.name i (components_of e.id k.book.used) a j
  unfolding tell commit write_event
  levels_of e r i a j h =
      let used = components_of e.id k.book.used in
      (perform_legs-IsMoved _ k.stock (reversal-AllQuiet uuid_text is_space v e r.name i used)
          h).0.levels
        a j
      ∙ ap (λ n. on_hand a j k.stock +ℤ n)
          (net-reversal_legs uuid_text is_space v e r.name i used a j)

  -- An undoing that returns, of an event of the business that was not voided and whose recipe is there
  -- and linked, changes the stock at the event's store only: every item gets back what the event's
  -- components of that item sum up to, and the recipe's item loses the output.
  pub void_production_event-levels :
      (e e' : ProductionEvent) (r : Recipe) (i : ℕ)
      → result ≡ ok e'
      → find_event v.event_id v.business_id k.book.events ≡ some e
      → is_some e.voided_at ≡ false
      → find_recipe e.recipe_id k.recipes ≡ some r
      → r.sellable_item_id ≡ some i
      → (a j : ℕ)
      → on_hand a j after.stock
        ≡ on_hand a j k.stock
          +ℤ on_void uuid_text is_space v e r.name i (components_of e.id k.book.used) a j
  void_production_event-levels e e' r i h f n fr si a j =
      let ms = legs_of uuid_text is_space v now k e r.name i in
      elim (perform_legs-cases ms k.stock) [
        | inl p ↦
            ap (λ x. on_hand a j x.1.stock) (void_done uuid_text is_space v now k e r i f n fr si p)
            ∙ levels_of e r i a j p
        | inr (x, p) ↦ absurd (cc (void_failed uuid_text is_space v now k x e r i f n fr si p))
      ]

  -- Undoing an event of the business that is not voided succeeds when its recipe is there and linked,
  -- the items of its legs are there and the actor type is known, whatever the quantities are.
  pub void_production_event_succeeds :
      (e : ProductionEvent) (r : Recipe) (i : ℕ) (actor : ActorType)
      → find_event v.event_id v.business_id k.book.events ≡ some e
      → is_some e.voided_at ≡ false
      → find_recipe e.recipe_id k.recipes ≡ some r
      → r.sellable_item_id ≡ some i
      → actor_of v.actor_type ≡ some actor
      → AllFound (legs_of uuid_text is_space v now k e r.name i) k.stock.items
      → result ≡ ok (voided_event uuid_text is_space v now e)
  void_production_event_succeeds e r i actor f n fr si h w =
      let used = components_of e.id k.book.used in
      ap (λ x. x.0)
        (void_done uuid_text is_space v now k e r i f n fr si (
          perform_legs_free _ k.stock (reversal-AllQuiet uuid_text is_space v e r.name i used)
            (reversal-AllFree uuid_text is_space v e r.name i used actor h) w))

  -- An undoing that fails changes nothing and publishes nothing, whichever step failed, if nothing
  -- waited for a commit.
  pub void_production_event_atomic : (x : KitchenError) → IsClean k → result ≡ err x → after ≡ k
  void_production_event_atomic x c h = go (outcome uuid_text is_space v now k)
    where
      go : Outcome uuid_text is_space v now k → after ≡ k
      go (missing f q) = ap (λ x. x.1) q
      go (already e f y q) = ap (λ x. x.1) q
      go (gone e f n g q) = ap (λ x. x.1) q
      go (failed e r i x f n fr si p q) =
          ap (λ x. x.1) q
          ∙ rollback-legs k _ c
              (reversal-AllQuiet uuid_text is_space v e r.name i (components_of e.id k.book.used))
      go (done e r i f n fr si p q) = absurd (cc)

  find_voided :
      (e : ProductionEvent)
      → find_event v.event_id v.business_id k.book.events ≡ some e
      → find_event v.event_id v.business_id
          (set_event (voided_event uuid_text is_space v now e) k.book.events)
        ≡ some (voided_event uuid_text is_space v now e)
  unfolding voided_event
  find_voided e f =
      let ids = found_ids v.event_id v.business_id k.book.events e f in
      find-set_event v.event_id v.business_id k.book.events e _ f ids.0 ids.1

-- The event is voided in the state.
abbrev IsVoided : VoidRequest → ProductionEvent → Kitchen → Type 0
IsVoided v e k =
    (find_event v.event_id v.business_id k.book.events ≡ some e) × (is_some e.voided_at ≡ true)

module _ (uuid_text : ℕ → String) (is_space : Char → Bool) (v : VoidRequest) (now : ℕ)
    (k : Kitchen) where
  marked :
      (e : ProductionEvent) → is_some (voided_event uuid_text is_space v now e).voided_at ≡ true
  unfolding voided_event
  marked e = refl

  IsVoided-at :
      (e e2 : ProductionEvent) (t : Kitchen)
      → (void_production_event uuid_text is_space v now k).0 ≡ ok e
      → void_production_event uuid_text is_space v now k ≡ (ok e2, t)
      → IsVoided v e2 t
      → IsVoided v e (void_production_event uuid_text is_space v now k).1
  IsVoided-at e e2 t h q d =
      let same : e2 ≡ e = cc in
      subst (IsVoided v e) (sym (ap (λ x. x.1) q)) (subst (λ x. IsVoided v x t) same d)

  void-IsVoided :
      (e : ProductionEvent)
      → (void_production_event uuid_text is_space v now k).0 ≡ ok e
      → IsVoided v e (void_production_event uuid_text is_space v now k).1
  unfolding tell commit write_event
  void-IsVoided e h = go (outcome uuid_text is_space v now k)
    where
      go :
          Outcome uuid_text is_space v now k
          → IsVoided v e (void_production_event uuid_text is_space v now k).1
      go (missing f q) = absurd (cc)
      go (already e2 f y q) = IsVoided-at e e2 k h q (f, y)
      go (gone e2 f n g q) = absurd (cc)
      go (failed e2 r i x f n fr si p q) = absurd (cc)
      go (done e2 r i f n fr si p q) =
          IsVoided-at e _ _ h q (find_voided uuid_text is_space v now k e2 f, marked e2)

  -- After an undoing that succeeded, every later call for the same event and business returns the same
  -- row and changes nothing, whatever its reason, actor and time.
  pub void_production_event_again :
      (e : ProductionEvent) (v' : VoidRequest) (later : ℕ)
      → (void_production_event uuid_text is_space v now k).0 ≡ ok e
      → v'.event_id ≡ v.event_id
      → v'.business_id ≡ v.business_id
      → let t = (void_production_event uuid_text is_space v now k).1 in
        void_production_event uuid_text is_space v' later t ≡ (ok e, t)
  void_production_event_again e v' later h p q =
      let d = void-IsVoided e h in
      let t = (void_production_event uuid_text is_space v now k).1 in
      void_already uuid_text is_space v' later t e
        (ap (λ x. find_event x v'.business_id t.book.events) p
          ∙ ap (λ x. find_event v.event_id x t.book.events) q
          ∙ d.0)
        d.1
