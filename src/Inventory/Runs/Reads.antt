-- ===== src/Inventory/Runs/Reads.antt =====
-- The steps of services/inventory-service/app/services/run_service.py that only read.
use mathlib.Core.Path.{subst}
use foodo.Prelude.{
  ℕ, ℤ, ◌≡◌, refl, ap, ◌∙◌, Bool, true, false, not, ◌&&◌, Option, none, some, List, [], ◌∷◌, Result,
  ok, err, Exec, continue, pure, gets, raise_if, or_raise, ◌>>=◌, ◌>>◌, ◌==◌, if◌then◌else◌,
  is_some, arith,
}
use foodo.Inventory.Movement.{find_item}
use foodo.Inventory.Production.{
  RecipeComponent, ProductionRun, ProductionRunComponent, Kitchen, KitchenError, recipe_not_found,
  run_not_found, invalid_input, invalid_run_state, not_measured, key_error, assertion_error,
  find_recipe,
}
use foodo.Inventory.Runs.{
  find_run, get_run_or_404, own_recipe, own_item, load_recipe, is_nil, recipe_lines, run_lines,
}
use foodo.Inventory.Runs.Start.{
  Amounts, amount_of, measure, check_override, check_stock, check_one, all_given, all_ingredients,
  all_positive,
}
use foodo.Inventory.Runs.Cancel.{all_measured, measured_amounts}
use foodo.Inventory.Runs.Publish.{published_event, find_published, prepare}

pub record Reads {A : Type 0} (m : Exec Kitchen KitchenError A) : Type 0 where
  pub same : (k : Kitchen) → (m k).1 ≡ k

bind_continue :
    {A B : Type 0} (k t : Kitchen) (r : Result KitchenError A) (f : A → Exec Kitchen KitchenError B)
    → t ≡ k
    → ((a : A) → Reads (f a))
    → (continue r f t).1 ≡ k
bind_continue k t (ok a) f e l = (l a).same t ∙ e
bind_continue k t (err x) f e l = e

bind :
    {A B : Type 0} (m : Exec Kitchen KitchenError A) (f : A → Exec Kitchen KitchenError B)
    → Reads m
    → ((a : A) → Reads (f a))
    → Reads (m >>= f)
bind m f h l = record { same = λ k. bind_continue k (m k).1 (m k).0 f (h.same k) l }

pub gets-Reads : {A : Type 0} (g : Kitchen → A) → Reads (gets g)
gets-Reads g = record { same = λ k. refl }

pub or_raise-Reads : {A : Type 0} (o : Option A) (e : KitchenError) → Reads (or_raise o e)
or_raise-Reads none e = record { same = λ k. refl }
or_raise-Reads (some a) e = record { same = λ k. refl }

pub raise_if-Reads : (b : Bool) (e : KitchenError) → Reads (raise_if b e)
raise_if-Reads true e = record { same = λ k. refl }
raise_if-Reads false e = record { same = λ k. refl }

pure-Reads : {A : Type 0} (a : A) → Reads (pure a)
pure-Reads a = record { same = λ k. refl }

pub get_run_or_404-Reads : (b i : ℕ) → Reads (get_run_or_404 b i)
unfolding get_run_or_404
get_run_or_404-Reads b i = bind (gets (λ k. find_run i k.book.runs)) _ (gets-Reads _) (λ found.
    bind (or_raise found (run_not_found i)) _ (or_raise-Reads found _) (λ run.
      bind (raise_if (not (run.business_id == b)) (run_not_found i)) _ (raise_if-Reads _ _)
        (λ u. pure-Reads run)))

own_recipe-Reads : (b i : ℕ) → Reads (own_recipe b i)
unfolding own_recipe
own_recipe-Reads b i = bind (gets (λ k. find_recipe i k.recipes)) _ (gets-Reads _) (λ found.
    bind (or_raise found (recipe_not_found i)) _ (or_raise-Reads found _) (λ r.
      bind (raise_if (not (r.business_id == b)) (recipe_not_found i)) _ (raise_if-Reads _ _)
        (λ u. pure-Reads r)))

own_item-Reads : (b i : ℕ) (e : KitchenError) → Reads (own_item b i e)
unfolding own_item
own_item-Reads b i e = bind (gets (λ k. find_item i k.stock.items)) _ (gets-Reads _) (λ found.
    bind (or_raise found e) _ (or_raise-Reads found _) (λ x.
      bind (raise_if (not (x.business_id == b)) e) _ (raise_if-Reads _ _) (λ u. pure-Reads x)))

pub load_recipe-Reads : (b i : ℕ) → Reads (load_recipe b i)
unfolding load_recipe
load_recipe-Reads b i = bind (own_recipe b i) _ (own_recipe-Reads b i) (λ recipe.
    bind (gets (λ k. recipe_lines recipe.id k.recipe_components)) _ (gets-Reads _) (λ components.
      bind (raise_if (is_nil components) invalid_input) _ (raise_if-Reads _ _) (λ u.
        bind (or_raise recipe.sellable_item_id invalid_input) _ (or_raise-Reads _ _) (λ s.
          bind (own_item b s (recipe_not_found i)) _ (own_item-Reads b s _)
            (λ sellable. pure-Reads (recipe, components, sellable))))))

pub check_override-Reads :
    (i : ℕ) (q : ℤ) (cs : List RecipeComponent) (a : Amounts) → Reads (check_override i q cs a)
unfolding check_override
check_override-Reads i q cs a =
    bind (raise_if (not (all_given cs a && all_ingredients a cs)) invalid_input) _
      (raise_if-Reads _ _)
      (λ u.
        bind (raise_if (not (all_positive a)) invalid_input) _ (raise_if-Reads _ _)
          (λ v. raise_if-Reads _ _))

pub measure-Reads :
    (i : ℕ) (q : ℤ) (cs : List RecipeComponent) (snap : List ProductionRunComponent)
    (a : Option Amounts)
    → Reads (measure i q cs snap a)
unfolding measure
measure-Reads i q cs snap none = pure-Reads _
measure-Reads i q cs snap (some a) =
    bind (check_override i q cs a) _ (check_override-Reads i q cs a) (λ u. pure-Reads a)

pub check_stock-Reads : (s : ℕ) (as' : Amounts) → Reads (check_stock s as')
unfolding check_stock
check_stock-Reads s [] = pure-Reads tt
check_stock-Reads s (a ∷ as') =
    bind (λ k. (check_one s a k, k)) _ (record { same = λ k. refl }) (λ u. check_stock-Reads s as')

pub all_measured-Reads : (i : ℕ) → Reads (all_measured i)
unfolding all_measured
all_measured-Reads i =
    bind (gets (λ k. measured_amounts (run_lines i k.book.lines))) _ (gets-Reads _)
      (λ a. or_raise-Reads a (not_measured i))

pub published_event-Reads : (r : ProductionRun) → Reads (published_event r)
unfolding published_event
published_event-Reads r =
    bind (gets (λ k. if is_some r.published_at then find_published r.id k.book.events else none)) _
      (gets-Reads _) (λ found. or_raise-Reads found (invalid_run_state r.status))

pub prepare-Reads : (r : ProductionRun) → Reads (prepare r)
unfolding prepare
prepare-Reads r =
    bind (or_raise r.actual_output_quantity assertion_error) _ (or_raise-Reads _ _) (λ actual.
      bind (or_raise r.leading_component_item_id assertion_error) _ (or_raise-Reads _ _) (λ leading.
        bind (all_measured r.id) _ (all_measured-Reads r.id) (λ measured.
          bind (own_recipe r.business_id r.recipe_id) _ (own_recipe-Reads _ _) (λ recipe.
            bind (or_raise recipe.sellable_item_id (recipe_not_found r.recipe_id)) _
              (or_raise-Reads _ _)
              (λ s.
                bind (own_item r.business_id s (recipe_not_found r.recipe_id)) _
                  (own_item-Reads _ _ _)
                  (λ sellable.
                    bind (or_raise (amount_of leading measured) (key_error leading)) _
                      (or_raise-Reads _ _)
                      (λ q.
                        bind (gets (λ k. k.stock.items)) _ (gets-Reads _)
                          (λ items. pure-Reads _))))))))

-- A run that was found is in the table under its id, and belongs to the business.
pub record IsRunOf (b i : ℕ) (k : Kitchen) (r : ProductionRun) : Type 0 where
  pub found : find_run r.id k.book.runs ≡ some r
  pub id : r.id ≡ i
  pub business : r.business_id ≡ b

find_run-id :
    (i : ℕ) (rs : List ProductionRun) (r : ProductionRun) → find_run i rs ≡ some r → r.id ≡ i
unfolding find_run
find_run-id i [] r h = absurd (cc)
find_run-id i (x ∷ rs) r h = ground (arith, find_run-id i rs r, h)

checked :
    {A : Type 0} (c : Bool) (x r : A) (e : KitchenError) (k : Kitchen)
    → ((raise_if (not c) e >> pure x) k).0 ≡ ok r
    → (c ≡ true) × (x ≡ r)
checked true x r e k h = (refl, cc)
checked false x r e k h = absurd (cc)

found_run :
    (b i : ℕ) (k : Kitchen) (o : Option ProductionRun) (r : ProductionRun)
    → find_run i k.book.runs ≡ o
    → ((or_raise o (run_not_found i)
          >>= (λ run. raise_if (not (run.business_id == b)) (run_not_found i) >> pure run))
        k).0
      ≡ ok r
    → IsRunOf b i k r
found_run b i k none r e h = absurd (cc)
found_run b i k (some x) r e h =
    let q = checked (x.business_id == b) x r (run_not_found i) k h in
    let n = find_run-id i k.book.runs x e in
    subst (IsRunOf b i k) q.1 (record {
      found = ap (λ j. find_run j k.book.runs) n ∙ e;
      id = n;
      business = ground (arith, q.0);
    })

pub get_run_or_404-IsRunOf :
    (b i : ℕ) (k : Kitchen) (r : ProductionRun) → (get_run_or_404 b i k).0 ≡ ok r → IsRunOf b i k r
unfolding get_run_or_404
get_run_or_404-IsRunOf b i k r h = found_run b i k (find_run i k.book.runs) r refl h

pub peel_continue :
    {A B : Type 0} (k t : Kitchen) (r : Result KitchenError A) (f : A → Exec Kitchen KitchenError B)
    (x : B) (s : Kitchen)
    → t ≡ k
    → continue r f t ≡ (ok x, s)
    → (a : A) × (r ≡ ok a) × (f a k ≡ (ok x, s))
peel_continue k t (ok a) f x s e h = (a, refl, subst (λ z. f a z ≡ (ok x, s)) e h)
peel_continue k t (err y) f x s e h = absurd (cc (ap (λ z. z.0) h))

-- A method that returned, after its first step, which only reads.
pub peel :
    {A B : Type 0} (k : Kitchen) (m : Exec Kitchen KitchenError A)
    (f : A → Exec Kitchen KitchenError B) (x : B) (s : Kitchen)
    → Reads m
    → (m >>= f) k ≡ (ok x, s)
    → (a : A) × ((m k).0 ≡ ok a) × (f a k ≡ (ok x, s))
peel k m f x s r h = peel_continue k (m k).1 (m k).0 f x s (r.same k) h

-- The look-up, where it finds the run.
pub get_run_or_404-found :
    (b i : ℕ) (k : Kitchen) (r : ProductionRun)
    → find_run i k.book.runs ≡ some r
    → r.business_id ≡ b
    → get_run_or_404 b i k ≡ (ok r, k)
unfolding get_run_or_404
get_run_or_404-found b i k r h e =
    let own : (r.business_id == b) ≡ true = ground (arith, e) in rw (h, own) refl
