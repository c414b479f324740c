-- ===== src/Inventory/Events/Keys.antt =====
-- The per-line idempotency keys `f"{event_id}:{item_id}"`.
use Prim.Native.String.{◌++◌ as str_append}
use text.Mathlib.Text.{◌==◌ as str_eq}
use text.Mathlib.TextEquality.{eq_iff}
use text.Mathlib.TextLemmas.{nil-append, cons-append, head-eq_of_cons-eq, tail-eq_of_cons-eq}
use mathlib.Core.Path.{subst, ap₂}
use foodo.Prelude.{ℕ, String, ◌≡◌, refl, sym, ◌∙◌, ap, ◌≢◌, false, inl, inr, Bool-cases}
use foodo.Inventory.Events.{line_key}

-- No character of the text is `:`.
abbrev pub NoColon : String → Type 0
NoColon String.[] = Unit
NoColon (String.◌∷◌ c s) = (c ≢ ":") × NoColon s

-- What Python's `str` of a UUID is relied on for: distinct UUIDs have distinct texts, which are
-- digits and dashes, so without a colon.
pub record IsUuidText (uuid_text : ℕ → String) : Type 0 where
  pub injective : (i j : ℕ) → uuid_text i ≡ uuid_text j → i ≡ j
  pub no_colon : (i : ℕ) → NoColon (uuid_text i)

append-colon : (t : String) → str_append ":" t ≡ String.◌∷◌ ":" t
append-colon t = cons-append ":" String.[] t ∙ ap (String.◌∷◌ ":") (nil-append t)

append-nil-colon : (t : String) → str_append String.[] (str_append ":" t) ≡ String.◌∷◌ ":" t
append-nil-colon t = nil-append (str_append ":" t) ∙ append-colon t

with_colon : (s t : String) → NoColon (str_append s (str_append ":" t)) → ⊥
with_colon String.[] t h = (subst NoColon (append-nil-colon t) h).0 refl
with_colon (String.◌∷◌ c s) t h =
    with_colon s t (subst NoColon (cons-append c s (str_append ":" t)) h).1

split_at_colon :
    (e f s t : String)
    → NoColon s
    → NoColon t
    → str_append e (str_append ":" s) ≡ str_append f (str_append ":" t)
    → (e ≡ f) × (s ≡ t)
split_at_colon String.[] String.[] s t p q h =
    (refl, tail-eq_of_cons-eq (sym (append-nil-colon s) ∙ h ∙ append-nil-colon t))
split_at_colon String.[] (String.◌∷◌ c f) s t p q h = absurd (
    with_colon f t
      (subst NoColon (tail-eq_of_cons-eq (sym (append-nil-colon s) ∙ h ∙ cons-append c f _)) p))
split_at_colon (String.◌∷◌ c e) String.[] s t p q h = absurd (
    with_colon e s
      (subst NoColon (tail-eq_of_cons-eq (sym (append-nil-colon t) ∙ sym h ∙ cons-append c e _)) q))
split_at_colon (String.◌∷◌ c e) (String.◌∷◌ d f) s t p q h =
    let both = sym (cons-append c e (str_append ":" s)) ∙ h ∙ cons-append d f (str_append ":" t) in
    let rest = split_at_colon e f s t p q (tail-eq_of_cons-eq both) in
    (ap₂ String.◌∷◌ (head-eq_of_cons-eq both) rest.0, rest.1)

module _ (uuid_text : ℕ → String) (u : IsUuidText uuid_text) where
  -- Two keys are equal only for the same event and the same item.
  pub line_key_inj :
      (e f : String) (i j : ℕ) → line_key uuid_text e i ≡ line_key uuid_text f j → (e ≡ f) × (i ≡ j)
  unfolding line_key
  line_key_inj e f i j h =
      let parts = split_at_colon e f (uuid_text i) (uuid_text j) (u.no_colon i) (u.no_colon j) h in
      (parts.0, u.injective i j parts.1)

  pub line_key_ne_item :
      (e f : String) (i j : ℕ)
      → i ≢ j
      → str_eq (line_key uuid_text e i) (line_key uuid_text f j) ≡ false
  line_key_ne_item e f i j ne =
      elim (Bool-cases (str_eq (line_key uuid_text e i) (line_key uuid_text f j))) [
        | inl h ↦ absurd (ne (line_key_inj e f i j ((eq_iff _ _).0 h)).1)
        | inr h ↦ h
      ]

  pub line_key_ne_event :
      (e f : String) (i j : ℕ)
      → e ≢ f
      → str_eq (line_key uuid_text e i) (line_key uuid_text f j) ≡ false
  line_key_ne_event e f i j ne =
      elim (Bool-cases (str_eq (line_key uuid_text e i) (line_key uuid_text f j))) [
        | inl h ↦ absurd (ne (line_key_inj e f i j ((eq_iff _ _).0 h)).0)
        | inr h ↦ h
      ]
