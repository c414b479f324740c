-- ===== src/Inventory/Runs/Phase/Change.antt =====
-- What one request may do to the table of runs.
use mathlib.Core.Path.{subst}
use foodo.Prelude.{
  ℕ, suc, ◌≤◌, ◌≡◌, refl, sym, ap, ◌∙◌, Bool, Bool-cases, true, false, Option, none, some, List, [],
  ◌∷◌, ◌==◌, not, is_some, inl, inr, arith,
}
use foodo.Inventory.Production.{
  RunStatus, pending, in_progress, completed, cancelled, ProductionRun,
}
use foodo.Inventory.Runs.{find_run, set_run, drop_run}
use foodo.Inventory.Runs.Phase.{
  absent, planned, phase_of, phase_at, phase, Operation, creates, deletes, PhaseStep, plan,
  withdraw, AtMostOneStep,
}

-- Only a completed run is published.
unfoldable pub is_orderly : RunStatus → Option ℕ → Bool
is_orderly completed p = true
is_orderly pending p = not (is_some p)
is_orderly in_progress p = not (is_some p)
is_orderly cancelled p = not (is_some p)

pub data Change (o : Operation) (rs ts : List ProductionRun) (n m : ℕ) : Type 0 where
  kept : ts ≡ rs → n ≤ m → Change o rs ts n m
  moved :
      (r t : ProductionRun)
      → find_run t.id rs ≡ some r
      → PhaseStep o (phase_of r.status r.published_at) (phase_of t.status t.published_at)
      → is_orderly t.status t.published_at ≡ true
      → ts ≡ set_run t rs
      → n ≤ m
      → Change o rs ts n m
  added :
      (t : ProductionRun)
      → o ≡ creates
      → t.id ≡ n
      → phase_of t.status t.published_at ≡ planned
      → is_orderly t.status t.published_at ≡ true
      → ts ≡ t ∷ rs
      → m ≡ suc n
      → Change o rs ts n m
  dropped :
      (r : ProductionRun)
      → o ≡ deletes
      → find_run r.id rs ≡ some r
      → phase_of r.status r.published_at ≡ planned
      → ts ≡ drop_run r.id rs
      → n ≤ m
      → Change o rs ts n m

-- Identifiers that are not given out yet are not in the table.
abbrev pub IsFresh : List ProductionRun → ℕ → Type 0
IsFresh rs n = (i : ℕ) → n ≤ i → find_run i rs ≡ none

pub find_run-set_run_same :
    (t : ProductionRun) (rs : List ProductionRun) (r : ProductionRun)
    → find_run t.id rs ≡ some r
    → find_run t.id (set_run t rs) ≡ some t
unfolding find_run set_run
find_run-set_run_same t [] r h = absurd (cc)
find_run-set_run_same t (x ∷ rs) r h = ground (arith, find_run-set_run_same t rs r)

find_run-set_run_other :
    (t : ProductionRun) (i : ℕ) (rs : List ProductionRun)
    → (i == t.id) ≡ false
    → find_run i (set_run t rs) ≡ find_run i rs
unfolding find_run set_run
find_run-set_run_other t i [] h = refl
find_run-set_run_other t i (x ∷ rs) h = ground (arith, find_run-set_run_other t i rs h)

find_run-drop_run_same : (i : ℕ) (rs : List ProductionRun) → find_run i (drop_run i rs) ≡ none
unfolding find_run drop_run
find_run-drop_run_same i [] = refl
find_run-drop_run_same i (x ∷ rs) = ground (arith, find_run-drop_run_same i rs)

find_run-drop_run_other :
    (j i : ℕ) (rs : List ProductionRun)
    → (i == j) ≡ false
    → find_run i (drop_run j rs) ≡ find_run i rs
unfolding find_run drop_run
find_run-drop_run_other j i [] h = refl
find_run-drop_run_other j i (x ∷ rs) h = ground (arith, find_run-drop_run_other j i rs h)

find_run-added_same :
    (t : ProductionRun) (i : ℕ) (rs : List ProductionRun)
    → (t.id == i) ≡ true
    → find_run i (t ∷ rs) ≡ some t
unfolding find_run
find_run-added_same t i rs h = ground (arith, h)

find_run-added_other :
    (t : ProductionRun) (i : ℕ) (rs : List ProductionRun)
    → (t.id == i) ≡ false
    → find_run i (t ∷ rs) ≡ find_run i rs
unfolding find_run
find_run-added_other t i rs h = ground (arith, h)

-- A run that is there is not the one that is missing.
missing :
    (i j : ℕ) (rs : List ProductionRun) (r : ProductionRun)
    → find_run i rs ≡ none
    → find_run j rs ≡ some r
    → (i == j) ≡ false
missing i j rs r h g = ground (arith, h, g)

-- The change, seen from one run.
pub Change-step :
    (o : Operation) (rs ts : List ProductionRun) (n m : ℕ)
    → IsFresh rs n
    → Change o rs ts n m
    → (i : ℕ) → AtMostOneStep o (phase i rs) (phase i ts)
unfolding phase_at
Change-step o rs ts n m f (kept e l) i = inl (ap (phase i) e)
Change-step o rs ts n m f (moved r t h s w e l) i = elim (Bool-cases (i == t.id)) [
  | inl p ↦
      let before : find_run i rs ≡ some r = ground (arith, h) in
      let after : find_run i ts ≡ some t = rw e (ground (arith, find_run-set_run_same t rs r h)) in
      inr (
        subst (λ x. PhaseStep o (phase_at x) (phase i ts)) (sym before)
          (subst (λ x. PhaseStep o (phase_of r.status r.published_at) (phase_at x)) (sym after) s))
  | inr p ↦ inl (ap phase_at (rw e (find_run-set_run_other t i rs p)))
]
Change-step o rs ts n m f (added t c x p w e q) i = elim (Bool-cases (t.id == i)) [
  | inl g ↦
      let before : find_run i rs ≡ none = f i (ground arith) in
      let after : find_run i ts ≡ some t = rw e (find_run-added_same t i rs g) in
      inr (
        subst (λ x. PhaseStep o (phase_at x) (phase i ts)) (sym before)
          (subst (λ x. PhaseStep o absent (phase_at x)) (sym after)
            (subst (λ x. PhaseStep o absent x) (sym p)
              (subst (λ x. PhaseStep x absent planned) (sym c) plan))))
  | inr g ↦
      let same : find_run i ts ≡ find_run i rs = rw e (find_run-added_other t i rs g) in
      inl (ap phase_at same)
]
Change-step o rs ts n m f (dropped r c h p e l) i = elim (Bool-cases (i == r.id)) [
  | inl g ↦
      let before : find_run i rs ≡ some r = ground (arith, h) in
      let after : find_run i ts ≡ none = rw e (ground (arith, find_run-drop_run_same i rs)) in
      inr (
        subst (λ x. PhaseStep o (phase_at x) (phase i ts)) (sym before)
          (subst (λ x. PhaseStep o (phase_of r.status r.published_at) (phase_at x)) (sym after)
            (subst (λ x. PhaseStep o x absent) (sym p)
              (subst (λ x. PhaseStep x planned absent) (sym c) withdraw))))
  | inr g ↦ inl (ap phase_at (rw e (find_run-drop_run_other r.id i rs g)))
]

-- Fresh identifiers stay fresh.
pub Change-IsFresh :
    (o : Operation) (rs ts : List ProductionRun) (n m : ℕ)
    → IsFresh rs n
    → Change o rs ts n m
    → IsFresh ts m
Change-IsFresh o rs ts n m f (kept e l) i h = rw e (f i (omega arith))
Change-IsFresh o rs ts n m f (moved r t g s w e l) i h =
    let none_yet : find_run i rs ≡ none = f i (omega arith) in
    rw e (find_run-set_run_other t i rs (missing i t.id rs r none_yet g) ∙ none_yet)
Change-IsFresh o rs ts n m f (added t c x p w e q) i h =
    rw e (find_run-added_other t i rs (ground arith) ∙ f i (omega arith))
Change-IsFresh o rs ts n m f (dropped r c g p e l) i h =
    let none_yet : find_run i rs ≡ none = f i (omega arith) in
    rw e (find_run-drop_run_other r.id i rs (missing i r.id rs r none_yet g) ∙ none_yet)

abbrev pub IsOrderly : List ProductionRun → Type 0
IsOrderly rs =
    (i : ℕ) (r : ProductionRun) → find_run i rs ≡ some r → is_orderly r.status r.published_at ≡ true

-- The row that a change wrote, or one that was there.
written_or_old :
    (t r : ProductionRun) (o : Option ProductionRun)
    → is_orderly t.status t.published_at ≡ true
    → o ≡ some t
    → o ≡ some r
    → is_orderly r.status r.published_at ≡ true
written_or_old t r o h e f = cc

-- Orderly runs stay orderly.
pub Change-IsOrderly :
    (o : Operation) (rs ts : List ProductionRun) (n m : ℕ)
    → IsOrderly rs
    → Change o rs ts n m
    → IsOrderly ts
Change-IsOrderly o rs ts n m f (kept e l) i r h = f i r (rw e at h)
Change-IsOrderly o rs ts n m f (moved x t g s w e l) i r h = elim (Bool-cases (i == t.id)) [
  | inl p ↦
      written_or_old t r (find_run i ts) w (rw e (ground (arith, find_run-set_run_same t rs x g))) h
  | inr p ↦ f i r (sym (find_run-set_run_other t i rs p) ∙ (rw e at h))
]
Change-IsOrderly o rs ts n m f (added t c x p w e q) i r h = elim (Bool-cases (t.id == i)) [
  | inl g ↦ written_or_old t r (find_run i ts) w (rw e (find_run-added_same t i rs g)) h
  | inr g ↦ f i r (sym (find_run-added_other t i rs g) ∙ (rw e at h))
]
Change-IsOrderly o rs ts n m f (dropped x c g p e l) i r h = elim (Bool-cases (i == x.id)) [
  | inl q ↦
      let gone : find_run i ts ≡ none = rw e (ground (arith, find_run-drop_run_same i rs)) in
      absurd (cc (gone))
  | inr q ↦ f i r (sym (find_run-drop_run_other x.id i rs q) ∙ (rw e at h))
]
