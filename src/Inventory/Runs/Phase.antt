-- ===== src/Inventory/Runs/Phase.antt =====
-- The life of a scheduled run, without the tables: its phases, and the steps between them. The
-- documented states of `RunStatus` and `published_at` in
-- services/inventory-service/app/models/inventory.py, with a phase for a run that is not there.
pub mod Change
pub mod Sound
pub mod Serve
pub mod Create
pub mod Stock
pub mod Stop
pub mod Release
pub mod Refine
use mathlib.Core.Path.{subst}
use foodo.Prelude.{
  ℕ, Bool, Option, none, some, List, ◌≡◌, refl, sym, ◌⊎◌, inl, inr, if◌then◌else◌, is_some,
}
use foodo.Inventory.Production.{
  RunStatus, pending, in_progress, completed, cancelled, ProductionRun, Kitchen,
}
use foodo.Inventory.Runs.{find_run}

pub data Phase : Type 0 where
  absent planned cooking cooked published stopped : Phase

-- The phase of a row.
unfoldable pub phase_of : RunStatus → Option ℕ → Phase
phase_of pending p = planned
phase_of in_progress p = cooking
phase_of completed p = if is_some p then published else cooked
phase_of cancelled p = stopped

unfoldable pub phase_at : Option ProductionRun → Phase
phase_at none = absent
phase_at (some r) = phase_of r.status r.published_at

-- The phase of a run in the table.
abbrev pub phase : ℕ → List ProductionRun → Phase
phase i rs = phase_at (find_run i rs)

-- The operations about runs.
pub data Operation : Type 0 where
  creates starts completes publishes deletes cancels : Operation

-- The steps of the life of a run, each with the operation that takes it.
pub data PhaseStep : Operation → Phase → Phase → Type 0 where
  plan : PhaseStep creates absent planned
  withdraw : PhaseStep deletes planned absent
  stop_planned : PhaseStep cancels planned stopped
  begin_cooking : PhaseStep starts planned cooking
  stop_cooking : PhaseStep cancels cooking stopped
  finish_cooking : PhaseStep completes cooking cooked
  release : PhaseStep publishes cooked published

-- No step, or one of the operation.
abbrev pub AtMostOneStep : Operation → Phase → Phase → Type 0
AtMostOneStep o p q = (q ≡ p) ⊎ PhaseStep o p q
