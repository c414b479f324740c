-- ===== src/Inventory/Legs.antt =====
-- Several movements in one transaction: the loops over `record_movement(..., commit=False)` of
-- services/inventory-service/app/services/production_service.py.
pub mod Effect
pub mod Run
use foodo.Prelude.{List, [], ◌∷◌, Exec, pure, ◌>>=◌, ◌>>◌}
use foodo.Inventory.Model.{Session}
use foodo.Inventory.Rules.{MoveError}
use foodo.Inventory.Movement.{Move, record_movement}

unfoldable pub perform_legs : List Move → Exec Session MoveError (Unit {0})
perform_legs [] = pure tt
perform_legs (m ∷ ms) = do record_movement m; perform_legs ms
