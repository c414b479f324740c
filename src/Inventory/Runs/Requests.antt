-- ===== src/Inventory/Runs/Requests.antt =====
-- The requests about runs: services/inventory-service/app/api/v1/endpoints/runs.py over
-- services/inventory-service/app/services/run_service.py, after the checks of the token and of the
-- store, which only read. The session of a request that raises is closed
-- without a commit (services/inventory-service/app/core/database.py), so what waits for one is lost.
use Prim.Native.Char.{Char}
use foodo.Prelude.{ℕ, ℤ, String, Bool, Option, List, [], ◌∷◌, Exec, pure, ◌>>◌}
use foodo.Inventory.Production.{Kitchen, KitchenError, or_rollback}
use foodo.Inventory.Runs.{complete_run, delete_run}
use foodo.Inventory.Runs.Plan.{RunCreate, create_run}
use foodo.Inventory.Runs.Start.{RunStart, start_run}
use foodo.Inventory.Runs.Cancel.{cancel_run}
use foodo.Inventory.Runs.Publish.{publish_run}

-- The request with what it sends.
pub data Request : Type 0 where
  create : Option ℕ → RunCreate → Request
  start : ℕ → Option ℕ → RunStart → Request
  complete : ℕ → ℤ → Option String → Request
  publish : ℕ → Option ℕ → Request
  delete : ℕ → Request
  cancel : ℕ → Option String → Option ℕ → Request

module _ (uuid_text : ℕ → String) (is_space : Char → Bool) where
  -- The call at a moment, for a business.
  unfoldable pub perform : ℕ → ℕ → Request → Exec Kitchen KitchenError (Unit {0})
  perform now b (create actor_id body) = create_run b actor_id body >> pure tt
  perform now b (start i actor_id body) = start_run uuid_text now b i actor_id body >> pure tt
  perform now b (complete i actual waste_reason) =
      complete_run is_space now b i actual waste_reason >> pure tt
  perform now b (publish i actor_id) = publish_run uuid_text now b i actor_id >> pure tt
  perform now b (delete i) = delete_run b i
  perform now b (cancel i reason actor_id) =
      cancel_run uuid_text is_space now b i reason actor_id >> pure tt

  -- The database after the request.
  unfoldable pub serve : ℕ → ℕ → Request → Kitchen → Kitchen
  unfolding perform or_rollback
  serve now b r k = (or_rollback (perform now b r) k).1

  -- Requests, each with its moment and its business.
  unfoldable pub serve_all : List (ℕ × ℕ × Request) → Kitchen → Kitchen
  unfolding serve
  serve_all [] k = k
  serve_all (r ∷ rs) k = serve_all rs (serve r.0 r.1 r.2 k)
