-- ===== src/Pos/History/Closed.antt =====
-- A sale is corrected at most once, however the requests to the service go.
use foodo.Prelude.{ℕ, ◌≡◌, ◌≢◌, ◌∙◌, Option, none, some, List, err}
use foodo.Pos.Model.{Sale, completed, Session, invalid_state}
use foodo.Pos.Delivery.{find_sale}
use foodo.Pos.Delivery.Rows.{UniqueIds}
use foodo.Pos.Void.{
  Correction, void, refund, VoidRefundRequest, find_action, status_of, void_or_refund_sale,
}
use foodo.Pos.Void.Once.{void_or_refund_sale-closed}
use foodo.Pos.History.{Request, run}
use foodo.Pos.History.Sales.{run-settled}

status_of-closed : (c : Correction) → status_of c ≢ completed
status_of-closed void h = cc
status_of-closed refund h = cc

-- A sale of a table with different ids that is voided or refunded, by whatever request or at its synchronisation, is
-- refused to every request with a new action id, now and after every sequence of requests to the
-- sale service: the request gets the status that the sale had at first, and changes nothing.
pub corrected_once :
    (business_id sale_id : ℕ) (qs : List Request) (s : Session) (v : Sale) (c : Correction)
    → UniqueIds s.sales
    → find_sale business_id sale_id s.sales ≡ some v
    → v.status ≡ status_of c
    → (actor_id : Option ℕ) (r : VoidRefundRequest) (now : ℕ)
    → find_action r.client_action_id (run qs s).sales ≡ none
    → void_or_refund_sale business_id sale_id actor_id r now (run qs s)
      ≡ (err (invalid_state (status_of c)), run qs s)
corrected_once b i qs s v c u f e actor r now fresh =
    let settled = run-settled b i qs s v u f (λ h. status_of-closed c (cc)) in
    void_or_refund_sale-closed b i actor r now (run qs s) settled.0 c fresh settled.1
      (settled.3 ∙ e)
