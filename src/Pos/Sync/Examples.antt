-- ===== src/Pos/Sync/Examples.antt =====
-- Runs of the synchronisation at concrete batches.
use mathlib.Core.Path.{subst}
use foodo.Prelude.{
  ℕ, ℤ, pos, String, ◌≡◌, ◌≢◌, refl, sym, ◌∙◌, ◌*ℤ◌, ◌+ℤ◌, ◌-ℤ◌, Bool, true, false, Option, none,
  some, List, [], ◌∷◌, map, Result, ok, err, ◌==◌, if◌then◌else◌,
}
use foodo.Pos.Decimal.{decimal_zero, round_half_even, add, sub, mul, lt}
use foodo.Pos.Tax.{Response, not_json, DecodeError, json_decode_error, body, get_store_tax}
use foodo.Pos.Model.{Sale, Tables, completed, cash, takeaway, courier_not_allowed}
use foodo.Pos.Sync.{SyncStatus, created, duplicate, failed, sync_sale, sync_sale_batch}
use foodo.Pos.Sync.Validate.{SaleLineItemInput, SaleSyncInput}
use foodo.Pos.Sync.Create.{Till, sale_of, add_sale, create_sale}
use foodo.Pos.Delivery.Rows.{All}
use foodo.Pos.Tax.Rate.{AnswersRate, AllRates, get_store_tax-IsRate}
use foodo.Pos.Sync.Whole.{IsWhole, sync_sale_batch-IsWhole}
use foodo.Pos.Sync.Sound.{IsSound, sync_sale_batch-IsSound}
use foodo.Pos.Sync.Clients.{UniqueClients, AllCreated}
use foodo.Pos.Sync.Batch.{
  sync_sale_not_created, sync_sale_batch-UniqueClients, resync_changes_nothing,
}

-- Every store has a tax of 18 %.
abbrev tax_of_18 : ℕ → ℕ → ℕ → Option String → Response
tax_of_18 now business_id store_id authorization =
    body true (some (record { coefficient = pos 18; places = 2 }))

-- The answer for the second store is no JSON.
abbrev broken_at_3 : ℕ → ℕ → ℕ → Option String → Response
broken_at_3 now business_id store_id authorization =
    if store_id == 3
    then not_json
    else body true (some (record { coefficient = pos 18; places = 2 }))

abbrev accepts : Sale → Tables → Bool
accepts v rows = false

abbrev soup : SaleLineItemInput
soup = record {
  item_id = 3;
  quantity = record { coefficient = pos 15; places = 1 };
  unit_price = record { coefficient = pos 333; places = 2 };
  discount_amount = decimal_zero;
  unit_cost = none;
}

abbrev lunch : SaleSyncInput
lunch = record {
  client_sale_id = "till-1";
  status = completed;
  store_id = 2;
  line_items = soup ∷ [];
  discount_amount = decimal_zero;
  payment_method = cash;
  customer_id = none;
  occurred_at = 1000;
  device_sequence = none;
  void_or_refund_reason = none;
  order_type = takeaway;
  courier_id = none;
  delivery_address_line1 = none;
  delivery_recipient_phone = none;
  delivery_note = none;
  delivery_fee = decimal_zero;
}

abbrev dinner : SaleSyncInput
dinner = record lunch { client_sale_id = "till-2" }

abbrev bad_lunch : SaleSyncInput
bad_lunch = record lunch { client_sale_id = "till-3"; courier_id = some 7 }

abbrev no_rows : Tables
no_rows = record { sales = []; line_items = []; customers = []; couriers = []; next_id = 1 }

abbrev till : Till
till = record { db = record { rows = no_rows; committed = no_rows; outbox = [] }; tax_cache = [] }

abbrev one_broken : List (ℕ × SaleSyncInput)
one_broken = (1000, lunch) ∷ (1001, record dinner { store_id = 3 }) ∷ []

-- The first sale of the batch is created, the look-up for the second raises: no sale is kept, and the
-- message about the first is out.
one_broken-raises :
    let (r, t) =
      sync_sale_batch broken_at_3 decimal_zero accepts 1 none (some "token") one_broken till in
    (r ≡ err json_decode_error) × (t.db.sales ≡ []) × (map {B = ℕ} (λ m. 1) t.db.outbox ≡ 1 ∷ [])
unfolding sync_sale_batch ◌*ℤ◌ round_half_even sale_of add_sale get_store_tax
one_broken-raises = (refl, refl, refl)

sync_sale_batch-IsWhole_example :
    IsWhole one_broken till
      (sync_sale_batch broken_at_3 decimal_zero accepts 1 none (some "token") one_broken till)
sync_sale_batch-IsWhole_example =
    sync_sale_batch-IsWhole broken_at_3 decimal_zero accepts 1 none (some "token") one_broken till

failed_is_not_created :
    ◌≢◌ {A = Result DecodeError SyncStatus} (ok (failed courier_not_allowed)) (ok created)
failed_is_not_created e = cc

abbrev two_meals : List (ℕ × SaleSyncInput)
two_meals = (1000, lunch) ∷ (1001, dinner) ∷ []

two_meals_created :
    (sync_sale_batch tax_of_18 decimal_zero accepts 1 none (some "token") two_meals till).0
    ≡ ok (
        record { client_sale_id = "till-1"; status = created }
        ∷ record { client_sale_id = "till-2"; status = created }
        ∷ [])
unfolding sync_sale_batch ◌*ℤ◌ round_half_even sale_of add_sale get_store_tax
two_meals_created = refl

-- 1.5 at 3.33 is 4.995: the amounts are rounded one by one, 5.00 and a tax of 0.90, and the total of
-- 5.8941 is 5.89.
lunch_amounts :
    map {B = ℤ × ℤ × ℤ}
      (λ v. (v.subtotal, v.tax_amount, v.total))
      (sync_sale_batch tax_of_18 decimal_zero accepts 1 none
        (some "token")
        two_meals
        till).1.db.sales
    ≡ (pos 500, pos 90, pos 589) ∷ (pos 500, pos 90, pos 589) ∷ []
unfolding sync_sale_batch ◌*ℤ◌ round_half_even sale_of add_sale add sub mul lt get_store_tax ◌+ℤ◌
    ◌-ℤ◌
lunch_amounts = refl

bad_lunch_failed :
    (sync_sale tax_of_18 decimal_zero accepts 1 none none 1000 bad_lunch till).0
    ≡ ok (failed courier_not_allowed)
unfolding sync_sale create_sale
bad_lunch_failed = refl

sync_sale_not_created_example :
    (sync_sale tax_of_18 decimal_zero accepts 1 none none 1000 bad_lunch till).1.db ≡ till.db
sync_sale_not_created_example =
    sync_sale_not_created tax_of_18 decimal_zero accepts 1 none none 1000 bad_lunch till
      (λ e. failed_is_not_created (sym bad_lunch_failed ∙ e))

sync_sale_batch-UniqueClients_example :
    UniqueClients
      (sync_sale_batch tax_of_18 decimal_zero accepts 1 none
        (some "token")
        two_meals
        till).1.db.sales
sync_sale_batch-UniqueClients_example =
    sync_sale_batch-UniqueClients tax_of_18 decimal_zero accepts 1 none (some "token") two_meals
      till tt

two_meals-AllCreated :
    AllCreated
      (sync_sale_batch tax_of_18 decimal_zero accepts 1 none (some "token") two_meals till).0
two_meals-AllCreated = subst AllCreated (sym two_meals_created) (refl, (refl, tt))

-- Another business sends the batch again, a day later.
resync_changes_nothing_example :
    let t =
      (sync_sale_batch tax_of_18 decimal_zero accepts 1 none (some "token") two_meals till).1 in
    sync_sale_batch tax_of_18 decimal_zero accepts 4
      (some 6)
      none
      ((86400000000, lunch) ∷ (86400000001, dinner) ∷ [])
      t
    ≡ (
      ok (
          record { client_sale_id = "till-1"; status = duplicate }
          ∷ record { client_sale_id = "till-2"; status = duplicate }
          ∷ []),
      t,
    )
resync_changes_nothing_example =
    resync_changes_nothing tax_of_18 decimal_zero accepts 1 4 none (some 6) (some "token") none
      two_meals ((86400000000, lunch) ∷ (86400000001, dinner) ∷ []) till refl two_meals-AllCreated

sync_sale_batch-IsSound_example :
    All IsSound
      (sync_sale_batch tax_of_18 decimal_zero accepts 1 none
        (some "token")
        two_meals
        till).1.db.sales
sync_sale_batch-IsSound_example =
    sync_sale_batch-IsSound tax_of_18 decimal_zero accepts 1 none (some "token") two_meals till tt

get_store_tax-IsRate_example :
    AnswersRate (get_store_tax tax_of_18 decimal_zero 1000 1 2 (some "token") []).0
    × AllRates (get_store_tax tax_of_18 decimal_zero 1000 1 2 (some "token") []).1
unfolding lt ◌*ℤ◌
get_store_tax-IsRate_example =
    get_store_tax-IsRate tax_of_18 decimal_zero (refl, refl) 1000 1 2 (some "token") [] tt
