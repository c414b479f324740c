-- ===== src/Pos/Couriers/Manage.antt =====
-- Creating, reading, updating and deleting couriers, in
-- services/pos-service/app/services/courier_service.py. The unique index on business and phone never
-- refuses what the selects let through, since the model has one transaction at a time.
pub mod Phones
pub mod Requests
mod Examples
use text.Mathlib.Text.{◌==◌ as str_eq}
use foodo.Prelude.{
  ℕ, suc, String, Bool, true, false, not, ◌&&◌, ◌||◌, Option, none, some, List, [], ◌∷◌, ◌==◌,
  if◌then◌else◌, Exec, ok, pure, gets, or_raise, raise_if, modify, ◌>>=◌, ◌>>◌,
}
use foodo.Pos.Model.{Sale, Courier, Tables, Session, PosError, courier_not_found, courier_conflict}

-- What a client sends. In an update, a field is unset, null or a value.
pub record CourierCreate : Type 0 where
  pub name : String
  pub phone : String
  pub vehicle : Option String
  pub is_active : Bool

pub record CourierUpdate : Type 0 where
  pub name : Option (Option String)
  pub phone : Option (Option String)
  pub vehicle : Option (Option String)
  pub is_active : Option (Option Bool)

unfoldable pub has_phone : ℕ → String → Courier → Bool
has_phone b phone c = c.business_id == b && str_eq c.phone phone

-- The select for a courier of the business with this phone.
unfoldable pub is_in_use : ℕ → String → List Courier → Bool
is_in_use b phone [] = false
is_in_use b phone (c ∷ cs) = has_phone b phone c || is_in_use b phone cs

unfoldable pub is_courier : ℕ → ℕ → Courier → Bool
is_courier b i c = c.id == i && c.business_id == b

unfoldable pub find_own_courier : ℕ → ℕ → List Courier → Option Courier
find_own_courier b i [] = none
find_own_courier b i (c ∷ cs) = if is_courier b i c then some c else find_own_courier b i cs

unfoldable pub courier_of : ℕ → ℕ → Option ℕ → CourierCreate → Courier
courier_of id b actor_id payload = record {
  id = id;
  business_id = b;
  name = payload.name;
  phone = payload.phone;
  vehicle = payload.vehicle;
  is_active = payload.is_active;
  actor_id = actor_id;
}

unfoldable pub commit_couriers : List Courier → Session → Session
commit_couriers cs s =
    let rows : Tables = record s.rows { couriers = cs } in
    record s { rows = rows; committed = rows }

unfoldable pub insert_courier : ℕ → Option ℕ → CourierCreate → Exec Session PosError Courier
insert_courier b actor_id payload s =
    let c = courier_of s.next_id b actor_id payload in
    let rows : Tables = record s.rows { couriers = c ∷ s.couriers; next_id = suc s.next_id } in
    (ok c, record s { rows = rows; committed = rows })

unfoldable pub create_courier : ℕ → Option ℕ → CourierCreate → Exec Session PosError Courier
create_courier b actor_id payload = do
  existing ← gets (λ s. is_in_use b payload.phone s.couriers)
  raise_if existing (courier_conflict payload.phone)
  insert_courier b actor_id payload

unfoldable pub get_courier : ℕ → ℕ → Exec Session PosError Courier
get_courier b i = do
  found ← gets (λ s. find_own_courier b i s.couriers)
  or_raise found (courier_not_found i)

-- `update_data.get("phone")`
abbrev pub sent : {A : Type 0} → Option (Option A) → Option A
sent none = none
sent (some v) = v

abbrev pub set_to : {A : Type 0} → Option (Option A) → A → A
set_to none a = a
set_to (some none) a = a
set_to (some (some v)) a = v

abbrev is_null : {A : Type 0} → Option (Option A) → Bool
is_null none = false
is_null (some none) = true
is_null (some (some v)) = false

-- The new phone is another courier's.
unfoldable pub is_clash : ℕ → Courier → Option String → List Courier → Bool
is_clash b c none cs = false
is_clash b c (some phone) cs = not (str_eq phone c.phone) && is_in_use b phone cs

-- A null in a column that holds no null: the flush fails.
unfoldable pub is_refused : CourierUpdate → Bool
is_refused patch = is_null patch.name || is_null patch.phone || is_null patch.is_active

unfoldable pub patched : CourierUpdate → Courier → Courier
patched patch c = record c {
  name = set_to patch.name c.name;
  phone = set_to patch.phone c.phone;
  vehicle = elim patch.vehicle [ none ↦ c.vehicle | some v ↦ v ];
  is_active = set_to patch.is_active c.is_active;
}

-- The row of the courier that was found is written.
unfoldable pub put_courier : ℕ → ℕ → Courier → List Courier → List Courier
put_courier b i y [] = []
put_courier b i y (c ∷ cs) = if is_courier b i c then y ∷ cs else c ∷ put_courier b i y cs

unfoldable pub update_courier : ℕ → ℕ → CourierUpdate → Exec Session PosError Courier
update_courier b i patch = do
  courier ← get_courier b i
  clash ← gets (λ s. is_clash b courier (sent patch.phone) s.couriers)
  raise_if clash (courier_conflict (set_to patch.phone courier.phone))
  raise_if (is_refused patch) (courier_conflict courier.phone)
  modify (λ s. commit_couriers (put_courier b i (patched patch courier) s.couriers) s)
  pure (patched patch courier)

unfoldable pub drop_courier : ℕ → ℕ → List Courier → List Courier
drop_courier b i [] = []
drop_courier b i (c ∷ cs) = if is_courier b i c then cs else c ∷ drop_courier b i cs

-- `ON DELETE SET NULL` of `sales.courier_id`
unfoldable pub unlink : ℕ → List Sale → List Sale
unlink i [] = []
unlink i (x ∷ xs) = elim x.courier_id [
  | none ↦ x ∷ unlink i xs
  | some j ↦ (if j == i then record x { courier_id = none } else x) ∷ unlink i xs
]

unfoldable pub delete_row : ℕ → ℕ → Session → Session
delete_row b i s =
    let rows : Tables = record s.rows {
      couriers = drop_courier b i s.couriers;
      sales = unlink i s.sales;
    } in
    record s { rows = rows; committed = rows }

unfoldable pub delete_courier : ℕ → ℕ → Exec Session PosError (Unit {0})
delete_courier b i = do get_courier b i; modify (delete_row b i)
