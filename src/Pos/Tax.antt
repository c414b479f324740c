-- ===== src/Pos/Tax.antt =====
-- services/pos-service/app/services/tax_policy.py: the tax rate of a store, looked up at the identity
-- service and kept for a minute.
pub mod Rate
use foodo.Prelude.{
  ℕ, ◌+◌, String, Bool, true, false, not, ◌&&◌, ◌||◌, Option, none, some, List, [], ◌∷◌, ◌==◌, ltb,
  if◌then◌else◌, Exec, Result, ok, err,
}
use text.Mathlib.Text.{◌==◌ as str_eq}
use foodo.Pos.Decimal.{Decimal, decimal_zero, decimal_one, lt}

-- What a call of the identity service comes to: no answer, a status of 400 or more, a body that is no
-- JSON, or a JSON body. The rate is none where the body is no object or its rate is no number.
pub data Response : Type 0 where
  unreachable status_error not_json : Response
  body : Bool → Option Decimal → Response

-- What `response.json()` raises, which nothing catches.
pub data DecodeError : Type 0 where
  json_decode_error : DecodeError

pub record CacheEntry : Type 0 where
  pub business_id : ℕ
  pub store_id : ℕ
  pub stored_at : ℕ
  pub enabled : Bool
  pub rate : Decimal

-- A minute, in microseconds.
abbrev pub cache_ttl : ℕ
cache_ttl = 60000000

unfoldable pub find_entry : ℕ → ℕ → List CacheEntry → Option CacheEntry
find_entry business_id store_id [] = none
find_entry business_id store_id (c ∷ cs) =
    if c.business_id == business_id && c.store_id == store_id
    then some c
    else find_entry business_id store_id cs

-- Without a header, or with an empty one, there is no call.
unfoldable pub is_given : Option String → Bool
is_given none = false
is_given (some t) = not (str_eq t "")

unfoldable pub read_rate : Bool → Decimal → Bool × Decimal
read_rate enabled rate =
    if lt rate decimal_zero || lt decimal_one rate
    then (false, decimal_zero)
    else if enabled
    then (true, rate)
    else (false, decimal_zero)

unfoldable pub read_response : Decimal → Response → Result DecodeError (Bool × Decimal)
unfolding read_rate
read_response default_rate unreachable = ok (false, default_rate)
read_response default_rate status_error = ok (false, default_rate)
read_response default_rate not_json = err json_decode_error
read_response default_rate (body enabled none) = ok (false, default_rate)
read_response default_rate (body enabled (some rate)) = ok (read_rate enabled rate)

-- What was fetched, kept in the cache unless it raised.
unfoldable pub keep :
    ℕ
    → ℕ
    → ℕ
    → Result DecodeError (Bool × Decimal)
    → Exec (List CacheEntry) DecodeError (Bool × Decimal)
keep now business_id store_id (err e) cache = (err e, cache)
keep now business_id store_id (ok (enabled, rate)) cache = (
  ok (enabled, rate),
  record {
    business_id = business_id;
    store_id = store_id;
    stored_at = now;
    enabled = enabled;
    rate = rate;
  }
      ∷ cache,
)

-- The identity service, and the rate of the settings.
module _ (lookup : ℕ → ℕ → ℕ → Option String → Response) (default_rate : Decimal) where
  unfoldable pub fetch_store_tax : ℕ → ℕ → ℕ → Option String → Result DecodeError (Bool × Decimal)
  unfolding is_given read_response
  fetch_store_tax now business_id store_id authorization =
      if is_given authorization
      then read_response default_rate (lookup now business_id store_id authorization)
      else ok (false, default_rate)

  -- A fresh entry answers; otherwise the answer is fetched and kept.
  unfoldable pub get_store_tax :
      ℕ → ℕ → ℕ → Option String → Exec (List CacheEntry) DecodeError (Bool × Decimal)
  unfolding find_entry fetch_store_tax keep
  get_store_tax now business_id store_id authorization cache =
      let fetched = fetch_store_tax now business_id store_id authorization in
      elim (find_entry business_id store_id cache) [
        | none ↦ keep now business_id store_id fetched cache
        | some hit ↦
            if ltb now (hit.stored_at + cache_ttl)
            then (ok (hit.enabled, hit.rate), cache)
            else keep now business_id store_id fetched cache
      ]
