-- ===== src/Pos/Tax/Rate.antt =====
-- The rates that the tax lookup can answer with.
use mathlib.Core.Path.{subst}
use foodo.Prelude.{
  ℕ, ◌+◌, ◌≡◌, refl, sym, inl, inr, String, Bool, true, false, ◌||◌, ◌&&◌, ◌==◌, ltb, Option, none,
  some, List, [], ◌∷◌, ◌*ℤ◌, Bool-cases, Option-cases, if◌then◌else◌, Result, ok, err,
}
use foodo.Pos.Decimal.{Decimal, decimal_zero, decimal_one, lt}
use foodo.Pos.Tax.{
  Response, unreachable, status_error, not_json, body, DecodeError, CacheEntry, find_entry,
  is_given, read_rate, read_response, keep, fetch_store_tax, get_store_tax, cache_ttl,
}

-- From 0 to 1.
abbrev pub IsRate : Decimal → Type 0
IsRate r = (lt r decimal_zero ≡ false) × (lt decimal_one r ≡ false)

abbrev pub AllRates : List CacheEntry → Type 0
AllRates [] = Unit
AllRates (c ∷ cs) = IsRate c.rate × AllRates cs

zero-IsRate : IsRate decimal_zero
unfolding lt ◌*ℤ◌
zero-IsRate = (refl, refl)

||-false : (b c : Bool) → (b || c) ≡ false → (b ≡ false) × (c ≡ false)
||-false true c h = absurd (cc)
||-false false c h = (refl, h)

if-IsRate :
    (b : Bool) (p q : Bool × Decimal) → IsRate p.1 → IsRate q.1 → IsRate (if b then p else q).1
if-IsRate true p q h k = h
if-IsRate false p q h k = k

-- What is answered, if it is not an exception, is a rate.
abbrev pub AnswersRate : Result DecodeError (Bool × Decimal) → Type 0
AnswersRate (ok p) = IsRate p.1
AnswersRate (err e) = Unit

read_rate-IsRate : (enabled : Bool) (rate : Decimal) → IsRate (read_rate enabled rate).1
unfolding read_rate
read_rate-IsRate enabled rate = elim (Bool-cases (lt rate decimal_zero || lt decimal_one rate)) [
  | inl bad ↦ rw bad zero-IsRate
  | inr fine ↦ rw fine (
      if-IsRate enabled (true, rate) (false, decimal_zero)
        (||-false (lt rate decimal_zero) (lt decimal_one rate) fine) zero-IsRate)
]

read_response-AnswersRate :
    (d : Decimal) (r : Response) → IsRate d → AnswersRate (read_response d r)
unfolding read_response
read_response-AnswersRate d unreachable h = h
read_response-AnswersRate d status_error h = h
read_response-AnswersRate d not_json h = tt
read_response-AnswersRate d (body enabled none) h = h
read_response-AnswersRate d (body enabled (some rate)) h = read_rate-IsRate enabled rate

find_entry-IsRate :
    (b i : ℕ) (cs : List CacheEntry) (c : CacheEntry)
    → AllRates cs
    → find_entry b i cs ≡ some c
    → IsRate c.rate
unfolding find_entry
find_entry-IsRate b i [] c h f = absurd (cc)
find_entry-IsRate b i (x ∷ xs) c h f = elim (Bool-cases (x.business_id == b && x.store_id == i)) [
  | inl e ↦
      let same : some x ≡ some c = simp e at f in
      let k : x ≡ c = cc in subst (λ y. IsRate y.rate) k h.0
  | inr e ↦ find_entry-IsRate b i xs c h.1 (simp e at f)
]

abbrev AreRates : Result DecodeError (Bool × Decimal) × List CacheEntry → Type 0
AreRates p = AnswersRate p.0 × AllRates p.1

if-AnswersRate :
    (b : Bool) (p q : Result DecodeError (Bool × Decimal))
    → AnswersRate p
    → AnswersRate q
    → AnswersRate (if b then p else q)
if-AnswersRate true p q h k = h
if-AnswersRate false p q h k = k

keep-AreRates :
    (now b i : ℕ) (r : Result DecodeError (Bool × Decimal)) (cache : List CacheEntry)
    → AnswersRate r
    → AllRates cache
    → AreRates (keep now b i r cache)
unfolding keep
keep-AreRates now b i (ok p) cache h k = (h, (h, k))
keep-AreRates now b i (err e) cache h k = (tt, k)

module _ (lookup : ℕ → ℕ → ℕ → Option String → Response) (default_rate : Decimal)
    (d : IsRate default_rate) where
  fetch_store_tax-AnswersRate :
      (now b i : ℕ) (a : Option String)
      → AnswersRate (fetch_store_tax lookup default_rate now b i a)
  unfolding fetch_store_tax
  fetch_store_tax-AnswersRate now b i a =
      if-AnswersRate (is_given a) (read_response default_rate (lookup now b i a))
        (ok (false, default_rate)) (read_response-AnswersRate default_rate (lookup now b i a) d) d

  -- If the default rate and the rates in the cache are from 0 to 1 then, whatever the identity service
  -- answers, the rate that a sale is taxed with is so too, unless the look-up raises, and so are the
  -- rates that the cache keeps.
  pub get_store_tax-IsRate :
      (now b i : ℕ) (a : Option String) (cache : List CacheEntry)
      → AllRates cache
      → AnswersRate (get_store_tax lookup default_rate now b i a cache).0
        × AllRates (get_store_tax lookup default_rate now b i a cache).1
  unfolding get_store_tax
  get_store_tax-IsRate now b i a cache h =
      let f = fetch_store_tax lookup default_rate now b i a in
      let r = keep-AreRates now b i f cache (fetch_store_tax-AnswersRate now b i a) h in
      elim (Option-cases (find_entry b i cache)) [
        | inl e ↦
            let q : get_store_tax lookup default_rate now b i a cache ≡ keep now b i f cache =
              rw (get_store_tax, e) in
            subst AreRates (sym q) r
        | inr (hit, e) ↦ elim (Bool-cases (ltb now (hit.stored_at + cache_ttl))) [
          | inl fresh ↦
              let q : get_store_tax lookup default_rate now b i a cache
                  ≡ (ok (hit.enabled, hit.rate), cache) =
                rw (get_store_tax, e, fresh) in
              subst AreRates (sym q) (find_entry-IsRate b i cache hit h e, h)
          | inr old ↦
              let q : get_store_tax lookup default_rate now b i a cache ≡ keep now b i f cache =
                rw (get_store_tax, e, old) in
              subst AreRates (sym q) r
        ]
      ]
