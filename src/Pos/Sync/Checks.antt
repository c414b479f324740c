-- ===== src/Pos/Sync/Checks.antt =====
-- The checks of a sale read the session and never write it.
use foodo.Prelude.{
  ℕ, ◌≡◌, refl, ap, ◌∙◌, ◌⊎◌, inl, inr, Bool, true, false, Option, none, some, Result, ok, err,
  Exec, continue, pure, raise, ◌==◌, if◌then◌else◌, ◌>>=◌, ◌>>◌, raise_if, is_some, not,
}
use foodo.Pos.Decimal.{quantize}
use foodo.Pos.Model.{
  Session, PosError, courier_not_allowed, address_not_allowed, phone_not_allowed, note_not_allowed,
  fee_not_allowed, address_required, reason_required, courier_inactive, courier_unknown,
  customer_deleted, customer_unknown, Courier, Customer, OrderType, delivery, dine_in, takeaway,
}
use foodo.Pos.Couriers.{find_courier, check_courier, validate_courier_for_sale}
use foodo.Pos.Sync.Validate.{
  SaleSyncInput, is_nonzero, is_filled, needs_reason, find_customer, check_customer,
  validate_customer, validate_courier, validate_no_delivery, validate_delivery, validate_sale,
}

-- A method that leaves the state as it is.
abbrev Keeps : {A : Type 0} → Exec Session PosError A → Type 0
Keeps m = (s : Session) → (m s).1 ≡ s

continue-Keeps :
    {A B : Type 0} (r : Result PosError A) (k : A → Exec Session PosError B) (s s' : Session)
    → s' ≡ s
    → ((a : A) → Keeps (k a))
    → (continue r k s').1 ≡ s
continue-Keeps (ok a) k s s' e h = h a s' ∙ e
continue-Keeps (err x) k s s' e h = e

>>=-Keeps :
    {A B : Type 0} (m : Exec Session PosError A) (k : A → Exec Session PosError B)
    → Keeps m
    → ((a : A) → Keeps (k a))
    → Keeps (m >>= k)
>>=-Keeps m k h l s = continue-Keeps (m s).0 k s (m s).1 (h s) l

raise_if-Keeps : (b : Bool) (e : PosError) → Keeps (raise_if b e)
raise_if-Keeps true e s = refl
raise_if-Keeps false e s = refl

if-Keeps :
    {A : Type 0} (b : Bool) (m n : Exec Session PosError A)
    → Keeps m
    → Keeps n
    → Keeps (if b then m else n)
if-Keeps true m n h k = h
if-Keeps false m n h k = k

check_courier-Keeps : (b : ℕ) (o : Option Courier) → Keeps (check_courier b o)
unfolding check_courier
check_courier-Keeps b none = λ s. refl
check_courier-Keeps b (some c) =
    if-Keeps (c.business_id == b) (if c.is_active then pure c else raise courier_inactive)
      (raise courier_unknown)
      (if-Keeps c.is_active (pure c) (raise courier_inactive) (λ s. refl) (λ s. refl)) (λ s. refl)

check_customer-Keeps : (b : ℕ) (o : Option Customer) → Keeps (check_customer b o)
unfolding check_customer
check_customer-Keeps b none = λ s. refl
check_customer-Keeps b (some c) =
    if-Keeps (c.business_id == b) (if c.is_deleted then raise customer_deleted else pure tt)
      (raise customer_unknown)
      (if-Keeps c.is_deleted (raise customer_deleted) (pure tt) (λ s. refl) (λ s. refl)) (λ s. refl)

pub validate_customer-Keeps : (b : ℕ) (o : Option ℕ) → Keeps (validate_customer b o)
unfolding validate_customer
validate_customer-Keeps b none s = refl
validate_customer-Keeps b (some i) s = check_customer-Keeps b (find_customer i s.customers) s

validate_courier-Keeps : (b : ℕ) (o : Option ℕ) → Keeps (validate_courier b o)
unfolding validate_courier validate_courier_for_sale
validate_courier-Keeps b none = λ s. refl
validate_courier-Keeps b (some i) =
    >>=-Keeps (validate_courier_for_sale b i) (λ _. pure tt)
      (λ s. check_courier-Keeps b (find_courier i s.couriers) s) (λ _ s. refl)

result-cases :
    (p : Result PosError (Unit {0}) × Session) (s : Session)
    → p.1 ≡ s
    → (p ≡ (ok tt, s)) ⊎ ((e : PosError) × (p ≡ (err e, s)))
result-cases (ok tt, s') s h = inl (ap (λ x. (ok tt, x)) h)
result-cases (err e, s') s h = inr (e, ap (λ x. (err e, x)) h)

module _ (i : SaleSyncInput) where
  then-Keeps :
      {A : Type 0} (b : Bool) (e : PosError) (m : Exec Session PosError A)
      → Keeps m
      → Keeps (raise_if b e >> m)
  then-Keeps b e m h = >>=-Keeps (raise_if b e) (λ _. m) (raise_if-Keeps b e) (λ _. h)

  validate_no_delivery-Keeps : Keeps (validate_no_delivery i)
  unfolding validate_no_delivery
  validate_no_delivery-Keeps = then-Keeps (is_some i.courier_id) courier_not_allowed _ (
      then-Keeps (is_some i.delivery_address_line1) address_not_allowed _ (
        then-Keeps (is_some i.delivery_recipient_phone) phone_not_allowed _ (
          then-Keeps (is_some i.delivery_note) note_not_allowed _
            (raise_if-Keeps (is_nonzero (quantize 2 i.delivery_fee)) fee_not_allowed))))

  validate_delivery-Keeps : (b : ℕ) (o : OrderType) → Keeps (validate_delivery b o i)
  unfolding validate_delivery
  validate_delivery-Keeps b delivery =
      then-Keeps (not (is_filled i.delivery_address_line1)) address_required
        (validate_courier b i.courier_id) (validate_courier-Keeps b i.courier_id)
  validate_delivery-Keeps b dine_in = validate_no_delivery-Keeps
  validate_delivery-Keeps b takeaway = validate_no_delivery-Keeps

  pub validate_sale-Keeps : (b : ℕ) → Keeps (validate_sale b i)
  unfolding validate_sale
  validate_sale-Keeps b =
      then-Keeps (needs_reason i.status i.void_or_refund_reason) reason_required
        (validate_customer b i.customer_id >> validate_delivery b i.order_type i)
        (>>=-Keeps (validate_customer b i.customer_id) (λ _. validate_delivery b i.order_type i)
          (validate_customer-Keeps b i.customer_id) (λ _. validate_delivery-Keeps b i.order_type))

  pub validate_sale-cases :
      (b : ℕ) (s : Session)
      → (validate_sale b i s ≡ (ok tt, s)) ⊎ ((e : PosError) × (validate_sale b i s ≡ (err e, s)))
  validate_sale-cases b s = result-cases (validate_sale b i s) s (validate_sale-Keeps b s)
