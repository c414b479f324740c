-- ===== src/Identity/Otp/Fresh.antt =====
-- A new code can be used, and once only.
use foodo.Prelude.{
  ℕ, ◌+◌, ◌≤◌, ◌<◌, leb, ltb, ◌≡◌, refl, ap, ◌∙◌, ◌⊎◌, inl, inr, String, Bool, true, false, ◌&&◌,
  some, List, [], ◌∷◌, ◌++◌, ok, err, Bool-cases, Option-cases, arith,
}
use foodo.Identity.Otp.{
  VerificationCodePurpose, VerificationCodeType, VerificationCode, Otp, otp_code_invalid, is_open,
  invalidate, find_newest, put_newest, new_code, generate_and_store_otp, verify_otp,
}

-- The open codes of a user for a purpose have all expired by this moment.
abbrev AllStale : ℕ → ℕ → VerificationCodePurpose → List VerificationCode → Type 0
AllStale n u p [] = Unit
AllStale n u p (c ∷ cs) = ((is_open u p c ≡ false) ⊎ (c.expires_at ≤ n)) × AllStale n u p cs

used-is_open :
    (u now : ℕ) (p : VerificationCodePurpose) (c : VerificationCode)
    → is_open u p (record c { used_at = some now }) ≡ false
unfolding is_open
used-is_open u now p c = ground arith

invalidate-AllStale :
    (u : ℕ) (p : VerificationCodePurpose) (now : ℕ) (cs : List VerificationCode)
    → AllStale now u p (invalidate u p now cs)
unfolding invalidate
invalidate-AllStale u p now [] = tt
invalidate-AllStale u p now (c ∷ cs) = elim (Bool-cases (is_open u p c && ltb now c.expires_at)) [
  | inl both ↦ rw both (inl (used-is_open u now p c), invalidate-AllStale u p now cs)
  | inr not_both ↦ rw not_both (stale_one u p now c not_both, invalidate-AllStale u p now cs)
]
  where
    stale_one :
        (u : ℕ) (p : VerificationCodePurpose) (now : ℕ) (c : VerificationCode)
        → (is_open u p c && ltb now c.expires_at) ≡ false
        → (is_open u p c ≡ false) ⊎ (c.expires_at ≤ now)
    stale_one u p now c h = elim (Bool-cases (is_open u p c)) [
      | inl o ↦ inr (ground arith)
      | inr o ↦ inl o
    ]

find_newest-AllStale :
    (n u : ℕ) (p : VerificationCodePurpose) (cs : List VerificationCode) (c : VerificationCode)
    → AllStale n u p cs
    → find_newest u p cs ≡ some c
    → c.expires_at ≤ n
unfolding find_newest
find_newest-AllStale n u p [] c h f = absurd (cc)
find_newest-AllStale n u p (x ∷ xs) c h f = ground (arith, find_newest-AllStale n u p xs c h.1)

find_newest-head :
    (u : ℕ) (p : VerificationCodePurpose) (c : VerificationCode) (cs : List VerificationCode)
    → is_open u p c ≡ true
    → find_newest u p (c ∷ cs) ≡ some c
unfolding find_newest
find_newest-head u p c cs o = rw o refl

put_newest-head :
    (u : ℕ) (p : VerificationCodePurpose) (c d : VerificationCode) (cs : List VerificationCode)
    → is_open u p c ≡ true
    → put_newest u p d (c ∷ cs) ≡ d ∷ cs
unfolding put_newest
put_newest-head u p c d cs o = rw o refl

module _ (hash : String → String) (matches : String → String → Bool)
    (validity max_attempts : ℕ) where
  verify_otp-AllStale :
      (n u : ℕ) (p : VerificationCodePurpose) (guess : String) (now : ℕ) (s : Otp)
      → AllStale n u p s.codes
      → n < now
      → (verify_otp hash matches validity max_attempts u p guess now s).0 ≡ err otp_code_invalid
  unfolding verify_otp
  verify_otp-AllStale n u p guess now s h lt = elim (Option-cases (find_newest u p s.codes)) [
    | inl e ↦ rw (e, verify_otp) refl
    | inr (c, e) ↦
        let old = find_newest-AllStale n u p s.codes c h e in
        let expired : ltb c.expires_at now ≡ true = ground arith in rw (e, verify_otp, expired) refl
  ]

  verify_otp-right :
      (u : ℕ) (p : VerificationCodePurpose) (code : String) (now : ℕ) (s : Otp)
      (c : VerificationCode)
      → find_newest u p s.codes ≡ some c
      → ltb c.expires_at now ≡ false
      → leb max_attempts c.attempts ≡ false
      → matches code c.code_hash ≡ true
      → verify_otp hash matches validity max_attempts u p code now s
        ≡ (ok true, record s { codes = put_newest u p (record c { used_at = some now }) s.codes })
  unfolding verify_otp
  verify_otp-right u p code now s c f fresh left law = rw (f, verify_otp, fresh, left, law)

  new_code-is_open :
      (u : ℕ) (p : VerificationCodePurpose) (d : VerificationCodeType) (code : String) (now : ℕ)
      → is_open u p (new_code hash matches validity max_attempts u p d code now) ≡ true
  unfolding is_open
  new_code-is_open u p d code now = ground arith

  verify_otp-new :
      (u : ℕ) (p : VerificationCodePurpose) (d : VerificationCodeType) (code : String)
      (now now' : ℕ) (cs : List VerificationCode)
      (out : List (ℕ × VerificationCodePurpose × VerificationCodeType))
      → matches code (hash code) ≡ true
      → 0 < max_attempts
      → now' ≤ now + validity
      → let c = new_code hash matches validity max_attempts u p d code now in
        verify_otp hash matches validity max_attempts u p code now'
          (record { codes = c ∷ cs; outbox = out })
        ≡ (ok true, record { codes = record c { used_at = some now' } ∷ cs; outbox = out })
  verify_otp-new u p d code now now' cs out law some_attempt valid =
      let c = new_code hash matches validity max_attempts u p d code now in
      let s : Otp = record { codes = c ∷ cs; outbox = out } in
      let o = new_code-is_open u p d code now in
      verify_otp-right u p code now' s c (find_newest-head u p c cs o) (ground arith) (ground arith)
        law
      ∙ ap (λ (xs : List VerificationCode). (ok true, record s { codes = xs }))
          (put_newest-head u p c (record c { used_at = some now' }) cs o)

  -- A code that was generated is accepted while it is valid, with any number of attempts allowed but
  -- none; and after that no text is accepted for the user and the purpose, at any later moment than that
  -- of its generation, until another code is generated.
  pub generated_used_once :
      (u : ℕ) (p : VerificationCodePurpose) (d : VerificationCodeType) (code guess : String)
      (now now' now'' : ℕ) (s : Otp)
      → matches code (hash code) ≡ true
      → 0 < max_attempts
      → now' ≤ now + validity
      → now < now''
      → let t = (generate_and_store_otp hash matches validity max_attempts u p d code now s).1 in
        let r = verify_otp hash matches validity max_attempts u p code now' t in
        (r.0 ≡ ok true)
        × ((verify_otp hash matches validity max_attempts u p guess now'' r.1).0
            ≡ err otp_code_invalid)
  unfolding generate_and_store_otp
  generated_used_once u p d code guess now now' now'' s law some_attempt valid later =
      let c = new_code hash matches validity max_attempts u p d code now in
      let cs = invalidate u p now s.codes in
      let used : VerificationCode = record c { used_at = some now' } in
      let t : Otp = record { codes = c ∷ cs; outbox = s.outbox ++ (u, p, d) ∷ [] } in
      let q = verify_otp-new u p d code now now' cs t.outbox law some_attempt valid in
      rw q (
        refl,
        verify_otp-AllStale now u p guess now'' (record { codes = used ∷ cs; outbox = t.outbox })
            (inl (used-is_open u now' p c), invalidate-AllStale u p now s.codes) later,
      )
