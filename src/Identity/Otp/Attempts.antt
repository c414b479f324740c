-- ===== src/Identity/Otp/Attempts.antt =====
-- How often a code can be guessed.
use mathlib.Core.Path.{subst}
use foodo.Prelude.{
  ℕ, ◌+◌, ◌≤◌, leb, ltb, ◌≡◌, refl, sym, ap, ◌∙◌, ◌⊎◌, inl, inr, String, Bool, true, false, some,
  List, [], ◌∷◌, Result, ok, err, Bool-cases, arith,
}
use foodo.Identity.Otp.{
  VerificationCodePurpose, VerificationCode, Otp, OtpError, otp_code_invalid,
  otp_attempts_exhausted, is_open, find_newest, put_newest, verify_otp,
}

-- A code that is written in place of the newest open one is the newest, if it is open.
pub find_newest-put_newest :
    (u : ℕ) (p : VerificationCodePurpose) (c d : VerificationCode) (cs : List VerificationCode)
    → find_newest u p cs ≡ some c
    → is_open u p d ≡ true
    → find_newest u p (put_newest u p d cs) ≡ some d
unfolding find_newest put_newest
find_newest-put_newest u p c d [] f o = absurd (cc)
find_newest-put_newest u p c d (x ∷ xs) f o = elim (Bool-cases (is_open u p x)) [
  | inl e ↦ rw (e, o) refl
  | inr e ↦ rw (e, e) (find_newest-put_newest u p c d xs (rw e at f) o)
]

pub find_newest-is_open :
    (u : ℕ) (p : VerificationCodePurpose) (cs : List VerificationCode) (c : VerificationCode)
    → find_newest u p cs ≡ some c
    → is_open u p c ≡ true
unfolding find_newest
find_newest-is_open u p [] c f = absurd (cc)
find_newest-is_open u p (x ∷ xs) c f = elim (Bool-cases (is_open u p x)) [
  | inl e ↦
      let same : some x ≡ some c = rw e at f in let k : x ≡ c = cc in ap (is_open u p) (sym k) ∙ e
  | inr e ↦ find_newest-is_open u p xs c (rw e at f)
]

abbrev count : Result OtpError Bool → ℕ
count (ok b) = 1
count (err e) = 0

module _ (hash : String → String) (matches : String → String → Bool)
    (validity max_attempts : ℕ) where
  -- Guesses at a user's code, each with its moment, and how many of them were compared with it.
  unfoldable pub compared : ℕ → VerificationCodePurpose → List (ℕ × String) → Otp → ℕ
  compared u p [] s = 0
  compared u p ((now, guess) ∷ gs) s =
      let (r, t) = verify_otp hash matches validity max_attempts u p guess now s in
      count r + compared u p gs t

  -- No guess is right.
  abbrev pub AllWrong : String → List (ℕ × String) → Type 0
  AllWrong h [] = Unit
  AllWrong h ((now, guess) ∷ gs) = (matches guess h ≡ false) × AllWrong h gs

  -- A wrong guess is refused, or counted.
  verify_otp-wrong :
      (u : ℕ) (p : VerificationCodePurpose) (guess : String) (now : ℕ) (s : Otp)
      (c : VerificationCode)
      → find_newest u p s.codes ≡ some c
      → matches guess c.code_hash ≡ false
      → ((e : OtpError) × (verify_otp hash matches validity max_attempts u p guess now s
            ≡ (err e, s)))
        ⊎ ((c.attempts + 1 ≤ max_attempts)
            × (verify_otp hash matches validity max_attempts u p guess now s ≡ (
              ok false,
              record s { codes = put_newest u p (record c { attempts = c.attempts + 1 }) s.codes },
            )))
  unfolding verify_otp
  verify_otp-wrong u p guess now s c f w = elim (Bool-cases (ltb c.expires_at now)) [
    | inl expired ↦ inl (otp_code_invalid, rw (f, verify_otp, expired))
    | inr fresh ↦ elim (Bool-cases (leb max_attempts c.attempts)) [
      | inl spent ↦ inl (otp_attempts_exhausted, rw (f, verify_otp, fresh, spent))
      | inr more ↦ inr (ground arith, rw (f, verify_otp, fresh, more, w))
    ]
  ]

  abbrev compared_after :
      ℕ → VerificationCodePurpose → List (ℕ × String) → Result OtpError Bool × Otp → ℕ
  compared_after u p gs r = count r.0 + compared u p gs r.1

  -- A user's newest code is compared with at most `max_attempts` wrong guesses, those included that were
  -- counted before, however many are sent.
  pub compared-le :
      (u : ℕ) (p : VerificationCodePurpose) (gs : List (ℕ × String)) (s : Otp)
      (c : VerificationCode)
      → find_newest u p s.codes ≡ some c
      → c.attempts ≤ max_attempts
      → AllWrong c.code_hash gs
      → compared u p gs s + c.attempts ≤ max_attempts
  unfolding compared is_open
  compared-le u p [] s c f le w = omega arith
  compared-le u p ((now, guess) ∷ gs) s c f le w = elim (verify_otp-wrong u p guess now s c f w.0) [
    | inl (e, q) ↦
        let rest = compared-le u p gs s c f le w.1 in
        subst (λ r. compared_after u p gs r + c.attempts ≤ max_attempts) (sym q) (omega arith)
    | inr (more, q) ↦
        let d : VerificationCode = record c { attempts = c.attempts + 1 } in
        let rest =
          compared-le u p gs (record s { codes = put_newest u p d s.codes }) d
            (find_newest-put_newest u p c d s.codes f (find_newest-is_open u p s.codes c f)) more
            w.1 in
        subst (λ r. compared_after u p gs r + c.attempts ≤ max_attempts) (sym q) (omega arith)
  ]
