-- ===== src/Jobslib/Device/Laws.antt =====
-- Which texts are device numbers (jobslib/jobslib.go).
use jobmaster.Base.{
  ℕ, suc, ◌≤◌, ◌≡◌, refl, ap, ◌↔◌, inl, inr, true, false, Bool-cases, [], ◌∷◌, ◌++◌, arith, Text,
  length, All, append-nil,
}
use jobmaster.Jobslib.Device.{
  is_digit, digit_run, one_to_three, ends, colon_then, validate_io_device_number,
}

-- One to three digits.
abbrev pub IsNumber : Text → Type 0
IsNumber s = All (λ c. is_digit c ≡ true) s × (1 ≤ length s) × (length s ≤ 3)

abbrev NoDigitFirst : Text → Type 0
NoDigitFirst [] = Unit
NoDigitFirst (c ∷ s) = is_digit c ≡ false

-- The run is what stands before the rest.
digit_run_split :
    (s : Text)
    → (a : Text) × (s ≡ a ++ (digit_run s).1)
      × All (λ c. is_digit c ≡ true) a
      × (length a ≡ (digit_run s).0)
unfolding digit_run
digit_run_split [] = ([], refl, tt, refl)
digit_run_split (c ∷ s) = elim (Bool-cases (is_digit c)) [
  | inr other ↦ ([], rw other refl, tt, rw other refl)
  | inl digit ↦
      let (a, e, d, n) = digit_run_split s in
      (c ∷ a, rw digit (ap (λ t. c ∷ t) e), (digit, d), rw digit (ap suc n))
]

digit_run_append :
    (a rest : Text)
    → All (λ c. is_digit c ≡ true) a
    → NoDigitFirst rest
    → digit_run (a ++ rest) ≡ (length a, rest)
unfolding digit_run
digit_run_append [] [] d h = refl
digit_run_append [] (c ∷ rest) d h = rw h refl
digit_run_append (c ∷ a) rest (d, ds) h = rw (d, digit_run_append a rest ds h) refl

ends-true : (r : ℕ × Text) → ends r ≡ true → (r.1 ≡ []) × (1 ≤ r.0) × (r.0 ≤ 3)
unfolding one_to_three
ends-true (n, []) h = ground arith
ends-true (n, c ∷ s) h = ground arith

colon_then-true :
    (r : ℕ × Text)
    → colon_then r ≡ true
    → (t : Text) × (r.1 ≡ b':' ∷ t) × (1 ≤ r.0) × (r.0 ≤ 3) × (ends (digit_run t) ≡ true)
unfolding one_to_three
colon_then-true (n, []) h = absurd (ground arith)
colon_then-true (n, c ∷ s) h = (s, ground arith, ground arith, ground arith, ground arith)

colon_then_digits :
    (n : ℕ) (b : Text) → 1 ≤ n → n ≤ 3 → IsNumber b → colon_then (n, b':' ∷ b) ≡ true
unfolding one_to_three
colon_then_digits n b lo hi (d, lo2, hi2) =
    rw (← append-nil b) (rw (digit_run_append b [] d tt) (ground arith))

-- Exactly the texts "<a>:<b>" where each of a and b is one to three digits.
pub validate_io_device_number_iff :
    (s : Text)
    → (validate_io_device_number s ≡ true)
      ↔ ((a : Text) × (b : Text) × (s ≡ a ++ b':' ∷ b) × IsNumber a × IsNumber b)
unfolding validate_io_device_number is_digit
validate_io_device_number_iff s = (
  λ h.
      let (a, e, d, n) = digit_run_split s in
      let (t, et, lo, hi, en) = colon_then-true (digit_run s) h in
      let (b, e2, d2, n2) = digit_run_split t in
      let (et2, lo2, hi2) = ends-true (digit_run t) en in
      (a, b, cc (append-nil b), (d, omega arith, omega arith), (d2, omega arith, omega arith)),
  λ (a, b, e, (d, lo, hi), number).
      rw e
        (rw (digit_run_append a (b':' ∷ b) d refl) (colon_then_digits (length a) b lo hi number)),
)
