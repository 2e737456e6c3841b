-- ===== src/Units/ReadBack.antt =====
-- Reading back the text of web3/internal/service/balance.go's `formatUnits`.
use grpc_go_project.Prelude.{
  ℕ, zero, suc, ◌+◌, ◌-◌, ◌*◌, ◌/◌, ◌%◌, ◌^◌, ◌≤◌, ◌<◌, ◌≡◌, refl, sym, ap, ◌∙◌, [], ◌∷◌, ◌++◌,
  replicate, ◌==◌, All, arith, if◌then◌else◌,
}
use grpc_go_project.Prelude.Text.{Text}
use grpc_go_project.Units.{digits_from, decimal}

-- A text of digits, read on from a number.
unfoldable pub read_digits : ℕ → Text → ℕ
read_digits n [] = n
read_digits n (c ∷ cs) = read_digits (n * 10 + (c - b'0')) cs

-- What stands behind the point, with room for so many more digits: those that are missing are zeros.
unfoldable pub read_fraction : ℕ → ℕ → Text → ℕ
read_fraction room n [] = n * 10 ^ room
read_fraction zero n (c ∷ cs) = n
read_fraction (suc room) n (c ∷ cs) = read_fraction room (n * 10 + (c - b'0')) cs

-- An independent reader of decimal amounts with at most `room` digits behind the point.
unfoldable pub read_amount : ℕ → ℕ → Text → ℕ
unfolding read_fraction
read_amount room n [] = n * 10 ^ room
read_amount room n (c ∷ cs) =
    if c == b'.' then read_fraction room n cs else read_amount room (n * 10 + (c - b'0')) cs

abbrev pub IsDigit : ℕ → Type 0
IsDigit c = (b'0' ≤ c) × (c ≤ b'9')

pub read_digits-append :
    (n : ℕ) (s t : Text) → read_digits n (s ++ t) ≡ read_digits (read_digits n s) t
unfolding read_digits
read_digits-append n [] t = refl
read_digits-append n (c ∷ s) t = read_digits-append (n * 10 + (c - b'0')) s t

read_digits-digits_from :
    (rounds n : ℕ) (out : Text)
    → n < rounds
    → read_digits 0 (digits_from rounds n out) ≡ read_digits n out
unfolding read_digits digits_from
read_digits-digits_from zero n out h = absurd (omega arith)
read_digits-digits_from (suc rounds) n out h =
    by_quotient (n / 10) refl (read_digits-digits_from rounds (n / 10) ((b'0' + n % 10) ∷ out))
  where
    by_quotient :
        (q : ℕ)
        → n / 10 ≡ q
        → (n / 10 < rounds
            → read_digits 0 (digits_from rounds (n / 10) ((b'0' + n % 10) ∷ out))
              ≡ read_digits (n / 10) ((b'0' + n % 10) ∷ out))
        → read_digits 0 (elim q as (λ _. Text) [
          | zero ↦ (b'0' + n % 10) ∷ out
          | suc m ↦ digits_from rounds (suc m) ((b'0' + n % 10) ∷ out)
        ])
          ≡ read_digits n out
    by_quotient zero e ih = ap (λ k. read_digits k out) (omega arith)
    by_quotient (suc m) e ih =
        ap (λ k. read_digits 0 (digits_from rounds k ((b'0' + n % 10) ∷ out))) (sym e)
        ∙ ih (omega arith)
        ∙ ap (λ k. read_digits k out) (omega arith)

pub read_digits-decimal : (n : ℕ) → read_digits 0 (decimal n) ≡ n
unfolding decimal read_digits
read_digits-decimal n = read_digits-digits_from (suc n) n [] (omega arith)

pub digits_from-IsDigit :
    (rounds n : ℕ) (out : Text) → All IsDigit out → All IsDigit (digits_from rounds n out)
unfolding digits_from
digits_from-IsDigit zero n out h = h
digits_from-IsDigit (suc rounds) n out h =
    by_quotient (n / 10) (λ q. digits_from-IsDigit rounds q ((b'0' + n % 10) ∷ out))
  where
    by_quotient :
        (q : ℕ)
        → ((m : ℕ)
            → All IsDigit ((b'0' + n % 10) ∷ out)
            → All IsDigit (digits_from rounds m ((b'0' + n % 10) ∷ out)))
        → All IsDigit (elim q as (λ _. Text) [
          | zero ↦ (b'0' + n % 10) ∷ out
          | suc m ↦ digits_from rounds (suc m) ((b'0' + n % 10) ∷ out)
        ])
    by_quotient zero ih = ((omega arith, omega arith), h)
    by_quotient (suc m) ih = ih (suc m) ((omega arith, omega arith), h)

pub read_digits-zeros :
    (k n : ℕ) (s : Text) → n ≡ 0 → read_digits n (replicate k b'0' ++ s) ≡ read_digits 0 s
unfolding read_digits
read_digits-zeros zero n s e = ap (λ m. read_digits m s) e
read_digits-zeros (suc k) n s e = read_digits-zeros k (n * 10 + 0) s (omega arith)

pub zeros-IsDigit : (k : ℕ) (s : Text) → All IsDigit s → All IsDigit (replicate k b'0' ++ s)
zeros-IsDigit zero s h = h
zeros-IsDigit (suc k) s h = ((omega arith, omega arith), zeros-IsDigit k s h)
