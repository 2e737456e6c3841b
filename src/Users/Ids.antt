-- ===== src/Users/Ids.antt =====
-- user/internal/service: the text of an id in a response is read back as the id in a request.
use grpc_go_project.Prelude.{
  ℕ, zero, suc, ◌+◌, ◌-◌, ◌*◌, ◌/◌, ◌%◌, ◌^◌, ◌≡◌, ◌<◌, refl, ap, ◌∙◌, if-cases, false, Option,
  none, some, [], ◌∷◌, All, ltb, ◌==◌, arith,
}
use grpc_go_project.Prelude.Int.{ℤ, pos}
use grpc_go_project.Prelude.Text.{Text, is_empty, is_space, trim_left, trim_space}
use mathlib.Core.List.{reverse, reverse_aux, reverse-reverse}
use grpc_go_project.Units.{digits_from, decimal}
use grpc_go_project.Units.ReadBack.{IsDigit, read_digits, read_digits-decimal, digits_from-IsDigit}
use grpc_go_project.Users.Service.{is_digit, parse_digits, in_int64, parse_int}

no_space : (c : ℕ) → IsDigit c → is_space c ≡ false
unfolding is_space
no_space c h = ground arith

trim_left-digits : (t : Text) → All IsDigit t → trim_left t ≡ t
unfolding trim_left
trim_left-digits [] h = refl
trim_left-digits (c ∷ t) h =
    if-cases (λ z. z ≡ c ∷ t) (is_space c) (trim_left t) (c ∷ t)
      (λ s. absurd (let n = no_space c h.0 in cc)) (λ _. refl)

reverse_aux-IsDigit : (s t : Text) → All IsDigit s → All IsDigit t → All IsDigit (reverse_aux s t)
reverse_aux-IsDigit [] t h k = k
reverse_aux-IsDigit (c ∷ s) t h k = reverse_aux-IsDigit s (c ∷ t) h.1 (h.0, k)

trim_space-digits : (t : Text) → All IsDigit t → trim_space t ≡ t
unfolding trim_space
trim_space-digits t h =
    ap (λ s. reverse (trim_left (reverse s))) (trim_left-digits t h)
    ∙ ap reverse (trim_left-digits (reverse t) (reverse_aux-IsDigit t [] h tt))
    ∙ reverse-reverse t

parse_digits-digits :
    (n : ℕ) (t : Text) → All IsDigit t → parse_digits false n t ≡ some (read_digits n t)
unfolding parse_digits read_digits
parse_digits-digits n [] h = refl
parse_digits-digits n (c ∷ cs) h =
    if-cases (λ z. z ≡ some (read_digits (n * 10 + (c - b'0')) cs)) (is_digit c)
      (parse_digits false (n * 10 + (c - b'0')) cs) none
      (λ _. parse_digits-digits (n * 10 + (c - b'0')) cs h.1)
      (λ no. absurd (let d = h.0 in ground arith))

parse_int-digits :
    (c : ℕ) (t : Text)
    → All IsDigit (c ∷ t)
    → read_digits 0 (c ∷ t) < 2 ^ 63
    → parse_int (c ∷ t) ≡ some (pos (read_digits 0 (c ∷ t)))
unfolding parse_int parse_digits
parse_int-digits c t h small =
    let P = λ (z : Option ℤ). z ≡ some (pos (read_digits 0 (c ∷ t))) in
    if-cases P (c == b'-') _ _ (λ e. absurd (let d = h.0 in ground arith))
      λ _.
        if-cases P (c == b'+') _ _ (λ e. absurd (let d = h.0 in ground arith))
          λ _.
            ap (in_int64 false) (parse_digits-digits 0 (c ∷ t) h)
            ∙ if-cases P (ltb (read_digits 0 (c ∷ t)) (2 ^ 63)) (some (pos (read_digits 0 (c ∷ t))))
                none (λ _. refl) (λ no. absurd (ground arith))

longer : (rounds n c : ℕ) (out : Text) → is_empty (digits_from rounds n (c ∷ out)) ≡ false
unfolding digits_from
longer zero n c out = refl
longer (suc rounds) n c out =
    by_quotient (n / 10) (λ m. longer rounds (suc m) (b'0' + n % 10) (c ∷ out))
  where
    by_quotient :
        (q : ℕ)
        → ((m : ℕ) → is_empty (digits_from rounds (suc m) ((b'0' + n % 10) ∷ c ∷ out)) ≡ false)
        → is_empty (elim q as (λ _. Text) [
          | zero ↦ (b'0' + n % 10) ∷ c ∷ out
          | suc m ↦ digits_from rounds (suc m) ((b'0' + n % 10) ∷ c ∷ out)
        ])
          ≡ false
    by_quotient zero h = refl
    by_quotient (suc m) h = h m

pub decimal-filled : (n : ℕ) → is_empty (decimal n) ≡ false
unfolding decimal digits_from
decimal-filled n = by_quotient (n / 10)
  where
    by_quotient :
        (q : ℕ)
        → is_empty (elim q as (λ _. Text) [
          | zero ↦ (b'0' + n % 10) ∷ []
          | suc m ↦ digits_from n (suc m) ((b'0' + n % 10) ∷ [])
        ])
          ≡ false
    by_quotient zero = refl
    by_quotient (suc m) = longer n (suc m) (b'0' + n % 10) []

decimal-IsDigit : (n : ℕ) → All IsDigit (decimal n)
unfolding decimal
decimal-IsDigit n = digits_from-IsDigit (suc n) n [] tt

pub trim_space-decimal : (n : ℕ) → trim_space (decimal n) ≡ decimal n
trim_space-decimal n = trim_space-digits (decimal n) (decimal-IsDigit n)

filled_parses :
    (t : Text)
    → is_empty t ≡ false
    → All IsDigit t
    → read_digits 0 t < 2 ^ 63
    → parse_int t ≡ some (pos (read_digits 0 t))
filled_parses [] e h small = absurd (cc)
filled_parses (c ∷ t) e h small = parse_int-digits c t h small

pub parse_int-decimal : (n : ℕ) → n < 2 ^ 63 → parse_int (decimal n) ≡ some (pos n)
parse_int-decimal n small =
    let value = read_digits-decimal n in
    filled_parses (decimal n) (decimal-filled n) (decimal-IsDigit n) (omega arith)
    ∙ ap (λ k. some (pos k)) value
