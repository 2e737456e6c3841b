-- ===== src/Units/RoundTrip.antt =====
-- `formatUnits` of web3/internal/service/balance.go loses nothing: its text reads back as the amount.
use grpc_go_project.Prelude.{
  ℕ, zero, suc, ◌+◌, ◌-◌, ◌*◌, ◌^◌, ◌≤◌, ◌≡◌, refl, sym, ap, subst, ◌∙◌, if-cases, true, false,
  some, [], ◌∷◌, ◌++◌, length, length-append, length-replicate, take, drop, take-append-drop,
  length-drop, replicate, ◌==◌, All, arith, if◌then◌else◌,
}
use mathlib.Core.List.{append-nil}
use native.Mathlib.Nat.{pow-succ'}
use grpc_go_project.Prelude.Int.{pos}
use grpc_go_project.Prelude.Text.{Text, is_empty}
use grpc_go_project.Units.{decimal, trim_right, padded, pointed, format_magnitude, format_units}
use grpc_go_project.Units.ReadBack.{
  read_digits, read_fraction, read_amount, IsDigit, read_digits-append, read_digits-decimal,
  digits_from-IsDigit, read_digits-zeros, zeros-IsDigit,
}

-- One step of `trim_right`, over what is left of the tail.
abbrev trimmed : ℕ → ℕ → Text → Text
trimmed c x rest = elim rest [ [] ↦ if x == c then [] else x ∷ [] | y ∷ ys ↦ x ∷ y ∷ ys ]

trimmed_other : (c x : ℕ) (rest : Text) → (x == c) ≡ false → trimmed c x rest ≡ x ∷ rest
trimmed_other c x [] h =
    if-cases (λ z. z ≡ x ∷ []) (x == c) [] (x ∷ []) (λ yes'. absurd (cc)) (λ _. refl)
trimmed_other c x (y ∷ ys) h = refl

trimmed_full :
    (c x : ℕ) (xs : Text) (y : ℕ) (ys : Text) → trimmed c x (xs ++ y ∷ ys) ≡ x ∷ xs ++ y ∷ ys
trimmed_full c x [] y ys = refl
trimmed_full c x (z ∷ xs) y ys = refl

trim_right_other :
    (c x : ℕ) (s : Text) → (x == c) ≡ false → trim_right c (x ∷ s) ≡ x ∷ trim_right c s
unfolding trim_right
trim_right_other c x s h = trimmed_other c x (trim_right c s) h

trim_right_none : (c : ℕ) (s : Text) → All (λ x. (x == c) ≡ false) s → trim_right c s ≡ s
unfolding trim_right
trim_right_none c [] h = refl
trim_right_none c (x ∷ s) h =
    trimmed_other c x (trim_right c s) h.0 ∙ ap (λ t. x ∷ t) (trim_right_none c s h.1)

-- What is left at the end keeps what stands before it.
trim_right_keeps :
    (c : ℕ) (xs s : Text) (y : ℕ) (ys : Text)
    → trim_right c s ≡ y ∷ ys
    → trim_right c (xs ++ s) ≡ xs ++ y ∷ ys
unfolding trim_right
trim_right_keeps c [] s y ys h = h
trim_right_keeps c (x ∷ xs) s y ys h =
    ap (trimmed c x) (trim_right_keeps c xs s y ys h) ∙ trimmed_full c x xs y ys

trim_right_last : (c : ℕ) (xs : Text) → trim_right c (xs ++ c ∷ []) ≡ trim_right c xs
unfolding trim_right
trim_right_last c [] =
    if-cases (λ z. z ≡ []) (c == c) [] (c ∷ []) (λ _. refl) (λ no'. absurd (ground arith))
trim_right_last c (x ∷ xs) = ap (trimmed c x) (trim_right_last c xs)

no_points : (s : Text) → All IsDigit s → All (λ x. (x == b'.') ≡ false) s
no_points [] h = tt
no_points (c ∷ s) h = (let low = h.0.0 in ground arith, no_points s h.1)

trim_right-IsDigit : (c : ℕ) (s : Text) → All IsDigit s → All IsDigit (trim_right c s)
unfolding trim_right
trim_right-IsDigit c [] h = tt
trim_right-IsDigit c (x ∷ s) h = one (trim_right c s) (trim_right-IsDigit c s h.1)
  where
    one : (rest : Text) → All IsDigit rest → All IsDigit (trimmed c x rest)
    one [] k = if-cases (All IsDigit) (x == c) [] (x ∷ []) (λ _. tt) (λ _. (h.0, tt))
    one (y ∷ ys) k = (h.0, k)

pow_suc : (n room : ℕ) → n * 10 ^ suc room ≡ (n * 10) * 10 ^ room
pow_suc n room = ap (λ p. n * p) (pow-succ' 10 room) ∙ by_assoc n (10 ^ room)
  where
    by_assoc : (m p : ℕ) → m * (10 * p) ≡ (m * 10) * p
    by_assoc m p = grind arith

-- Zeros at the end of a fraction do not count.
read_fraction-trim_right :
    (room n : ℕ) (s : Text)
    → length s ≡ room
    → read_fraction room n (trim_right b'0' s) ≡ read_fraction room n s
unfolding read_fraction trim_right
read_fraction-trim_right room n [] h = refl
read_fraction-trim_right zero n (x ∷ s) h = absurd (omega arith)
read_fraction-trim_right (suc room) n (x ∷ s) h =
    one (trim_right b'0' s) (read_fraction-trim_right room (n * 10 + (x - b'0')) s (omega arith))
  where
    one :
        (rest : Text)
        → read_fraction room (n * 10 + (x - b'0')) rest ≡ read_fraction room (n * 10 + (x - b'0')) s
        → read_fraction (suc room) n (trimmed b'0' x rest)
          ≡ read_fraction room (n * 10 + (x - b'0')) s
    one [] ih =
        if-cases (λ z. read_fraction (suc room) n z ≡ read_fraction room (n * 10 + (x - b'0')) s)
          (x == b'0') [] (x ∷ [])
          (λ zero_digit.
            pow_suc n room
            ∙ ap (λ k. k * 10 ^ room) (let e : x ≡ b'0' = ground arith in omega arith)
            ∙ ih)
          (λ _. ih)
    one (y ∷ ys) ih = ih

read_fraction_full :
    (room n : ℕ) (s : Text) → length s ≡ room → read_fraction room n s ≡ read_digits n s
unfolding read_fraction read_digits
read_fraction_full zero n [] h = grind arith
read_fraction_full (suc room) n [] h = absurd (omega arith)
read_fraction_full zero n (x ∷ s) h = absurd (omega arith)
read_fraction_full (suc room) n (x ∷ s) h =
    read_fraction_full room (n * 10 + (x - b'0')) s (omega arith)

read_amount-digits :
    (room n : ℕ) (s t : Text)
    → All IsDigit s
    → read_amount room n (s ++ t) ≡ read_amount room (read_digits n s) t
unfolding read_amount read_digits
read_amount-digits room n [] t h = refl
read_amount-digits room n (c ∷ s) t h =
    if-cases (λ z. z ≡ read_amount room (read_digits (n * 10 + (c - b'0')) s) t) (c == b'.') _
      (read_amount room (n * 10 + (c - b'0')) (s ++ t))
      (λ point. absurd (let low = h.0.0 in ground arith))
      (λ _. read_amount-digits room (n * 10 + (c - b'0')) s t h.1)

-- The text with its point, before and after the zeros are trimmed.
read_pointed :
    (room : ℕ) (whole fraction : Text)
    → All IsDigit whole
    → All IsDigit fraction
    → length fraction ≡ room
    → read_amount room 0 (trim_right b'.' (trim_right b'0' (whole ++ b'.' ∷ fraction)))
      ≡ read_digits (read_digits 0 whole) fraction
unfolding read_amount read_fraction trim_right
read_pointed room whole fraction hw hf len =
    ap (λ t. read_amount room 0 (trim_right b'.' t))
      (trim_right_keeps b'0' whole (b'.' ∷ fraction) b'.' (trim_right b'0' fraction)
        (trim_right_other b'0' b'.' fraction refl))
    ∙ by_rest (trim_right b'0' fraction) (trim_right-IsDigit b'0' fraction hf)
        (read_fraction-trim_right room (read_digits 0 whole) fraction len)
    ∙ read_fraction_full room (read_digits 0 whole) fraction len
  where
    by_rest :
        (rest : Text)
        → All IsDigit rest
        → read_fraction room (read_digits 0 whole) rest
          ≡ read_fraction room (read_digits 0 whole) fraction
        → read_amount room 0 (trim_right b'.' (whole ++ b'.' ∷ rest))
          ≡ read_fraction room (read_digits 0 whole) fraction
    by_rest [] k ih =
        ap (read_amount room 0) (
          trim_right_last b'.' whole
          ∙ trim_right_none b'.' whole (no_points whole hw)
          ∙ sym (append-nil whole))
        ∙ read_amount-digits room 0 whole [] hw
        ∙ ih
    by_rest (y ∷ ys) k ih =
        ap (read_amount room 0)
          (trim_right_keeps b'.' whole (b'.' ∷ y ∷ ys) b'.' (y ∷ ys) (point_kept y ys k))
        ∙ read_amount-digits room 0 whole (b'.' ∷ y ∷ ys) hw
        ∙ ih
      where
        point_kept :
            (z : ℕ) (zs : Text)
            → All IsDigit (z ∷ zs)
            → trim_right b'.' (b'.' ∷ z ∷ zs) ≡ b'.' ∷ z ∷ zs
        point_kept z zs d =
            ap (trimmed b'.' b'.') (trim_right_none b'.' (z ∷ zs) (no_points (z ∷ zs) d))

All-take : (n : ℕ) (s : Text) → All IsDigit s → All IsDigit (take n s)
All-take zero s h = tt
All-take (suc n) [] h = tt
All-take (suc n) (c ∷ s) h = (h.0, All-take n s h.1)

All-drop : (n : ℕ) (s : Text) → All IsDigit s → All IsDigit (drop n s)
All-drop zero s h = h
All-drop (suc n) [] h = tt
All-drop (suc n) (c ∷ s) h = All-drop n s h.1

read_points :
    (d : ℕ) (digits : Text)
    → All IsDigit digits
    → d ≤ length digits
    → read_amount d 0 (pointed d digits) ≡ read_digits 0 digits
read_points d digits h le =
    let split = length digits - d in
    read_pointed d (take split digits) (drop split digits) (All-take split digits h)
      (All-drop split digits h) (length-drop split digits ∙ omega arith)
    ∙ sym (read_digits-append 0 (take split digits) (drop split digits))
    ∙ ap (read_digits 0) (take-append-drop split digits)

empty_of : (t : Text) → is_empty t ≡ true → t ≡ []
empty_of [] h = refl
empty_of (x ∷ t) h = absurd (cc)

padded_long : (d : ℕ) (digits : Text) → d ≤ length (padded d digits)
padded_long d digits =
    let k = suc d - length digits in
    subst (λ m. d ≤ m)
      (sym (
        length-append (replicate k b'0') digits
        ∙ ap (λ m. m + length digits) (length-replicate {A = ℕ} k b'0')))
      (omega arith)

read-format_magnitude : (n d : ℕ) → read_amount d 0 (format_magnitude n d) ≡ n
unfolding format_magnitude read_amount decimal
read-format_magnitude n zero =
    ap (read_amount 0 0) (sym (append-nil (decimal n)))
    ∙ read_amount-digits 0 0 (decimal n) [] (digits_from-IsDigit (suc n) n [] tt)
    ∙ (omega arith)
    ∙ read_digits-decimal n
read-format_magnitude n (suc d) =
    let digits = padded (suc d) (decimal n) in
    let k = suc (suc d) - length (decimal n) in
    let isd = zeros-IsDigit k (decimal n) (digits_from-IsDigit (suc n) n [] tt) in
    let value =
      read_points (suc d) digits isd (padded_long (suc d) (decimal n))
      ∙ read_digits-zeros k 0 (decimal n) refl
      ∙ read_digits-decimal n in
    if-cases (λ t. read_amount (suc d) 0 t ≡ n) (is_empty (pointed (suc d) digits)) (b'0' ∷ [])
      (pointed (suc d) digits)
      (λ empty. ap (read_amount (suc d) 0) (sym (empty_of (pointed (suc d) digits) empty)) ∙ value)
      (λ _. value)

-- The text of an amount that is not negative, under any number of decimals, reads back as the amount.
pub read-format_units : (n d : ℕ) → read_amount d 0 (format_units (some (pos n)) d) ≡ n
unfolding format_units
read-format_units n d = read-format_magnitude n d
