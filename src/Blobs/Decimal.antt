-- ===== src/Blobs/Decimal.antt =====
-- Decimal digits read back.
use hushvault.Base.{
  ℕ, zero, suc, ◌+◌, ◌*◌, ◌-◌, ◌/◌, ◌%◌, ◌≤◌, ◌<◌, ◌≡◌, refl, ◌∙◌, true, ◌&&◌, [], ◌∷◌, ◌++◌, all,
  Text, ltb, arith, inl, inr, Bool-cases,
}
use hushvault.Blobs.{digits, decimal, is_digit, is_positive_decimal, number_from, number}

number_from-append :
    (acc : ℕ) (s : Text) (c : ℕ) → number_from acc (s ++ c ∷ []) ≡ number_from acc s * 10 + (c - 48)
unfolding number_from
number_from-append acc [] c = refl
number_from-append acc (d ∷ s) c = number_from-append (acc * 10 + (d - 48)) s c

all-append : (s : Text) (c : ℕ) → all is_digit (s ++ c ∷ []) ≡ (all is_digit s && is_digit c)
all-append [] c = ground arith
all-append (d ∷ s) c = ground (arith, all-append s c)

number-digits : (fuel n : ℕ) → n < fuel → number_from 0 (digits fuel n) ≡ n
unfolding digits number_from
number-digits zero n h = elim h [ ]
number-digits (suc fuel) n h = elim (Bool-cases (ltb n 10)) [
  | inl small ↦ rw small (omega arith)
  | inr big ↦
      let ten : 10 ≤ n = ground (arith, big) in
      let ih = number-digits fuel (n / 10) (omega arith) in
      rw big (number_from-append 0 (digits fuel (n / 10)) (48 + n % 10) ∙ omega (arith, ih))
]

pub number-decimal : (n : ℕ) → number (decimal n) ≡ n
unfolding number decimal
number-decimal n = number-digits (suc n) n (omega arith)

positive-append :
    (s : Text) (c : ℕ)
    → is_positive_decimal s ≡ true
    → is_digit c ≡ true
    → is_positive_decimal (s ++ c ∷ []) ≡ true
unfolding is_positive_decimal
positive-append [] c h k = cc
positive-append (d ∷ s) c h k = ground (arith, all-append s c)

positive-digits : (fuel n : ℕ) → n < fuel → 0 < n → is_positive_decimal (digits fuel n) ≡ true
unfolding digits
positive-digits zero n h k = elim h [ ]
positive-digits (suc fuel) n h k = elim (Bool-cases (ltb n 10)) [
  | inl small ↦ rw small (unfold is_positive_decimal in ground (arith, small))
  | inr big ↦
      let ten : 10 ≤ n = ground (arith, big) in
      let ih = positive-digits fuel (n / 10) (omega arith) (omega arith) in
      let r : n % 10 < 10 = omega arith in
      rw big (positive-append (digits fuel (n / 10)) (48 + n % 10) ih (ground arith))
]

pub positive-decimal : (n : ℕ) → 0 < n → is_positive_decimal (decimal n) ≡ true
unfolding decimal
positive-decimal n h = positive-digits (suc n) n (omega arith) h
