-- ===== src/Settings/Numbering/Decimal.antt =====
-- A number is read back from its padded decimal text, so different numbers have different texts.
use emis.Base.{
  ℕ, zero, suc, ◌+◌, ◌*◌, ◌-◌, ◌/◌, ◌%◌, ◌<◌, ◌≡◌, refl, ◌∙◌, [], ◌∷◌, ◌++◌, ltb, arith, length,
  inl, inr, Bool-cases,
}
use emis.Settings.Numbering.{Text, decimal_from, decimal, zeros, pad_start}

-- `Number(text)` of a text of digits, from what the earlier digits came to.
pub value_from : ℕ → Text → ℕ
value_from acc [] = acc
value_from acc (c ∷ text) = value_from (acc * 10 + (c - b'0')) text

value_from-append :
    (acc : ℕ) (s t : Text) → value_from acc (s ++ t) ≡ value_from (value_from acc s) t
unfolding value_from
value_from-append acc [] t = refl
value_from-append acc (c ∷ s) t = value_from-append (acc * 10 + (c - b'0')) s t

value_from-zeros : (n : ℕ) (t : Text) → value_from 0 (zeros n ++ t) ≡ value_from 0 t
unfolding value_from zeros
value_from-zeros zero t = refl
value_from-zeros (suc n) t = value_from-zeros n t

value_from-decimal_from : (fuel n : ℕ) → n < fuel → value_from 0 (decimal_from fuel n) ≡ n
unfolding value_from decimal_from
value_from-decimal_from zero n h = absurd (omega arith)
value_from-decimal_from (suc fuel) n h = elim (Bool-cases (ltb n 10)) [
  | inl small ↦ rw small (omega arith)
  | inr large ↦
      rw (large, value_from-append 0 (decimal_from fuel (n / 10)) ((b'0' + n % 10) ∷ []))
        (ground (arith, value_from-decimal_from fuel (n / 10)))
]

-- Reading a padded number back gives the number, whatever the width.
pub value_from-pad_start : (width n : ℕ) → value_from 0 (pad_start width (decimal n)) ≡ n
unfolding pad_start decimal
value_from-pad_start width n =
    value_from-zeros (width - length (decimal n)) (decimal n)
    ∙ value_from-decimal_from (suc n) n (omega arith)
