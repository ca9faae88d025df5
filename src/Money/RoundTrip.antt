-- ===== src/Money/RoundTrip.antt =====
-- Printed amounts read back (core/money.ts).
use bianhao.Base.{
  ℕ, suc, ◌+◌, ◌-◌, ◌*◌, ◌/◌, ◌%◌, ◌^◌, ◌≤◌, ◌<◌, ◌≡◌, refl, ap, ◌∙◌, true, false, ◌∷◌, ◌++◌,
  length, length-append, All-append, arith,
}
use bianhao.Domain.{Currency, ok}
use bianhao.Money.{
  Text, dot, is_digit, is_space, show, zeros, pad_start, pad_end, from_minor_units, value_from,
  trim_start, trim_end, span_digits, fraction, amount_of, to_minor_units, read_parts,
  fraction_digits,
}
use bianhao.Money.Digits.{
  AllDigits, decimal-AllDigits, digits-IsSolid, fraction_digits-full, length-decimal_le,
  length-zeros, pad_end-full, read_parts-full, show-nonempty, span_digits-all, span_digits-dot,
  trim_end-solid, trim_start-solid, value_from-decimal, value_from-zeros, zeros-AllDigits,
}

-- The text of an amount: the whole part, the point, and as many digits as the currency has.
module _ (e q r : ℕ) (small : r < 10 ^ suc e) where
  abbrev whole : Text
  whole = show q

  abbrev part : Text
  part = pad_start (suc e) (show r)

  whole-AllDigits : AllDigits whole
  unfolding show
  whole-AllDigits = decimal-AllDigits (q + 1) q

  part-AllDigits : AllDigits part
  unfolding show pad_start
  part-AllDigits =
      All-append (λ c. is_digit c ≡ true) (zeros (suc e - length (show r))) (show r)
        (zeros-AllDigits (suc e - length (show r))) (decimal-AllDigits (r + 1) r)

  length-part : length part ≡ suc e
  unfolding show pad_start
  length-part = omega (
    arith,
    length-append (zeros (suc e - length (show r))) (show r),
    length-zeros (suc e - length (show r)),
    length-decimal_le (r + 1) e r small,
  )

  value_from-whole : value_from 0 whole ≡ q
  unfolding show
  value_from-whole = value_from-decimal (q + 1) q (omega arith)

  value_from-part : value_from 0 (pad_end (suc e) part) ≡ r
  unfolding show pad_start
  value_from-part =
      ap (λ cs. value_from 0 cs) (pad_end-full (suc e) part length-part)
      ∙ value_from-zeros (suc e - length (show r)) (show r)
      ∙ value_from-decimal (r + 1) r (omega arith)

  amount_of-printed :
      q * 10 ^ suc e + r ≤ 2 ^ 53 - 1 → amount_of whole (suc e) part ≡ ok (q * 10 ^ suc e + r)
  unfolding amount_of
  amount_of-printed safe = ground (arith, value_from-whole, value_from-part, length-part, safe)

  untouched : trim_end (trim_start (whole ++ dot ∷ part)) ≡ whole ++ dot ∷ part
  unfolding is_space
  untouched =
      let solid =
        All-append (λ c. is_space c ≡ false) whole (dot ∷ part)
          (digits-IsSolid whole whole-AllDigits) (refl, digits-IsSolid part part-AllDigits) in
      ap trim_end (trim_start-solid (whole ++ dot ∷ part) solid)
      ∙ trim_end-solid (whole ++ dot ∷ part) solid

  fraction_read : fraction (dot ∷ part) ≡ ok part
  unfolding fraction
  fraction_read =
      ap fraction_digits (span_digits-all part part-AllDigits)
      ∙ fraction_digits-full part (omega (arith, length-part))

  parts_read : read_parts (suc e) (whole, dot ∷ part) ≡ amount_of whole (suc e) part
  parts_read = read_parts-full (suc e) whole (dot ∷ part) part (show-nonempty q) fraction_read

  read_printed :
      read_parts (suc e) (span_digits (trim_end (trim_start (whole ++ dot ∷ part))))
      ≡ amount_of whole (suc e) part
  read_printed =
      ap (λ cs. read_parts (suc e) (span_digits cs)) untouched
      ∙ ap (λ p. read_parts (suc e) p) (span_digits-dot whole part whole-AllDigits)
      ∙ parts_read

-- An amount that is printed reads back as itself, up to the largest safe integer.
pub to_minor_units-from_minor_units :
    (minor : ℕ) (currency : Currency)
    → minor ≤ 2 ^ 53 - 1
    → to_minor_units (from_minor_units minor currency) currency ≡ ok minor
unfolding to_minor_units from_minor_units
to_minor_units-from_minor_units n Currency.cny safe =
    read_printed 1 (n / 100) (n % 100) (omega arith)
    ∙ amount_of-printed 1 (n / 100) (n % 100) (omega arith) (omega (arith, safe))
    ∙ ap ok (omega arith)
to_minor_units-from_minor_units n Currency.usdt safe =
    read_printed 5 (n / 1_000_000) (n % 1_000_000) (omega arith)
    ∙ amount_of-printed 5 (n / 1_000_000) (n % 1_000_000) (omega arith) (omega (arith, safe))
    ∙ ap ok (omega arith)
