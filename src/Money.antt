-- ===== src/Money.antt =====
-- core/money.ts: amounts as decimal texts. A text is the list of its characters' numbers here. The
-- source also takes a JavaScript number, which it prints by `toFixed` first; that is left out.
use bianhao.Base.{
  ℕ, zero, suc, ◌+◌, ◌-◌, ◌*◌, ◌/◌, ◌%◌, ◌^◌, Bool, true, false, not, ◌&&◌, ◌||◌, List, [], ◌∷◌,
  ◌++◌, length, ltb, leb, ◌==◌, if◌then◌else◌,
}
use bianhao.Domain.{Currency, currency_decimals, Error, Result, ok, err}
pub mod Digits
pub mod RoundTrip

abbrev pub Text : Type 0
Text = List ℕ

abbrev pub dot : ℕ
dot = 46

-- `\d`
unfoldable pub is_digit : ℕ → Bool
is_digit c = leb 48 c && leb c 57

-- `String(n)`; `left` bounds the number of digits, and n + 1 is enough.
unfoldable pub decimal : ℕ → ℕ → Text
decimal zero n = []
decimal (suc left) n =
    let higher = decimal left (n / 10) in
    if ltb n 10 then (48 + n) ∷ [] else higher ++ (48 + n % 10) ∷ []

unfoldable pub show : ℕ → Text
unfolding decimal
show n = decimal (n + 1) n

unfoldable pub zeros : ℕ → Text
zeros zero = []
zeros (suc n) = 48 ∷ zeros n

-- `padStart(width, '0')` and `padEnd(width, '0')`
unfoldable pub pad_start : ℕ → Text → Text
unfolding zeros
pad_start width text = zeros (width - length text) ++ text

unfoldable pub pad_end : ℕ → Text → Text
unfolding zeros
pad_end width text = text ++ zeros (width - length text)

-- `fromMinorUnits` of a whole amount.
unfoldable pub from_minor_units : ℕ → Currency → Text
unfolding show pad_start
from_minor_units minor currency =
    let decimals = currency_decimals currency in
    if decimals == 0
    then show minor
    else show (minor / 10 ^ decimals) ++ dot ∷ pad_start decimals (show (minor % 10 ^ decimals))

-- `BigInt(text)` of digits, read on from `n`.
unfoldable pub value_from : ℕ → Text → ℕ
value_from n [] = n
value_from n (c ∷ cs) = value_from (n * 10 + (c - 48)) cs

-- The white space that `trim` takes off.
unfoldable pub is_space : ℕ → Bool
is_space c =
    (leb 9 c && leb c 13)
    || c == 32
    || c == 160
    || c == 5760
    || (leb 8192 c && leb c 8202)
    || c == 8232
    || c == 8233
    || c == 8239
    || c == 8287
    || c == 12288
    || c == 65279

unfoldable pub trim_start : Text → Text
trim_start [] = []
trim_start (c ∷ cs) = let rest = trim_start cs in if is_space c then rest else c ∷ cs

abbrev keep_unless_end : ℕ → Text → Text
keep_unless_end c [] = if is_space c then [] else c ∷ []
keep_unless_end c (d ∷ ds) = c ∷ d ∷ ds

unfoldable pub trim_end : Text → Text
trim_end [] = []
trim_end (c ∷ cs) = keep_unless_end c (trim_end cs)

-- The digits in front, and what follows them.
unfoldable pub span_digits : Text → Text × Text
unfolding is_digit
span_digits [] = ([], [])
span_digits (c ∷ cs) =
    let (digits, rest) = span_digits cs in if is_digit c then (c ∷ digits, rest) else ([], c ∷ cs)

-- The digits after the point, where the text matches the expression.
unfoldable pub fraction_digits : Text × Text → Result Text
fraction_digits ([], rest) = err Error.validation
fraction_digits (d ∷ ds, []) = ok (d ∷ ds)
fraction_digits (d ∷ ds, c ∷ cs) = err Error.validation

unfoldable pub fraction : Text → Result Text
unfolding span_digits fraction_digits
fraction [] = ok []
fraction (c ∷ cs) = if c == dot then fraction_digits (span_digits cs) else err Error.validation

unfoldable pub amount_of : Text → ℕ → Text → Result ℕ
unfolding value_from pad_end
amount_of whole decimals part =
    let minor = value_from 0 whole * 10 ^ decimals + value_from 0 (pad_end decimals part) in
    if ltb decimals (length part)
    then err Error.validation
    else if ltb (2 ^ 53 - 1) minor
    then err Error.validation
    else ok minor

unfoldable pub read_parts : ℕ → Text × Text → Result ℕ
unfolding fraction amount_of
read_parts decimals ([], rest) = err Error.validation
read_parts decimals (d ∷ ds, rest) = elim (fraction rest) [
  | ok part ↦ amount_of (d ∷ ds) decimals part
  | err e ↦ err e
]

-- `toMinorUnits` of a text.
unfoldable pub to_minor_units : Text → Currency → Result ℕ
unfolding read_parts trim_start trim_end
to_minor_units value currency =
    read_parts (currency_decimals currency) (span_digits (trim_end (trim_start value)))
