-- ===== src/Qr/Utf8.antt =====
-- UTF-8 (`Buffer.from` in qr/qrEncoder.ts): the encoding of a text of 16-bit units is bytes.
use bianhao.Base.{
  ℕ, ◌+◌, ◌-◌, ◌*◌, ◌<◌, ◌≡◌, refl, inl, inr, Bool, true, false, ◌&&◌, List, [], ◌∷◌, All,
  All-append, ltb, if◌then◌else◌, arith, Bool-cases,
}
use bianhao.Money.{Text}
use bianhao.Qr.Data.{is_high, is_low, utf8, utf8_from, utf8_pair, utf8_unit}

-- The units of a UTF-16 text.
abbrev pub AllUnits : Text → Type 0
AllUnits text = All (λ u. u < 65536) text

abbrev AreBytes : List ℕ → Type 0
AreBytes bytes = All (λ b. b < 256) bytes

branches-AreBytes :
    (b : Bool) (xs ys : List ℕ)
    → (b ≡ true → AreBytes xs)
    → AreBytes ys
    → AreBytes (if b then xs else ys)
branches-AreBytes true xs ys h k = h refl
branches-AreBytes false xs ys h k = k

one_unit : (u : ℕ) → u < 65536 → AreBytes (utf8_unit u)
unfolding utf8_unit
one_unit u h =
    branches-AreBytes (ltb u 128) _ _ (λ e. (ground (arith, e), tt))
      (branches-AreBytes (ltb u 2048) _ _ (λ e. (ground (arith, e), (omega arith, tt)))
        (branches-AreBytes (is_high u) _ _ (λ e. replaced)
          (branches-AreBytes (is_low u) _ _ (λ e. replaced)
            (omega arith, (omega arith, (omega arith, tt))))))
  where
    replaced : AreBytes (239 ∷ 191 ∷ 189 ∷ [])
    replaced = (omega arith, (omega arith, (omega arith, tt)))

one_pair : (c : ℕ) → c < 1114112 → AreBytes (utf8_pair c)
unfolding utf8_pair
one_pair c h = (omega arith, (omega arith, (omega arith, (omega arith, tt))))

utf8_from-AreBytes : (skip : Bool) (text : Text) → AllUnits text → AreBytes (utf8_from skip text)
unfolding utf8_from
utf8_from-AreBytes true [] h = tt
utf8_from-AreBytes false [] h = tt
utf8_from-AreBytes true (u ∷ us) h = utf8_from-AreBytes false us h.1
utf8_from-AreBytes false (u ∷ []) h = one_unit u h.0
utf8_from-AreBytes false (u ∷ w ∷ us) h = elim (Bool-cases (is_high u && is_low w)) [
  | inl paired ↦ rw paired (
      All-append (λ b. b < 256) (utf8_pair (65536 + (u - 55296) * 1024 + (w - 56320)))
        (utf8_from true (w ∷ us)) (one_pair _ (ground (arith, paired)))
        (utf8_from-AreBytes true (w ∷ us) h.1))
  | inr alone ↦ rw alone (
      All-append (λ b. b < 256) (utf8_unit u) (utf8_from false (w ∷ us)) (one_unit u h.0)
        (utf8_from-AreBytes false (w ∷ us) h.1))
]

pub utf8-AllBytes : (text : Text) → AllUnits text → All (λ b. b < 256) (utf8 text)
unfolding utf8
utf8-AllBytes text h = utf8_from-AreBytes false text h
