-- ===== src/Qr/RoundTrip.antt =====
-- What is encoded is decoded again (qr/qrEncoder.ts): from the codewords of a symbol, the decoder reads
-- the text's digits or the content's bytes.
use mathlib.Core.List.{append-nil, append_assoc}
use bianhao.Base.{
  ℕ, zero, suc, ◌-◌, ◌*◌, ◌/◌, ◌%◌, ◌≤◌, ◌<◌, ◌≡◌, refl, ap, ◌∙◌, sym, subst, inl, inr, List, [],
  ◌∷◌, ◌++◌, length, length-append, All-append, ltb, ◌==◌, arith, Bool-cases,
}
use bianhao.Money.{Text}
use bianhao.Qr.Capacity.{Fits}
use bianhao.Qr.Data.{total_data_codewords, encode_data, Mode}
use bianhao.Qr.Codewords.{codewords_of, data_codewords, fill_byte, pad_to, pads, terminate}
use bianhao.Qr.Decode.{bits_of_all}
use bianhao.Qr.Bits.{AllBits, bits_of_all-append, bits_of_all-codewords_of, length-codewords_of}

-- `longer` is `bits` with more bits behind, and no longer than `limit`.
abbrev pub Extends : List ℕ → List ℕ → ℕ → Type 0
Extends bits longer limit =
    (more : List ℕ) × (longer ≡ bits ++ more) × AllBits more × (length longer ≤ limit)

extend_by_zero :
    (bits longer : List ℕ) (limit : ℕ)
    → Extends (bits ++ 0 ∷ []) longer limit
    → Extends bits longer limit
extend_by_zero bits longer limit (more, e, h, le) =
    (0 ∷ more, e ∙ append_assoc bits (0 ∷ []) more, (omega arith, h), le)

unchanged : (bits : List ℕ) (limit : ℕ) → length bits ≤ limit → Extends bits bits limit
unchanged bits limit le = ([], sym (append-nil bits), tt, le)

terminate-Extends :
    (left limit : ℕ) (bits : List ℕ)
    → length bits ≤ limit
    → Extends bits (terminate left limit bits) limit
unfolding terminate
terminate-Extends zero limit bits le = unchanged bits limit le
terminate-Extends (suc left) limit bits le = elim (Bool-cases (ltb (length bits) limit)) [
  | inl room ↦ rw room (
      extend_by_zero bits (terminate left limit (bits ++ 0 ∷ [])) limit (
        terminate-Extends left limit (bits ++ 0 ∷ [])
          (ground (arith, room, length-append bits (0 ∷ [])))))
  | inr full ↦ rw full (unchanged bits limit le)
]

-- Eight turns are enough to reach a whole byte.
fill_byte-Extends :
    (left total : ℕ) (bits : List ℕ)
    → length bits ≤ total * 8
    → (8 - length bits % 8) % 8 ≤ left
    → Extends bits (fill_byte left bits) (total * 8) × (length (fill_byte left bits) % 8 ≡ 0)
unfolding fill_byte
fill_byte-Extends zero total bits le enough = (unchanged bits (total * 8) le, omega (arith, enough))
fill_byte-Extends (suc left) total bits le enough = elim (Bool-cases (length bits % 8 == 0)) [
  | inl whole ↦ rw whole (unchanged bits (total * 8) le, ground (arith, whole))
  | inr broken ↦
      let len = length-append bits (0 ∷ []) in
      let (longer, done) =
        fill_byte-Extends left total (bits ++ 0 ∷ []) (ground (arith, broken, len))
          (ground (arith, broken, len, enough)) in
      rw broken (extend_by_zero bits (fill_byte left (bits ++ 0 ∷ [])) (total * 8) longer, done)
]

Extends-trans :
    (a b c : List ℕ) (limit : ℕ) → Extends a b limit → Extends b c limit → Extends a c limit
Extends-trans a b c limit (more, e, h, le) (further, f, k, lf) = (
  more ++ further,
  f ∙ ap (λ bits. bits ++ further) e ∙ append_assoc a more further,
  All-append (λ b. b < 2) more further h k,
  lf,
)

length-pads : (n i : ℕ) → length (pads n i) ≡ n
unfolding pads
length-pads zero i = refl
length-pads (suc n) i = ap suc (length-pads n (suc i))

pub length-pad_to :
    (total : ℕ) (codewords : List ℕ)
    → length codewords ≤ total
    → length (pad_to total codewords) ≡ total
unfolding pad_to
length-pad_to total codewords h = omega (
  arith,
  length-append codewords (pads (total - length codewords) 0),
  length-pads (total - length codewords) 0,
)

module _ (text : Text) (mode : Mode) (v : ℕ) (fits : Fits text mode v)
    (binary : AllBits (encode_data text mode v)) where
  abbrev pub stream : List ℕ
  stream = encode_data text mode v

  abbrev pub filled : List ℕ
  filled = fill_byte 8 (terminate 4 (total_data_codewords v * 8) stream)

  filled-Extends : Extends stream filled (total_data_codewords v * 8) × (length filled % 8 ≡ 0)
  filled-Extends =
      let capacity = total_data_codewords v * 8 in
      let ended = terminate-Extends 4 capacity stream fits in
      let (whole, done) =
        fill_byte-Extends 8 (total_data_codewords v) (terminate 4 capacity stream) ended.3
          (omega arith) in
      (Extends-trans stream (terminate 4 capacity stream) filled capacity ended whole, done)

  pub filled_whole : length filled % 8 ≡ 0
  filled_whole = filled-Extends.1

  pub filled-AllBits : AllBits filled
  filled-AllBits =
      let (more, e, h, le) = filled-Extends.0 in
      subst AllBits (sym e) (All-append (λ b. b < 2) stream more binary h)

  packed_le : length (codewords_of (length filled / 8) filled) ≤ total_data_codewords v
  packed_le =
      let (more, e, h, le) = filled-Extends.0 in
      omega (arith, le, length-codewords_of (length filled / 8) filled)

  -- The data codewords fill the version exactly.
  pub length-data_codewords : length (data_codewords text mode v) ≡ total_data_codewords v
  unfolding data_codewords
  length-data_codewords =
      length-pad_to (total_data_codewords v) (codewords_of (length filled / 8) filled) packed_le

  -- Their bits are the stream and what follows it.
  pub data_codewords_bits :
      (more : List ℕ) × (bits_of_all (data_codewords text mode v) ≡ stream ++ more)
  unfolding data_codewords pad_to
  data_codewords_bits =
      let (more, e, h, le) = filled-Extends.0 in
      let packed = codewords_of (length filled / 8) filled in
      let padding = bits_of_all (pads (total_data_codewords v - length packed) 0) in
      (
        more ++ padding,
        bits_of_all-append packed (pads (total_data_codewords v - length packed) 0)
            ∙ ap (λ bits. bits ++ padding)
                (bits_of_all-codewords_of (length filled / 8) filled
                    (omega (arith, filled-Extends.1)) filled-AllBits
                  ∙ e)
            ∙ append_assoc stream more padding,
      )
