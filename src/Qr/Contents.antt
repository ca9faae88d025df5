-- ===== src/Qr/Contents.antt =====
-- A content that fits is read back from the codewords of its symbol (qr/qrEncoder.ts).
use mathlib.Core.List.{append_assoc}
use bianhao.Base.{
  ℕ, ◌+◌, ◌*◌, ◌^◌, ◌<◌, ◌≡◌, refl, ap, ◌∙◌, subst, some, true, ◌&&◌, List, [], ◌++◌, length, All,
  ltb, holds_below, holds_below_at, arith,
}
use bianhao.Money.{Text}
use bianhao.Qr.Numerals.{put_digits_all, read_digits_back}
use bianhao.Qr.Capacity.{Chosen, choose_version-Chosen, Fits, length-encode_data}
use bianhao.Qr.Data.{
  Mode, all_digits, choose_version, detect_mode, bits_of, count_bits, encode_data, need, put,
  put_digits, total_data_codewords, utf8, content_bits,
}
use bianhao.Qr.Utf8.{AllUnits, utf8-AllBytes}
use bianhao.Qr.Decode.{
  Payload, bits_of_all, decode_stream, read_bytes, read_digits, read_payload, payload_of, digits_of,
  bytes_of,
}
use bianhao.Qr.Bits.{put_bytes_all, read-put, read_bytes_back}
use bianhao.Qr.Symbols.{data_part, decode_stream-data_part}

-- The counters of versions 1 to 10 are wide enough for what fits.
counter_table :
    holds_below 11 (λ v.
      ltb (total_data_codewords v) (2 ^ count_bits Mode.byte v)
      && ltb (total_data_codewords v * 24 + 30) (10 * 2 ^ count_bits Mode.numeric v))
    ≡ true
unfolding holds_below total_data_codewords count_bits
counter_table = refl

counters_wide :
    (v : ℕ)
    → v < 11
    → (total_data_codewords v < 2 ^ count_bits Mode.byte v)
      × (total_data_codewords v * 24 + 30 < 10 * 2 ^ count_bits Mode.numeric v)
counters_wide v h = ground (arith, holds_below_at 11 _ v counter_table h)

-- A stream of a mode indicator, a counter and a content, taken apart.
headed :
    (indicator width count : ℕ) (content more : List ℕ)
    → ((bits_of 4 indicator ++ bits_of width count) ++ content) ++ more
      ≡ bits_of 4 indicator ++ (bits_of width count ++ (content ++ more))
headed indicator width count content more =
    append_assoc (bits_of 4 indicator ++ bits_of width count) content more
    ∙ append_assoc (bits_of 4 indicator) (bits_of width count) (content ++ more)

module _ (v count : ℕ) (tail : List ℕ) where
  read_payload_bytes :
      count < 2 ^ count_bits Mode.byte v
      → read_payload v (bits_of 4 4 ++ (bits_of (count_bits Mode.byte v) count ++ tail))
        ≡ Payload.bytes (read_bytes count tail)
  unfolding read_payload payload_of bytes_of
  read_payload_bytes h =
      ap (payload_of v)
        (read-put 4 4 (bits_of (count_bits Mode.byte v) count ++ tail) (omega arith))
      ∙ ap bytes_of (read-put (count_bits Mode.byte v) count tail h)

  read_payload_digits :
      count < 2 ^ count_bits Mode.numeric v
      → read_payload v (bits_of 4 1 ++ (bits_of (count_bits Mode.numeric v) count ++ tail))
        ≡ Payload.digits (read_digits count tail)
  unfolding read_payload payload_of digits_of
  read_payload_digits h =
      ap (payload_of v)
        (read-put 4 1 (bits_of (count_bits Mode.numeric v) count ++ tail) (omega arith))
      ∙ ap digits_of (read-put (count_bits Mode.numeric v) count tail h)

module _ (text : Text) (v : ℕ) (low : v < 11) where
  bytes_counted : Fits text Mode.byte v → length (utf8 text) < 2 ^ count_bits Mode.byte v
  unfolding need content_bits
  bytes_counted fits =
      omega (arith, fits, length-encode_data text Mode.byte v, (counters_wide v low).0)

  digits_counted : Fits text Mode.numeric v → length text < 2 ^ count_bits Mode.numeric v
  unfolding need content_bits
  digits_counted fits =
      omega (arith, fits, length-encode_data text Mode.numeric v, (counters_wide v low).1)

  read_payload_of_bytes :
      (more : List ℕ)
      → Fits text Mode.byte v
      → All (λ b. b < 256) (utf8 text)
      → read_payload v (encode_data text Mode.byte v ++ more) ≡ Payload.bytes (utf8 text)
  unfolding encode_data put
  read_payload_of_bytes more fits small =
      let width = count_bits Mode.byte v in
      let count = length (utf8 text) in
      let content = bits_of_all (utf8 text) in
      ap (λ bits. read_payload v (bits ++ more))
        (put_bytes_all (bits_of 4 4 ++ bits_of width count) (utf8 text))
      ∙ ap (read_payload v) (headed 4 width count content more)
      ∙ read_payload_bytes v count (content ++ more) (bytes_counted fits)
      ∙ ap Payload.bytes (read_bytes_back (utf8 text) more small)

  read_payload_of_digits :
      (more : List ℕ)
      → Fits text Mode.numeric v
      → all_digits text ≡ true
      → read_payload v (encode_data text Mode.numeric v ++ more) ≡ Payload.digits text
  unfolding encode_data put
  read_payload_of_digits more fits digital =
      let width = count_bits Mode.numeric v in
      let content = put_digits [] text in
      ap (λ bits. read_payload v (bits ++ more))
        (put_digits_all (bits_of 4 1 ++ bits_of width (length text)) text)
      ∙ ap (read_payload v) (headed 1 width (length text) content more)
      ∙ read_payload_digits v (length text) (content ++ more) (digits_counted fits)
      ∙ ap Payload.digits (read_digits_back text more digital)

-- What the decoder should find: the digits of a text of digits, else the bytes of the content.
abbrev pub content_of : Text → Mode → Payload
content_of text Mode.numeric = Payload.digits text
content_of text Mode.byte = Payload.bytes (utf8 text)

decode_fitting :
    (text : Text) (v : ℕ) (checks : List ℕ)
    → v < 11
    → AllUnits text
    → (mode : Mode) → (mode ≡ Mode.numeric → all_digits text ≡ true)
    → (fits : Fits text mode v)
    → decode_stream v (data_part text mode v fits ++ checks) ≡ content_of text mode
decode_fitting text v checks low units Mode.byte h fits =
    let (more, e) = decode_stream-data_part text Mode.byte v fits checks in
    e ∙ read_payload_of_bytes text v low more fits (utf8-AllBytes text units)
decode_fitting text v checks low units Mode.numeric h fits =
    let (more, e) = decode_stream-data_part text Mode.numeric v fits checks in
    e ∙ read_payload_of_digits text v low more fits (h refl)

detected_digits : (text : Text) → detect_mode text ≡ Mode.numeric → all_digits text ≡ true
unfolding detect_mode
detected_digits text h = ground arith

pub chosen-Fits :
    (text : Text) (mode : Mode) (v : ℕ)
    → choose_version text mode ≡ some v
    → (v < 11) × Fits text mode v
chosen-Fits text mode v e =
    let (p, q, fits, least) = subst (Chosen 1 11 text mode) e (choose_version-Chosen text mode) in
    (q, fits)

-- The data codewords of a text of 16-bit units, in the detected mode and a version that it fits, are
-- decoded to the text's digits or to its bytes, whatever codewords follow.
pub decode_stream-detected :
    (text : Text) (v : ℕ) (checks : List ℕ)
    → AllUnits text
    → v < 11
    → (fits : Fits text (detect_mode text) v)
    → decode_stream v (data_part text (detect_mode text) v fits ++ checks)
      ≡ content_of text (detect_mode text)
decode_stream-detected text v checks units low fits =
    decode_fitting text v checks low units (detect_mode text) (detected_digits text) fits
