-- ===== src/Qr/Words.antt =====
-- The format and version words (qr/qrEncoder.ts) as codewords of the BCH codes of the standard.
use Prim.Native.Nat.{bit_xor}
use bianhao.Base.{
  ℕ, ◌/◌, ◌^◌, ◌≤◌, ◌<◌, ◌≡◌, ◌≢◌, refl, true, ◌&&◌, ◌||◌, ◌==◌, ltb, leb, holds_below,
  holds_below_at, arith,
}
use bianhao.Qr.Layout.{bch_format, bch_version}
use bianhao.Qr.Polynomials.{long_division, ones}

-- The mask that format words are shown under
abbrev pub format_mask : ℕ
format_mask = 0x5412

-- Fifteen digits of which the first five are the number, divisible by x^10 + x^8 + x^5 + x^4 + x^2 + x + 1.
abbrev pub IsFormatWord : ℕ → ℕ → Type 0
IsFormatWord n word = (word < 2 ^ 15) × (word / 2 ^ 10 ≡ n) × (long_division 5 0x537 10 word ≡ 0)

-- Eighteen digits of which the first six are the number, divisible by x^12 + x^11 + x^10 + x^9 + x^8 +
-- x^5 + x^2 + 1.
abbrev pub IsVersionWord : ℕ → ℕ → Type 0
IsVersionWord n word = (word < 2 ^ 18) × (word / 2 ^ 12 ≡ n) × (long_division 6 0x1f25 12 word ≡ 0)

format_table :
    holds_below 32 (λ n.
      ltb (bit_xor (bch_format n) format_mask) (2 ^ 15)
      && bit_xor (bch_format n) format_mask / 2 ^ 10 == n
      && long_division 5 0x537 10 (bit_xor (bch_format n) format_mask) == 0)
    ≡ true
unfolding holds_below bch_format long_division
format_table = refl

version_table :
    holds_below 64 (λ n.
      ltb (bch_version n) (2 ^ 18)
      && bch_version n / 2 ^ 12 == n
      && long_division 6 0x1f25 12 (bch_version n) == 0)
    ≡ true
unfolding holds_below bch_version long_division
version_table = refl

format_distances :
    holds_below 32
      (λ m. holds_below 32 (λ n. m == n || leb 7 (ones 15 (bit_xor (bch_format m) (bch_format n)))))
    ≡ true
unfolding holds_below bch_format ones
format_distances = refl

version_distances :
    holds_below 64 (λ m.
      holds_below 64 (λ n. m == n || leb 8 (ones 18 (bit_xor (bch_version m) (bch_version n)))))
    ≡ true
unfolding holds_below bch_version ones
version_distances = refl

-- For a five-bit format the word of `bchFormat`, its mask taken away, and for a six-bit version the
-- word of `bchVersion` are the codewords of the standard that begin with the number. Words of two
-- formats differ in at least 7 of 15 digits, and words of two versions in at least 8 of 18.
pub bch_words :
    (f g v w : ℕ)
    → f < 32
    → g < 32
    → f ≢ g
    → v < 64
    → w < 64
    → v ≢ w
    → IsFormatWord f (bit_xor (bch_format f) format_mask)
      × IsVersionWord v (bch_version v)
      × (7 ≤ ones 15 (bit_xor (bch_format f) (bch_format g)))
      × (8 ≤ ones 18 (bit_xor (bch_version v) (bch_version w)))
bch_words f g v w low_f low_g apart_formats low_v low_w apart_versions =
    let format = holds_below_at 32 _ f format_table low_f in
    let version = holds_below_at 64 _ v version_table low_v in
    let formats = holds_below_at 32 _ g (holds_below_at 32 _ f format_distances low_f) low_g in
    let versions = holds_below_at 64 _ w (holds_below_at 64 _ v version_distances low_v) low_w in
    (
      (ground (arith, format), ground (arith, format), ground (arith, format)),
      (ground (arith, version), ground (arith, version), ground (arith, version)),
      ground (arith, formats),
      ground (arith, versions),
    )
