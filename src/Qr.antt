-- ===== src/Qr.antt =====
-- qr/qrEncoder.ts: the QR encoder. `Field` has the arithmetic of GF(256) and Reed-Solomon, `Data`
-- the bit stream of a content and the choice of the version, `Codewords` the blocks, `Layout` the
-- function patterns, `Matrix` placement, masks and the choice of the mask, `Decode` the decoder.
-- The other children are proofs.
pub mod Field
pub mod Data
pub mod Codewords
pub mod Logarithms
pub mod Evaluation
pub mod Capacity
pub mod Decode
pub mod Grid
pub mod Layout
pub mod Penalty
pub mod Matrix
pub mod Reading
pub mod Cells
pub mod GridLaws
pub mod Placement
pub mod Masking
pub mod Stream
pub mod Soundness
pub mod Polynomials
pub mod Bch
pub mod Words
pub mod Whole
pub mod Blocks
pub mod Counts
pub mod Bits
pub mod RoundTrip
pub mod Symbols
pub mod Utf8
pub mod Numerals
pub mod Contents
pub mod Division
pub mod Syndromes
