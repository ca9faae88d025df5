-- ===== src/Users/Passwords.antt =====
-- Passwords (utils/crypto.ts): `salt:hash` in hexadecimal, by node's scrypt.
use bianhao.Base.{
  ℕ, ◌*◌, ◌/◌, ◌≡◌, ◌≢◌, refl, ap, ◌∙◌, Bool, true, false, ◌&&◌, String, [], ◌∷◌, ◌++◌, All, length,
  ◌==◌, if◌then◌else◌, arith,
}
use bianhao.Money.{Text}

-- The salts that are drawn and scrypt on a password, a salt and a number of bytes, as hexadecimal
-- texts.
pub record Hashing : Type 0 where
  pub random_salt : ℕ → Text
  pub scrypt : String → Text → ℕ → Text

abbrev pub colon : ℕ
colon = 58

unfoldable pub hash_password : Hashing → ℕ → String → Text
hash_password h tick password =
    let salt = Hashing.random_salt h tick in salt ++ colon ∷ Hashing.scrypt h password salt 64

-- The first piece of `stored.split(':')`, and what follows it.
unfoldable pub first_piece : Text → Text
first_piece [] = []
first_piece (c ∷ cs) = let rest = first_piece cs in if c == colon then [] else c ∷ rest

unfoldable pub after_piece : Text → Text
after_piece [] = []
after_piece (c ∷ cs) = let rest = after_piece cs in if c == colon then cs else rest

-- Equal buffers have equal texts in hexadecimal.
unfoldable pub same_text : Text → Text → Bool
same_text [] [] = true
same_text [] (d ∷ ds) = false
same_text (c ∷ cs) [] = false
same_text (c ∷ cs) (d ∷ ds) = c == d && same_text cs ds

abbrev is_nil : Text → Bool
is_nil [] = true
is_nil (c ∷ cs) = false

unfoldable pub verify_password : Hashing → String → Text → Bool
unfolding first_piece after_piece same_text
verify_password h password stored =
    let salt = first_piece stored in
    let hash = first_piece (after_piece stored) in
    if is_nil salt
    then false
    else if is_nil hash
    then false
    else same_text hash (Hashing.scrypt h password salt (length hash / 2))

-- A text of hexadecimal digits has no colon.
abbrev pub NoColon : Text → Type 0
NoColon text = All (λ c. c ≢ colon) text

-- Salts and hashes are hexadecimal, a salt has bytes, and scrypt gives as many as are asked for.
abbrev pub IsHex : Hashing → Type 0
IsHex h =
    ((tick : ℕ)
      → NoColon (Hashing.random_salt h tick) × (is_nil (Hashing.random_salt h tick) ≡ false))
    × ((password : String) (salt : Text) (bytes : ℕ)
        → NoColon (Hashing.scrypt h password salt bytes)
          × (length (Hashing.scrypt h password salt bytes) ≡ 2 * bytes))

first_piece_ends : (text rest : Text) → NoColon text → first_piece (text ++ colon ∷ rest) ≡ text
unfolding first_piece
first_piece_ends [] rest h = refl
first_piece_ends (c ∷ text) rest h =
    let other = h.0 in let next = first_piece_ends text rest h.1 in ground arith

first_piece_whole : (text : Text) → NoColon text → first_piece text ≡ text
unfolding first_piece
first_piece_whole [] h = refl
first_piece_whole (c ∷ text) h =
    let other = h.0 in let next = first_piece_whole text h.1 in ground arith

after_piece_rest : (text rest : Text) → NoColon text → after_piece (text ++ colon ∷ rest) ≡ rest
unfolding after_piece
after_piece_rest [] rest h = refl
after_piece_rest (c ∷ text) rest h =
    let other = h.0 in let next = after_piece_rest text rest h.1 in ground arith

same_text_refl : (text : Text) → same_text text text ≡ true
unfolding same_text
same_text_refl [] = refl
same_text_refl (c ∷ text) = let next = same_text_refl text in ground arith

-- A text of two pieces, none of them empty: the second is compared with scrypt's.
verify_pieces :
    (h : Hashing) (password : String) (salt hash : Text)
    → NoColon salt
    → NoColon hash
    → is_nil salt ≡ false
    → is_nil hash ≡ false
    → verify_password h password (salt ++ colon ∷ hash)
      ≡ same_text hash (Hashing.scrypt h password salt (length hash / 2))
unfolding verify_password
verify_pieces h password salt hash plain_salt plain_hash some_salt some_hash =
    rw
      (
        first_piece_ends salt hash plain_salt,
        after_piece_rest salt hash plain_salt,
        first_piece_whole hash plain_hash,
        some_salt,
        some_hash,
      )
      refl

not_nil : (text : Text) → length text ≡ 128 → is_nil text ≡ false
not_nil [] h = absurd (omega arith)
not_nil (c ∷ text) h = refl

-- The password that was hashed is accepted.
pub verify_password-hash_password :
    (h : Hashing) (tick : ℕ) (password : String)
    → IsHex h
    → verify_password h password (hash_password h tick password) ≡ true
unfolding hash_password
verify_password-hash_password h tick password (salts, hashes) =
    let salt = Hashing.random_salt h tick in
    let hash = Hashing.scrypt h password salt 64 in
    let (plain, long) = hashes password salt 64 in
    let half : length hash / 2 ≡ 64 = ap (λ n. n / 2) long in
    verify_pieces h password salt hash (salts tick).0 plain (salts tick).1 (not_nil hash long)
    ∙ ap (λ n. same_text hash (Hashing.scrypt h password salt n)) half
    ∙ same_text_refl hash
