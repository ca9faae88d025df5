-- ===== src/Qr/Polynomials.antt =====
-- Polynomials over two elements as binary numbers, against which qr/qrEncoder.ts is proved: the product
-- without carries, and the remainder of long division.
use Prim.Native.Nat.{bit_xor}
use bianhao.Base.{ℕ, zero, suc, ◌+◌, ◌*◌, ◌/◌, ◌%◌, ◌^◌, ◌==◌, if◌then◌else◌}

-- The sum of the shifts of `a` that the lowest `n` digits of `b` select, the first shifted by `i`.
unfoldable pub carryless : ℕ → ℕ → ℕ → ℕ → ℕ
carryless zero i a b = 0
carryless (suc n) i a b =
    let rest = carryless n (suc i) a (b / 2) in
    if b % 2 == 1 then bit_xor (a * 2 ^ i) rest else rest

-- The remainder of `x`, which has at most `degree + n` digits, by a modulus of that degree: from the
-- top digit down, the shifted modulus is taken away where the digit is 1.
unfoldable pub long_division : ℕ → ℕ → ℕ → ℕ → ℕ
long_division zero modulus degree x = x
long_division (suc n) modulus degree x =
    long_division n modulus degree
      (if x / 2 ^ (degree + n) % 2 == 1 then bit_xor x (modulus * 2 ^ n) else x)

-- How many of the lowest `n` digits are 1.
unfoldable pub ones : ℕ → ℕ → ℕ
ones zero x = 0
ones (suc n) x = x % 2 + ones n (x / 2)
