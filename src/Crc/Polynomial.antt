-- ===== src/Crc/Polynomial.antt =====
-- src/crctab.c: the table against the polynomial of the checksum.
use lbzip.Shared.{
  ℕ, zero, suc, ◌*◌, ◌%◌, ◌^◌, ◌<◌, bit_xor, ◌≡◌, refl, true, ◌==◌, ==→eq, if◌then◌else◌, get_or,
  leb,
}
use lbzip.Shared.Table.{holds_below, holds_below_at}
use lbzip.Crc.Table.{crc_table}

-- x^32 + x^26 + x^23 + x^22 + x^16 + x^12 + x^11 + x^10 + x^8 + x^7 + x^5 + x^4 + x^2 + x + 1,
-- without its highest term
abbrev pub polynomial : ℕ
polynomial = 0x04C11DB7

-- a remainder of 32 bits, times x: the highest bit first
unfoldable pub times_x : ℕ → ℕ
times_x r = let s = r * 2 % 2 ^ 32 in if leb (2 ^ 31) r then bit_xor s polynomial else s

unfoldable pub times_x_power : ℕ → ℕ → ℕ
times_x_power zero r = r
times_x_power (suc n) r = times_x_power n (times_x r)

polynomial_table :
    holds_below 256 (λ x. get_or crc_table x 0 == times_x_power 8 (x * 2 ^ 24)) ≡ true
unfolding holds_below crc_table times_x_power times_x
polynomial_table = refl

-- Each entry of the table is the remainder of its byte, as a polynomial, times x^32: what eight
-- single steps of the division leave of the byte at the top of the register.
pub crc_table-times_x : (x : ℕ) → x < 256 → get_or crc_table x 0 ≡ times_x_power 8 (x * 2 ^ 24)
crc_table-times_x x lt =
    ==→eq (get_or crc_table x 0) (times_x_power 8 (x * 2 ^ 24))
      (holds_below_at 256 _ x polynomial_table lt)
