-- ===== src/Crc.antt =====
-- src/crctab.c and the macro CRC of src/encode.c: the checksum of a block.
pub mod Table
pub mod Polynomial
mod Tests
use lbzip.Shared.{ℕ, ◌*◌, ◌/◌, ◌%◌, ◌^◌, bit_xor, List, [], ◌∷◌, ◌++◌, get_or, ◌≡◌, refl}
use Table.{crc_table}

-- `(crc << 8) ^ crc_table[(crc >> 24) ^ x]`
unfoldable pub crc_step : ℕ → ℕ → ℕ
unfolding crc_table
crc_step crc x = bit_xor (crc * 2 ^ 8 % 2 ^ 32) (get_or crc_table (bit_xor (crc / 2 ^ 24) x) 0)

-- the checksum after some more bytes
unfoldable pub crc_bytes : ℕ → List ℕ → ℕ
unfolding crc_step
crc_bytes crc [] = crc
crc_bytes crc (x ∷ xs) = crc_bytes (crc_step crc x) xs

pub crc_bytes-append :
    (crc : ℕ) (xs ys : List ℕ) → crc_bytes crc (xs ++ ys) ≡ crc_bytes (crc_bytes crc xs) ys
unfolding crc_bytes
crc_bytes-append crc [] ys = refl
crc_bytes-append crc (x ∷ xs) ys = crc_bytes-append (crc_step crc x) xs ys
