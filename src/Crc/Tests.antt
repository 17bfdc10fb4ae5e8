-- ===== src/Crc/Tests.antt =====
-- The table of the checksum at one byte.
use lbzip.Shared.{◌≡◌, refl, ◌*◌, ◌^◌, arith, get_or, [], ◌∷◌, bit_xor}
use lbzip.Crc.{crc_bytes}
use lbzip.Crc.Table.{crc_table}
use lbzip.Crc.Polynomial.{times_x_power, crc_table-times_x}

crc_table-times_x_example : get_or crc_table 0x80 0 ≡ times_x_power 8 (0x80 * 2 ^ 24)
crc_table-times_x_example = crc_table-times_x 0x80 (omega arith)

-- the check value of this checksum, for the digits from 1 to 9
check_value :
    bit_xor (crc_bytes 0xFFFFFFFF (49 ∷ 50 ∷ 51 ∷ 52 ∷ 53 ∷ 54 ∷ 55 ∷ 56 ∷ 57 ∷ [])) 0xFFFFFFFF
    ≡ 0xFC891918
unfolding crc_bytes
check_value = refl
