-- ===== src/Bitstream.antt =====
-- src/decode.h and the `bits_` macros of src/parse.c: the buffered reader of bits.
-- Words stand in host order: `ntohl` has been applied to each.
pub mod View
pub mod Read
use lbzip.Shared.{ℕ, ◌+◌, ◌-◌, ◌*◌, ◌/◌, ◌%◌, ◌^◌, bit_or, Bool, List, [], ◌∷◌, leb, if◌then◌else◌}
use lbzip.Common.{Code, ok, more, finish}

-- `words` is what lies between `data` and `limit`. The link to the I/O block is left out.
pub record Bitstream : Type 0 where
  pub live : ℕ
  pub buff : ℕ
  pub words : List ℕ
  pub eof : Bool

-- a subtraction of `unsigned`
abbrev pub sub32 : ℕ → ℕ → ℕ
sub32 a b = (a + 2 ^ 32 - b) % 2 ^ 32

-- `bits_need` when the buffer holds too few bits
unfoldable pub refill : List ℕ → Bitstream → Code × Bitstream
refill [] bs = (if bs.eof then finish else more, bs)
refill (w ∷ ws) bs = (
  ok,
  record bs {
    live = bs.live + 32;
    buff = bit_or bs.buff (w * 2 ^ (32 - bs.live) % 2 ^ 64);
    words = ws;
  },
)

unfoldable pub bits_need : Bitstream → ℕ → Code × Bitstream
unfolding refill
bits_need bs n = if leb n bs.live then (ok, bs) else refill bs.words bs

unfoldable pub bits_peek : Bitstream → ℕ → ℕ
bits_peek bs n = bs.buff / 2 ^ (64 - n)

unfoldable pub bits_dump : Bitstream → ℕ → Bitstream
bits_dump bs n = record bs { buff = bs.buff * 2 ^ n % 2 ^ 64; live = sub32 bs.live n }

unfoldable pub bits_align : Bitstream → Bitstream
unfolding bits_dump
bits_align bs = bits_dump bs (bs.live % 8)

unfoldable pub bits_consume : Bitstream → Bitstream
unfolding bits_dump
bits_consume bs = record (bits_dump bs bs.live) { words = [] }
