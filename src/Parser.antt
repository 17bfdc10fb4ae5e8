-- ===== src/Parser.antt =====
-- src/parse.c, parse(): the automaton that reads the headers of streams and blocks.
mod Tests
pub mod Total
pub mod Feed
pub mod Headers
pub mod Resume
pub mod Streams
use lbzip.Shared.{
  ℕ, zero, suc, ◌+◌, ◌*◌, ◌/◌, ◌%◌, ◌^◌, bit_and, bit_or, bit_xor, Bool, not, ◌||◌, ltb, ◌==◌,
  if◌then◌else◌, length,
}
use lbzip.Common.{Code, ok, more, finish, err_header, err_strmcrc, err_eof, ℤ, pos, negsuc}
use lbzip.Bitstream.{Bitstream, bits_need, bits_peek, bits_dump, bits_align}

-- the states of the automaton; `accept` is the constant ACCEPT
pub data State : Type 0 where
  stream_magic_1 stream_magic_2 block_magic_1 block_magic_2 block_magic_3 : State
  block_crc_1 block_crc_2 eos_2 eos_3 eos_crc_1 eos_crc_2 accept : State

-- `struct parser_state`
pub record ParserState : Type 0 where
  pub state : State
  pub bs100k : ℕ
  pub stored_crc : ℕ
  pub computed_crc : ℕ
  pub stream_mode : Bool

-- `struct header`
pub record Header : Type 0 where
  pub bs100k : ℤ
  pub crc : ℕ

unfoldable pub parser_init : ParserState → ℕ → Bool → ParserState
parser_init ps bs100k stream_mode = record ps {
  state = block_magic_1;
  bs100k = bs100k;
  computed_crc = 0;
  stream_mode = stream_mode;
}

-- what parse() reads and writes: its four arguments
pub record Parse : Type 0 where
  pub ps : ParserState
  pub hd : Header
  pub bs : Bitstream
  pub garbage : ℕ

-- how one round of the loop ends
pub data Round : Type 0 where
  continue : Parse → Round
  return : Code → Parse → Round
  abort : Round

abbrev pub go_to : State → Parse → Parse
go_to s p = record p { ps = record p.ps { state = s } }

abbrev pub next : State → Parse → Round
next s p = continue (go_to s p)

-- `word` must be `magic`
abbrev pub expect : ℕ → ℕ → State → Parse → Round
expect word magic s p = if word == magic then next s p else return err_header p

-- what follows the end of a stream is no stream: `bits` bits of garbage
abbrev pub reject : ℕ → Parse → Round
reject bits p =
    return finish
      (record (go_to accept p) { hd = record { bs100k = negsuc 0; crc = 0 }; garbage = bits })

-- the checksum of a stream after one more block, as the decompressor computes it
unfoldable pub add_crc : ℕ → ℕ → ℕ
add_crc computed crc = bit_xor (bit_xor (computed * 2 % 2 ^ 32) (computed / 2 ^ 31)) crc

unfoldable pub join16 : ℕ → ℕ → ℕ
join16 hi lo = bit_or (hi * 2 ^ 16 % 2 ^ 32) lo

unfoldable pub block_found : ℕ → Parse → Round
unfolding add_crc join16
block_found word p =
    let crc = join16 p.ps.stored_crc word in
    return ok (record p {
      ps = record p.ps { state = block_magic_1; computed_crc = add_crc p.ps.computed_crc crc };
      hd = record { bs100k = pos p.ps.bs100k; crc = crc };
    })

unfoldable pub stream_end : ℕ → Parse → Round
unfolding join16 bits_align
stream_end word p =
    let stored = join16 p.ps.stored_crc word in
    let q = record p { ps = record p.ps { stored_crc = stored } } in
    if not (stored == p.ps.computed_crc)
    then return err_strmcrc q
    else if p.ps.stream_mode
    then return finish (record (go_to accept q) { garbage = 0 })
    else continue (record q {
      ps = record q.ps { state = stream_magic_1; computed_crc = 0 };
      bs = bits_align q.bs;
    })

-- the `switch`
unfoldable pub parse_word : State → ℕ → Parse → Round
unfolding block_found stream_end
parse_word stream_magic_1 word p =
    if p.ps.stream_mode
    then abort
    else if word == 0x425A
    then next stream_magic_2 p
    else reject 16 p
parse_word stream_magic_2 word p =
    if p.ps.stream_mode
    then abort
    else if ltb 0x6839 word || ltb word 0x6831
    then reject 32 p
    else continue
        (record p { ps = record p.ps { state = block_magic_1; bs100k = bit_and word 15 } })
parse_word block_magic_1 word p =
    if word == 0x1772 then next eos_2 p else expect word 0x3141 block_magic_2 p
parse_word block_magic_2 word p = expect word 0x5926 block_magic_3 p
parse_word block_magic_3 word p = expect word 0x5359 block_crc_1 p
parse_word block_crc_1 word p =
    continue (record p { ps = record p.ps { state = block_crc_2; stored_crc = word } })
parse_word block_crc_2 word p = block_found word p
parse_word eos_2 word p = expect word 0x4538 eos_3 p
parse_word eos_3 word p = expect word 0x5090 eos_crc_1 p
parse_word eos_crc_1 word p =
    continue (record p { ps = record p.ps { state = eos_crc_2; stored_crc = word } })
parse_word eos_crc_2 word p = stream_end word p
parse_word accept word p = abort

-- how a call ends; `aborted` is a failed assertion
pub data Outcome : Type 0 where
  returned : Code → Parse → Outcome
  aborted out_of_fuel : Outcome

unfoldable pub at_eof : State → Parse → Outcome
at_eof stream_magic_1 p = returned finish (record (go_to accept p) { garbage = 0 })
at_eof stream_magic_2 p = returned finish (record (go_to accept p) { garbage = 16 })
at_eof s p = returned err_eof p

-- after the loop, with what the second `bits_need` returns
unfoldable pub leave : Code × Bitstream → Parse → Outcome
unfolding at_eof
leave (finish, b) p = at_eof p.ps.state (record p { bs = b })
leave (_, b) p = returned more (record p { bs = b })

-- `continue` goes on with the loop
abbrev pub end_round : (Parse → Outcome) → Round → Outcome
end_round loop (continue q) = loop q
end_round loop (return c q) = returned c q
end_round loop abort = aborted

-- one round of the loop, with what the first `bits_need` returns
unfoldable pub round : (Parse → Outcome) → Code × Bitstream → Parse → Outcome
unfolding leave parse_word
round loop (ok, b) p =
    end_round loop (parse_word p.ps.state (bits_peek b 16) (record p { bs = bits_dump b 16 }))
round loop (_, b) p = leave (bits_need b 16) (record p { bs = b })

unfoldable pub parse_loop : ℕ → Parse → Outcome
unfolding round
parse_loop zero p = out_of_fuel
parse_loop (suc f) p = round (parse_loop f) (bits_need p.bs 16) p

-- Each round takes 16 bits, so one more than the number of bits is enough.
unfoldable pub parse : Parse → Outcome
unfolding parse_loop
parse p = parse_loop (p.bs.live + 32 * length p.bs.words + 1) p
