-- ===== src/Parser/Headers.antt =====
-- The headers that parse() accepts.
use native.Mathlib.Nat.{mod-eq_of_lt}
use lbzip.Shared.{
  ℕ, suc, ◌+◌, ◌-◌, ◌*◌, ◌^◌, ◌≤◌, ◌<◌, ◌≡◌, ◌≢◌, ap, ◌∙◌, true, List, ◌++◌, arith, length,
  length-append, bit_or, some, [], ◌∷◌,
}
use mathlib.Core.Option
use lbzip.Shared.Bits.{bit_or-add}
use lbzip.Shared.BitList.{all_bits, length-all_bits}
use lbzip.Common.{Code, ok, finish, err_strmcrc, pos}
use lbzip.Bitstream.{Bitstream}
use lbzip.Bitstream.View.{IsValid, view}
use lbzip.Bitstream.Read.{length-view}
use lbzip.Parser.{
  State, block_magic_1, block_crc_2, eos_crc_2, accept, Parse, return, join16, add_crc, parse_word,
  Outcome, returned, end_round, parse_loop, parse,
}
use lbzip.Parser.Feed.{with_bs, feed, FedLast, feed_last}

pub join16-add : (hi lo : ℕ) → hi < 2 ^ 16 → lo < 2 ^ 16 → join16 hi lo ≡ hi * 2 ^ 16 + lo
unfolding join16
join16-add hi lo p q =
    ap (λ (x : ℕ). bit_or x lo) (mod-eq_of_lt (omega arith)) ∙ bit_or-add 16 hi lo q

-- The words at the head of a block, with the two halves of its checksum.
abbrev pub block_header : ℕ → ℕ → List ℕ
block_header hi lo = 0x3141 ∷ 0x5926 ∷ 0x5359 ∷ hi ∷ lo ∷ []

-- The words at the end of a stream, with the two halves of its checksum.
abbrev pub stream_trailer : ℕ → ℕ → List ℕ
stream_trailer hi lo = 0x1772 ∷ 0x4538 ∷ 0x5090 ∷ hi ∷ lo ∷ []

-- the first two words of a stream: `BZ`, `h` and the level
abbrev pub stream_header : ℕ → List ℕ
stream_header level = 0x425A ∷ (0x6830 + level) ∷ []

-- parse() returns `c` with the state `q`, but for the reader, which has the bits `rest` to come.
abbrev pub Returns : Outcome → Code → Parse → List ℕ → Type 0
Returns o c q rest =
    (b : Bitstream) × (o ≡ returned c (record q { bs = b })) × IsValid b × (view b ≡ rest)

-- The result of finding a block.
abbrev pub found : ℕ → Parse → Parse
found crc p = record p {
  ps = record p.ps { state = block_magic_1; computed_crc = add_crc p.ps.computed_crc crc };
  hd = record { bs100k = pos p.ps.bs100k; crc = crc };
}

abbrev pub stored : ℕ → Parse → Parse
stored hi p = record p { ps = record p.ps { stored_crc = hi } }

abbrev pub at_state : State → ℕ → Parse → Parse
at_state s hi p = record p { ps = record p.ps { state = s; stored_crc = hi } }

feed_header :
    (hi : ℕ) (p : Parse)
    → p.ps.state ≡ block_magic_1
    → feed (0x3141 ∷ 0x5926 ∷ 0x5359 ∷ hi ∷ []) p ≡ some (at_state block_crc_2 hi p)
unfolding feed Option.bind
feed_header hi p s = ground arith

feed_trailer :
    (hi : ℕ) (p : Parse)
    → p.ps.state ≡ block_magic_1
    → feed (0x1772 ∷ 0x4538 ∷ 0x5090 ∷ hi ∷ []) p ≡ some (at_state eos_crc_2 hi p)
unfolding feed Option.bind
feed_trailer hi p s = ground arith

pub header_loop :
    (f hi lo : ℕ) (b : Bitstream) (p : Parse) (rest : List ℕ)
    → p.ps.state ≡ block_magic_1
    → hi < 2 ^ 16
    → lo < 2 ^ 16
    → IsValid b
    → view b ≡ all_bits 16 (block_header hi lo) ++ rest
    → Returns (parse_loop (5 + f) (with_bs b p)) ok (found (hi * 2 ^ 16 + lo) (stored hi p)) rest
unfolding parse_word
header_loop f hi lo b p rest s fh fl v e =
    let last =
      feed_last (0x3141 ∷ 0x5926 ∷ 0x5359 ∷ hi ∷ []) lo b p (at_state block_crc_2 hi p) rest
        (omega arith) fl v e (feed_header hi p s) in
    (
      last.reader,
      ap (λ (n : ℕ). parse_loop n (with_bs b p)) (omega arith)
          ∙ last.steps f
          ∙ ap (λ (crc : ℕ). returned ok (with_bs last.reader (found crc (stored hi p))))
              (join16-add hi lo fh fl),
      last.valid,
      last.left,
    )

pub trailer_loop :
    (f hi lo : ℕ) (b : Bitstream) (p : Parse) (rest : List ℕ)
    → p.ps.state ≡ block_magic_1
    → hi < 2 ^ 16
    → lo < 2 ^ 16
    → IsValid b
    → view b ≡ all_bits 16 (stream_trailer hi lo) ++ rest
    → FedLast b p (at_state eos_crc_2 hi p) 4 lo rest
trailer_loop f hi lo b p rest s fh fl v e =
    feed_last (0x1772 ∷ 0x4538 ∷ 0x5090 ∷ hi ∷ []) lo b p (at_state eos_crc_2 hi p) rest
      (omega arith) fl v e (feed_trailer hi p s)

-- parse() starts with fuel for any words that it can read.
pub fuel_for :
    (n : ℕ) (p : Parse) (ws rest : List ℕ)
    → view p.bs ≡ all_bits 16 ws ++ rest
    → n ≤ 16 * length ws
    → (f : ℕ) × (parse p ≡ parse_loop (n + suc f) p)
unfolding parse
fuel_for n p ws rest e le =
    let size = length-view p.bs in
    let same = ap (λ (xs : List ℕ). length xs) e in
    let parts = length-append (all_bits 16 ws) rest in
    let words = length-all_bits 16 ws in
    (
      p.bs.live + 32 * length p.bs.words - n,
      ap (λ (k : ℕ). parse_loop k p) (omega (arith, size, same, parts, words)),
    )

-- At the header of a block parse() returns OK with the block's checksum and the level of the stream,
-- adds the checksum to that of the stream, and leaves what stands behind the header to be read.
pub parse-block_header :
    (p : Parse) (hi lo : ℕ) (rest : List ℕ)
    → p.ps.state ≡ block_magic_1
    → IsValid p.bs
    → hi < 2 ^ 16
    → lo < 2 ^ 16
    → view p.bs ≡ all_bits 16 (block_header hi lo) ++ rest
    → Returns (parse p) ok (found (hi * 2 ^ 16 + lo) (stored hi p)) rest
parse-block_header p hi lo rest s v fh fl e =
    let (f, start) = fuel_for 4 p (block_header hi lo) rest e (omega arith) in
    let (b, run, valid, left) = header_loop f hi lo p.bs p rest s fh fl v e in
    (b, start ∙ ap (λ (n : ℕ). parse_loop n p) (omega arith) ∙ run, valid, left)

abbrev pub crc_of : ℕ → ℕ → ℕ
crc_of hi lo = hi * 2 ^ 16 + lo

-- The last word ends the call.
closing :
    (f n w : ℕ) (p q q' : Parse) (c : Code) (rest : List ℕ)
    → (last : FedLast p.bs p q n w rest) → parse p ≡ parse_loop (n + suc f) p
    → parse_word q.ps.state w (with_bs last.reader q) ≡ return c (with_bs last.reader q')
    → Returns (parse p) c q' rest
closing f n w p q q' c rest last start end =
    (last.reader, start ∙ last.steps f ∙ ap (end_round (parse_loop f)) end, last.valid, last.left)

module _ (p : Parse) (hi lo : ℕ) (rest : List ℕ) (s : p.ps.state ≡ block_magic_1) (v : IsValid p.bs)
    (fh : hi < 2 ^ 16) (fl : lo < 2 ^ 16)
    (e : view p.bs ≡ all_bits 16 (stream_trailer hi lo) ++ rest) where
  abbrev trailer_read : FedLast p.bs p (at_state eos_crc_2 hi p) 4 lo rest
  trailer_read = trailer_loop 0 hi lo p.bs p rest s fh fl v e

  -- At the end of a stream whose checksum is not the one computed, parse() returns ERR_STRMCRC.
  pub parse-strmcrc :
      crc_of hi lo ≢ p.ps.computed_crc
      → Returns (parse p) err_strmcrc (at_state eos_crc_2 (crc_of hi lo) p) rest
  unfolding parse_word
  parse-strmcrc ne =
      let (f, start) = fuel_for 4 p (stream_trailer hi lo) rest e (omega arith) in
      closing f 4 lo p (at_state eos_crc_2 hi p) (at_state eos_crc_2 (crc_of hi lo) p) err_strmcrc
        rest trailer_read start (ground (arith, join16-add hi lo))

  -- In single stream mode the end of the stream with the right checksum is the end of the input.
  pub parse-single_stream :
      p.ps.stream_mode ≡ true
      → crc_of hi lo ≡ p.ps.computed_crc
      → Returns (parse p) finish (record (at_state accept (crc_of hi lo) p) { garbage = 0 }) rest
  unfolding parse_word
  parse-single_stream mode same =
      let (f, start) = fuel_for 4 p (stream_trailer hi lo) rest e (omega arith) in
      closing f 4 lo p (at_state eos_crc_2 hi p)
        (record (at_state accept (crc_of hi lo) p) { garbage = 0 }) finish rest trailer_read start
        (ground (arith, join16-add hi lo))
