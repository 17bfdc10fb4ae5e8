-- ===== src/Parser/Streams.antt =====
-- src/parse.c, parse(): one stream after another.
use lbzip.Shared.{
  ℕ, ◌+◌, ◌%◌, ◌^◌, ◌<◌, ◌≡◌, refl, sym, ap, ◌∙◌, true, false, List, [], ◌∷◌, ◌++◌, some, arith,
  ◌==◌, ==→eq, length, length-append, bit_and,
}
use lbzip.Shared.BitList.{bits, all_bits, length-all_bits, length-bits}
use lbzip.Shared.Table.{holds_below, holds_below_at}
use lbzip.Common.{ok}
use lbzip.Bitstream.{Bitstream, bits_align, bits_peek}
use lbzip.Bitstream.View.{IsValid, view}
use lbzip.Bitstream.Read.{bits_align-view}
use lbzip.Parser.{
  stream_magic_1, block_magic_1, eos_crc_2, Parse, continue, parse_word, end_round, parse_loop,
  parse,
}
use lbzip.Parser.Feed.{with_bs, feed, feed-Fed}
use lbzip.Parser.Headers.{
  stream_header, stream_trailer, block_header, crc_of, found, stored, Returns, at_state,
  trailer_loop, header_loop, fuel_for, join16-add,
}
use mathlib.Core.Option

append-cancel :
    {A : Type 0} (xs ys us vs : List A) → length xs ≡ length ys → xs ++ us ≡ ys ++ vs → us ≡ vs
append-cancel [] [] us vs h e = e
append-cancel [] (y ∷ ys) us vs h e = absurd (omega arith)
append-cancel (x ∷ xs) [] us vs h e = absurd (omega arith)
append-cancel (x ∷ xs) (y ∷ ys) us vs h e = append-cancel xs ys us vs (omega arith) (cc)

-- The padding before the next byte is what `bits_align` drops.
align-pad :
    (b : Bitstream) (pad rest : List ℕ)
    → IsValid b
    → view b ≡ pad ++ rest
    → length pad < 8
    → length rest % 8 ≡ 0
    → view (bits_align b) ≡ rest
align-pad b pad rest v e short whole =
    let (_, split, even) = bits_align-view b v in
    let dropped = bits (b.live % 8) (bits_peek b (b.live % 8)) in
    append-cancel dropped pad (view (bits_align b)) rest
      (omega (
        arith,
        length-append dropped (view (bits_align b)),
        length-append pad rest,
        length-bits (b.live % 8) (bits_peek b (b.live % 8)),
        ap (λ (xs : List ℕ). length xs) (sym split ∙ e),
      ))
      (sym split ∙ e)

level_digits : holds_below 10 (λ k. bit_and (0x6830 + k) 15 == k) ≡ true
unfolding holds_below
level_digits = refl

level_bits : (k : ℕ) → k < 10 → bit_and (0x6830 + k) 15 ≡ k
level_bits k h = ==→eq _ k (holds_below_at 10 _ k level_digits h)

-- after the header of a stream
abbrev pub opened : ℕ → Parse → Parse
opened level p = record p { ps = record p.ps { state = block_magic_1; bs100k = level } }

feed-stream_header :
    (level : ℕ) (p : Parse)
    → p.ps.state ≡ stream_magic_1
    → p.ps.stream_mode ≡ false
    → 0 < level
    → level < 10
    → feed (stream_header level) p ≡ some (opened level p)
unfolding feed Option.bind
feed-stream_header level p s mode lo hi = ground (arith, level_bits level hi)

-- the parser after a stream with the right checksum, before the next one
abbrev pub closed : ℕ → Parse → Parse
closed crc p = record p {
  ps = record p.ps { state = stream_magic_1; stored_crc = crc; computed_crc = 0 };
}

-- A stream with the right checksum may be followed by another one, at the next byte: parse() reads
-- over both and returns OK at the first block of the second stream, with that stream's level, and
-- its checksum started anew.
pub parse-next_stream :
    (p : Parse) (hi lo hi' lo' level : ℕ) (pad rest : List ℕ)
    → p.ps.state ≡ block_magic_1
    → p.ps.stream_mode ≡ false
    → IsValid p.bs
    → hi < 2 ^ 16
    → lo < 2 ^ 16
    → hi' < 2 ^ 16
    → lo' < 2 ^ 16
    → 0 < level
    → level < 10
    → crc_of hi lo ≡ p.ps.computed_crc
    → length pad < 8
    → length rest % 8 ≡ 0
    → view p.bs
      ≡ all_bits 16 (stream_trailer hi lo)
        ++ (pad
            ++ (all_bits 16 (stream_header level) ++ (all_bits 16 (block_header hi' lo') ++ rest)))
    → Returns
        (parse p)
        ok
        (found (crc_of hi' lo') (stored hi' (opened level (closed (crc_of hi lo) p))))
        rest
unfolding parse_word
parse-next_stream p hi lo hi' lo' level pad rest s mode v fh fl fh' fl' low high same short whole
      e =
    let (f, start) = fuel_for 11 p (stream_trailer hi lo) _ e (omega arith) in
    let last = trailer_loop 0 hi lo p.bs p _ s fh fl v e in
    let shut = closed (crc_of hi lo) p in
    let turn : parse_word eos_crc_2 lo (with_bs last.reader (at_state eos_crc_2 hi p))
        ≡ continue (with_bs (bits_align last.reader) shut) =
      ground (arith, join16-add hi lo) in
    let aligned =
      align-pad last.reader pad
        (all_bits 16 (stream_header level) ++ (all_bits 16 (block_header hi' lo') ++ rest))
        last.valid last.left short even in
    let opening =
      feed-Fed (stream_header level) (bits_align last.reader) shut (opened level shut)
        (all_bits 16 (block_header hi' lo') ++ rest) (omega arith)
        (bits_align-view last.reader last.valid).0 aligned
        (feed-stream_header level shut refl mode low high) in
    let (b, run, valid, left) =
      header_loop f hi' lo' opening.reader (opened level shut) rest refl fh' fl' opening.valid
        opening.left in
    (
      b,
      start
          ∙ ap (λ (n : ℕ). parse_loop n p) (omega arith)
          ∙ last.steps (2 + (5 + f))
          ∙ ap (end_round (parse_loop (2 + (5 + f)))) turn
          ∙ opening.steps (5 + f)
          ∙ run,
      valid,
      left,
    )
  where
    even :
        length (all_bits 16 (stream_header level) ++ (all_bits 16 (block_header hi' lo') ++ rest))
          % 8
        ≡ 0
    even = omega (
      arith,
      length-append (all_bits 16 (stream_header level))
          (all_bits 16 (block_header hi' lo') ++ rest),
      length-append (all_bits 16 (block_header hi' lo')) rest,
      length-all_bits 16 (stream_header level),
      length-all_bits 16 (block_header hi' lo'),
    )
