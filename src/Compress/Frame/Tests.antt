-- ===== src/Compress/Frame/Tests.antt =====
-- src/compress.c: the header and the trailer of a stream without blocks.
use lbzip.Shared.{ℕ, ◌≡◌, refl, true, false, List, [], ◌∷◌, ◌++◌, arith, length}
use Prim.Native.Nat.{min}
use lbzip.Shared.BitList.{bits, all_bits}
use lbzip.Common.{finish, pos}
use lbzip.Bitstream.{Bitstream}
use lbzip.Bitstream.View.{IsValid, top, view}
use lbzip.Parser.{block_magic_1, accept, Parse, parse}
use lbzip.Parser.Headers.{Returns, at_state}
use lbzip.Process.{work, expand}
use lbzip.Process.Input.{IsRead, AllBytes}
use lbzip.Compress.Frame.{write_header, write_trailer, parse-write_trailer, work-write_header}

abbrev trailer_reader : Bitstream
trailer_reader = record {
  live = 0;
  buff = 0;
  words = 0x17724538 ∷ 0x50900000 ∷ 0x00010000 ∷ [];
  eof = true;
}

abbrev at_trailer : Parse
at_trailer = record {
  ps = record {
    state = block_magic_1;
    bs100k = 9;
    stored_crc = 0;
    computed_crc = 1;
    stream_mode = true;
  };
  hd = record { bs100k = pos 0; crc = 0 };
  bs = trailer_reader;
  garbage = 0;
}

trailer_reader-IsValid : IsValid trailer_reader
unfolding top
trailer_reader-IsValid = record { holds = omega arith; words = omega arith }

parse-write_trailer_example :
    Returns
      (parse at_trailer)
      finish
      (record (at_state accept 1 at_trailer) { garbage = 0 })
      (bits 16 0)
unfolding bits all_bits view top write_trailer
parse-write_trailer_example =
    parse-write_trailer at_trailer 1 (bits 16 0) refl trailer_reader-IsValid refl (omega arith) refl
      refl

-- a file that gives two bytes at a time
abbrev halves : ℕ → List ℕ → ℕ
halves n input = min n (min 2 (length input))

halves-IsRead : IsRead halves
halves-IsRead = record {
  asked = λ n input. omega arith;
  there = λ n input. omega arith;
  some_bytes = λ n input. omega arith;
}

body-AllBytes : AllBytes (0x17 ∷ [])
unfolding AllBytes
body-AllBytes = omega arith

work-write_header_example :
    work halves true false (write_header 7 ++ 0x17 ∷ []) ≡ expand 7 (0x17 ∷ [])
work-write_header_example =
    work-write_header halves false 7 (0x17 ∷ []) halves-IsRead body-AllBytes (omega arith)
      (omega arith)
