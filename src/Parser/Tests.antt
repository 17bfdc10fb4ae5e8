-- ===== src/Parser/Tests.antt =====
-- parse() on concrete input.
use lbzip.Shared.{ℕ, ◌*◌, ◌^◌, ◌+◌, ◌≡◌, refl, Bool, true, false, List, [], ◌∷◌, arith}
use lbzip.Shared.BitList.{bits, all_bits}
use lbzip.Common.{ok, err_strmcrc, pos}
use lbzip.Bitstream.{Bitstream, bits_need, bits_peek, bits_dump}
use lbzip.Bitstream.View.{IsValid, top, view}
use lbzip.Parser.{block_magic_1, block_magic_3, eos_crc_2, Parse, parser_init, parse}
use lbzip.Parser.Total.{Ends, parse-Ends}
use lbzip.Parser.Headers.{
  Returns, found, stored, at_state, parse-block_header, parse-strmcrc, crc_of,
}
use lbzip.Parser.Streams.{parse-next_stream, opened, closed}
use lbzip.Parser.Resume.{extend_parse, parse-resume}

abbrev reader : List ℕ → Bool → Bitstream
reader ws eof = record { live = 0; buff = 0; words = ws; eof = eof }

abbrev start : Bool → Bitstream → Parse
start mode b = record {
  ps = record {
    state = block_magic_1;
    bs100k = 9;
    stored_crc = 0;
    computed_crc = 0;
    stream_mode = mode;
  };
  hd = record { bs100k = pos 0; crc = 0 };
  bs = b;
  garbage = 0;
}

abbrev block_words : List ℕ
block_words = 0x31415926 ∷ 0x53591234 ∷ 0x56780000 ∷ []

abbrev trailer_words : List ℕ
trailer_words = 0x17724538 ∷ 0x50900000 ∷ 0x00000000 ∷ []

block_words-IsValid : IsValid (reader block_words true)
unfolding top
block_words-IsValid = record { holds = omega arith; words = omega arith }

trailer_words-IsValid : IsValid (reader trailer_words true)
unfolding top
trailer_words-IsValid = record { holds = omega arith; words = omega arith }

parse-Ends_example : Ends (parse (start false (reader block_words true)))
parse-Ends_example = parse-Ends (start false (reader block_words true)) block_words-IsValid refl

parse-block_header_example :
    Returns
      (parse (start false (reader block_words true)))
      ok
      (found (0x1234 * 2 ^ 16 + 0x5678) (stored 0x1234 (start false (reader block_words true))))
      (bits 16 0)
unfolding bits all_bits view top
parse-block_header_example =
    parse-block_header (start false (reader block_words true)) 0x1234 0x5678 (bits 16 0) refl
      block_words-IsValid (omega arith) (omega arith) refl

-- the checksum of the stream, when it should be 1
abbrev wrong_crc : Parse
wrong_crc = record (start false (reader trailer_words true)) {
  ps = record (start false (reader trailer_words true)).ps { computed_crc = 1 };
}

parse-strmcrc_example :
    Returns (parse wrong_crc) err_strmcrc (at_state eos_crc_2 (crc_of 0 0) wrong_crc) (bits 16 0)
unfolding bits all_bits view top
parse-strmcrc_example =
    parse-strmcrc wrong_crc 0 0 (bits 16 0) refl trailer_words-IsValid (omega arith) (omega arith)
      refl (omega arith)

abbrev two_streams : List ℕ
two_streams = 0x17724538 ∷ 0x50900000 ∷ 0x0000425A ∷ 0x68333141 ∷ 0x59265359 ∷ 0x12345678 ∷ []

two_streams-IsValid : IsValid (reader two_streams true)
unfolding top
two_streams-IsValid = record { holds = omega arith; words = omega arith }

parse-next_stream_example :
    Returns
      (parse (start false (reader two_streams true)))
      ok
      (found
        (crc_of 0x1234 0x5678)
        (stored 0x1234 (opened 3 (closed (crc_of 0 0) (start false (reader two_streams true))))))
      []
unfolding bits all_bits view top
parse-next_stream_example =
    parse-next_stream (start false (reader two_streams true)) 0 0 0x1234 0x5678 3 [] [] refl refl
      two_streams-IsValid (omega arith) (omega arith) (omega arith) (omega arith) (omega arith)
      (omega arith) refl (omega arith) refl refl

-- the first half of a header
abbrev half : Parse
half = start false (reader (0x31415926 ∷ []) false)

abbrev suspended : Parse
suspended = record half { ps = record half.ps { state = block_magic_3 }; bs = reader [] false }

half-IsValid : IsValid half.bs
unfolding top
half-IsValid = record { holds = omega arith; words = omega arith }

parse-resume_example :
    parse (extend_parse (0x53591234 ∷ 0x56780000 ∷ []) true suspended)
    ≡ parse (extend_parse (0x53591234 ∷ 0x56780000 ∷ []) true half)
unfolding parse bits_need bits_peek bits_dump
parse-resume_example =
    parse-resume half suspended (0x53591234 ∷ 0x56780000 ∷ []) true half-IsValid refl (omega arith)
      refl

parser_init_runs : (parser_init half.ps 9 false).state ≡ block_magic_1
unfolding parser_init
parser_init_runs = refl
