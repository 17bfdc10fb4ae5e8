-- ===== src/Scan/Tests.antt =====
-- scan() on concrete input.
use lbzip.Shared.{◌≡◌, refl, true, [], ◌∷◌, arith, drop}
use lbzip.Common.{ok}
use lbzip.Bitstream.{Bitstream, bits_need, bits_peek}
use lbzip.Bitstream.View.{IsValid, top, view}
use lbzip.Scan.{mini_step, big_step, word_step, scan}
use lbzip.Scan.Buffer.{Meets, expected}
use lbzip.Scan.Search.{find_magic}
use lbzip.Scan.Correct.{skipped, scan_finds}

-- the magic number one bit into the buffer's first word, a checksum and one more word
abbrev sample : Bitstream
sample = record {
  live = 0;
  buff = 0;
  words = 0x98A0AC93 ∷ 0x29AC9234 ∷ 0x56780000 ∷ 0 ∷ [];
  eof = true;
}

sample-IsValid : IsValid sample
unfolding top
sample-IsValid = record { holds = omega arith; words = omega arith }

scan_finds_example :
    Meets (scan sample 0) (expected (find_magic [] (drop (skipped sample 0) (view sample))))
scan_finds_example = scan_finds sample 0 sample-IsValid

scan_code : (scan sample 0).0 ≡ ok
unfolding scan bits_need bits_peek word_step big_step mini_step
scan_code = refl
