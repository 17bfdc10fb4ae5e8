-- ===== src/Emit/Tests.antt =====
-- emit() on concrete input.
use lbzip.Shared.{◌≡◌, refl, [], ◌∷◌, arith, some}
use lbzip.Emit.{DecoderState, emit, load}
use lbzip.Emit.Steps.{Emits, text, walk}
use lbzip.Emit.Correct.{emit_writes}
use lbzip.Rle.{unrle}

-- the bytes 97 97 97 97 2 98, one behind the other, and the call before any output
abbrev sample : DecoderState
sample = record {
  tt = 0x161 ∷ 0x261 ∷ 0x361 ∷ 0x461 ∷ 0x502 ∷ 0x662 ∷ [];
  rle_state = 0;
  rle_crc = 0xFFFFFFFF;
  rle_index = 0;
  rle_avail = 6;
  rle_char = 0;
  rle_prev = 0;
  crc = 0;
}

-- Of the two bytes that the count stands for only one has room.
emit_writes_example : Emits (text sample) (load sample 5) (emit sample 5)
emit_writes_example = emit_writes sample 5 (omega arith)

sample_text : text sample ≡ some (97 ∷ 97 ∷ 97 ∷ 97 ∷ 97 ∷ 97 ∷ 98 ∷ [])
unfolding text walk unrle
sample_text = refl
