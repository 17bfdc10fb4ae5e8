-- ===== src/RoundTrip/Tests.antt =====
-- collect() and emit() on concrete input.
use lbzip.Shared.{ℕ, ◌≡◌, refl, List, [], ◌∷◌, ◌++◌, arith}
use lbzip.Collect.{collect, finalize, encoder_init}
use lbzip.Collect.Block.{encoder_init-IsOpen}
use lbzip.Collect.Tests.{fresh, input}
use lbzip.Emit.{DecoderState, emit}
use lbzip.Emit.Steps.{walk}
use lbzip.RoundTrip.{Returned, emit-collect}

abbrev received : DecoderState
received = record {
  tt = 0x105 ∷ 0x205 ∷ 0x305 ∷ 0x405 ∷ 0x502 ∷ 0x607 ∷ 0x708 ∷ [];
  rle_state = 0;
  rle_crc = 0xFFFFFFFF;
  rle_index = 0;
  rle_avail = 7;
  rle_char = 0;
  rle_prev = 0;
  crc = 0;
}

received_block :
    walk received.tt received.rle_index received.rle_avail
    ≡ (finalize (collect fresh input).0).block
unfolding walk finalize collect encoder_init
received_block = refl

emit-collect_example :
    (eaten : List ℕ) × ((input ≡ eaten ++ (collect fresh input).1.0)
      × Returned (emit received 20) ([] ++ eaten) 20 (finalize (collect fresh input).0).block_crc)
emit-collect_example =
    emit-collect fresh input [] received 20 (encoder_init-IsOpen _ 7) refl refl received_block
      (omega arith)
