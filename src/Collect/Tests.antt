-- ===== src/Collect/Tests.antt =====
-- collect() on concrete input.
use lbzip.Shared.{ℕ, ◌≡◌, refl, List, [], ◌∷◌, ◌++◌, false, true}
use lbzip.Common.{pos}
use lbzip.Collect.{EncoderState, encoder_init, collect, finalize}
use lbzip.Collect.Correct.{Collected, collect_collects}
use lbzip.Collect.Block.{Whole, encoder_init-IsOpen, finalize-collect}

abbrev pub fresh : EncoderState
fresh =
    encoder_init
      (record {
        cmap = λ c. false;
        rle_state = pos 0;
        rle_character = 0;
        block_crc = 0;
        block = [];
        max_block_size = 0;
      })
      7

-- six equal bytes and two more, where the block has room for all but the last
abbrev pub input : List ℕ
input = 5 ∷ 5 ∷ 5 ∷ 5 ∷ 5 ∷ 5 ∷ 7 ∷ 8 ∷ 9 ∷ []

collect_collects_example :
    Collected (collect fresh input).0 (collect fresh input).1.0 (collect fresh input).1.1 input []
collect_collects_example = collect_collects fresh input [] (encoder_init-IsOpen _ 7)

finalize-collect_example :
    (eaten : List ℕ) × ((input ≡ eaten ++ (collect fresh input).1.0)
      × Whole (finalize (collect fresh input).0) ([] ++ eaten))
finalize-collect_example = finalize-collect fresh input [] (encoder_init-IsOpen _ 7)

collect_block : (collect fresh input).0.block ≡ 5 ∷ 5 ∷ 5 ∷ 5 ∷ 2 ∷ 7 ∷ 8 ∷ []
unfolding collect encoder_init
collect_block = refl

collect_rest : (collect fresh input).1 ≡ (9 ∷ [], true)
unfolding collect encoder_init
collect_rest = refl
