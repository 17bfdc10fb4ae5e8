-- ===== src/Ibwt/Tests.antt =====
-- decode() on concrete input.
use lbzip.Shared.{
  ℕ, ◌≡◌, refl, [], ◌∷◌, ◌++◌, arith, true, false, replicate, some, none, get_or, ltb, ltb→lt, ◌==◌,
  ==→eq, if◌then◌else◌,
}
use mathlib.Core.Option
use lbzip.Shared.Table.{holds_below, holds_below_at}
use lbzip.Prefix.Sums.{sum_below}
use lbzip.Emit.{DecoderState}
use lbzip.Ibwt.Original.{IsInverse, IsRetrieved, original, seen, unrandomized}
use lbzip.Ibwt.Correct.{decode-original}
use lbzip.Emit.Steps.{walk}
use lbzip.Ibwt.{Retrieved, decode}
use lbzip.Ibwt.RandTable.{rand_table}

-- the last column of the sorted rotations of 2 1 0 2, with the counts of its bytes
abbrev plain : Retrieved
plain = record {
  rand = false;
  bwt_idx = 2;
  block_size = 4;
  crc = 0;
  ftab = 1 ∷ 1 ∷ 2 ∷ replicate 253 0;
  tt = 1 ∷ 2 ∷ 2 ∷ 0 ∷ [];
}

abbrev randomized : Retrieved
randomized = record plain { rand = true }

plain_bytes :
    Option.map (λ ds. walk ds.tt ds.rle_index ds.rle_avail) (decode plain)
    ≡ some (2 ∷ 1 ∷ 0 ∷ 2 ∷ [])
unfolding walk decode
plain_bytes = refl

-- The counts do not add up.
too_few : decode (record plain { block_size = 3 }) ≡ none
unfolding decode
too_few = refl

plain_bytes_small : holds_below 4 (λ j. ltb (get_or plain.tt j 0) 256) ≡ true
unfolding holds_below
plain_bytes_small = refl

plain_counts : holds_below 256 (λ u. get_or plain.ftab u 0 == seen plain.tt u 4) ≡ true
unfolding holds_below sum_below
plain_counts = refl

randomized-IsRetrieved : IsRetrieved randomized
randomized-IsRetrieved = record {
  small = omega arith;
  fits = omega arith;
  bytes = λ j lt. ltb→lt _ _ (holds_below_at 4 _ j plain_bytes_small lt);
  all_bytes = refl;
  counted = λ u lt. ==→eq _ _ (holds_below_at 256 _ u plain_counts lt);
  primary = omega arith;
}

-- The first byte that is changed is the one behind 617 others.
first_changed : unrandomized 0 0 (replicate 619 0) ≡ replicate 617 0 ++ (1 ∷ 0 ∷ [])
unfolding unrandomized rand_table
first_changed = refl

decode-original_example :
    (ds : DecoderState) × (inv : ℕ → ℕ) × (decode randomized ≡ some ds)
    × IsInverse (1 ∷ 2 ∷ 2 ∷ 0 ∷ []) 4 inv
    × (walk ds.tt ds.rle_index ds.rle_avail ≡ (
        if true
        then unrandomized 0 0 (original (1 ∷ 2 ∷ 2 ∷ 0 ∷ []) inv 2 4)
        else original (1 ∷ 2 ∷ 2 ∷ 0 ∷ []) inv 2 4))
decode-original_example = decode-original randomized randomized-IsRetrieved
