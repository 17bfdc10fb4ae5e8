-- ===== src/Collect/Block.antt =====
-- src/encode.c, the beginning of encode(): the block that is sorted and written.
use lbzip.Shared.{
  ℕ, ◌-◌, ◌^◌, ◌≤◌, List, [], ◌++◌, ◌≡◌, refl, sym, subst, leb, Bool, true, false, Bool-cases,
  leb→le, length, some, arith, inl, inr,
}
use lbzip.Common.{pos, negsuc}
use lbzip.Rle.{no_run, unrle}
use lbzip.Rle.Spells.{Spells-nil}
use lbzip.Crc.{crc_bytes}
use lbzip.Collect.{EncoderState, collect, finalize, finalize_at, encoder_init, count}
use lbzip.Collect.Invariant.{contains, Reads, Inv, count-Inv}
use lbzip.Collect.Steps.{Complete, Reads-text}
use lbzip.Collect.Correct.{locals, IsOpen, Verdict, collect_collects}

-- The block stands for `done`.
pub record Whole (s : EncoderState) (done : List ℕ) : Type 0 where
  pub text : unrle no_run 0 s.block ≡ some done
  pub checksum : s.block_crc ≡ crc_bytes (2 ^ 32 - 1) done
  pub room : length s.block ≤ s.max_block_size
  pub marked : (x : ℕ) → s.cmap x ≡ contains x s.block

pub encoder_init-IsOpen : (s : EncoderState) (n : ℕ) → IsOpen (encoder_init s n) []
unfolding encoder_init Reads contains crc_bytes
encoder_init-IsOpen s n = record {
  k = 0;
  state = refl;
  below = omega arith;
  inv = record {
    reads = Spells-nil;
    checksum = refl;
    room = omega arith;
    spare = λ h. absurd (omega arith);
    marked = λ x. refl;
    last = λ h. absurd (omega arith);
  };
}

finalize_at-Whole :
    (s : EncoderState) (k : ℕ) (done : List ℕ)
    → Inv s.max_block_size k (locals s) done
    → Whole (finalize_at (pos k) s) done
unfolding count Reads
finalize_at-Whole s k done i = elim (Bool-cases (leb 4 k)) [
  | inl long ↦
      let j = count-Inv s.max_block_size k (locals s) done i (leb→le 4 k long) in
      rw long record {
        text = Reads-text 0 0 _ done (omega arith) j.reads;
        checksum = j.checksum;
        room = j.room;
        marked = j.marked;
      }
  | inr short ↦ rw short record {
    text = Reads-text k s.rle_character s.block done (ground arith) i.reads;
    checksum = i.checksum;
    room = i.room;
    marked = i.marked;
  }
]

pub finalize-Whole : (s : EncoderState) (done : List ℕ) → IsOpen s done → Whole (finalize s) done
unfolding finalize
finalize-Whole s done o =
    subst (λ k. Whole (finalize_at k s) done) (sym o.state) (finalize_at-Whole s o.k done o.inv)

Complete-Whole :
    (s : EncoderState) (done : List ℕ)
    → s.rle_state ≡ negsuc 0
    → Complete s.max_block_size (locals s) done
    → Whole (finalize s) done
unfolding finalize
Complete-Whole s done e h =
    rw e record { text = h.text; checksum = h.checksum; room = h.room; marked = h.marked }

Verdict-Whole :
    (full : Bool) (s : EncoderState) (rest done : List ℕ)
    → Verdict full s rest done
    → Whole (finalize s) done
unfolding Verdict
Verdict-Whole false s rest done v = finalize-Whole s done v.1
Verdict-Whole true s rest done v = Complete-Whole s done v.0 v.1

-- The block that encode() makes from the state that collect() leaves, with the count of the last
-- run written, stands for what has been consumed for it: its run-length code, undone, is that
-- input, its checksum is that of the input, it fits the size of a block, and the flags of `cmap`
-- are those of the bytes that occur in it.
pub finalize-collect :
    (s : EncoderState) (inbuf done : List ℕ)
    → IsOpen s done
    → (eaten : List ℕ) × ((inbuf ≡ eaten ++ (collect s inbuf).1.0)
        × Whole (finalize (collect s inbuf).0) (done ++ eaten))
finalize-collect s inbuf done o =
    let c = collect_collects s inbuf done o in (c.eaten, (c.input, Verdict-Whole _ _ _ _ c.verdict))
