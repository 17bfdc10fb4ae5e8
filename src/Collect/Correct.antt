-- ===== src/Collect/Correct.antt =====
-- src/encode.c, collect(): the block stands for the input consumed, in however many calls.
use lbzip.Shared.{
  ℕ, zero, suc, ◌<◌, List, [], ◌∷◌, ◌++◌, append_assoc, append-nil, ◌≡◌, refl, sym, ap, subst, Bool,
  true, false, Bool-cases, arith, inl, inr,
}
use native.Mathlib.Decide.{dec_lt}
use lbzip.Common.{ℤ, pos, negsuc}
use lbzip.Collect.{
  EncoderState, Locals, Place, at_0, at_1, at_2, at_3, in_run, finish_run, finish_long, Next, go_on,
  unread, is_full, step, at_end, Ending, follow, collect_loop, start, collect, is_negative,
  kept_character, max_run_length, or_full,
}
use lbzip.Collect.Invariant.{Reads, Inv}
use lbzip.Collect.Runs.{step-Good}
use lbzip.Collect.Steps.{Holds, Complete, Good, Inv-Complete}

-- the local variables that stand for a state
abbrev pub locals : EncoderState → Locals
locals s = record { block = s.block; cmap = s.cmap; crc = s.block_crc; ch = s.rle_character }

-- Between two calls: `done` has been read for this block, and the block may go on.
pub record IsOpen (s : EncoderState) (done : List ℕ) : Type 0 where
  pub k : ℕ
  pub state : s.rle_state ≡ pos k
  pub below : k < max_run_length
  pub inv : Inv s.max_block_size k (locals s) done

-- how the loop ends after the bytes `done`
unfoldable Ends : ℕ → List ℕ → ℤ → Locals → List ℕ → Type 0
Ends size done (pos k) l p = (k < max_run_length) × (Inv size k l done × (p ≡ []))
Ends size done (negsuc zero) l p = Complete size l done
Ends size done (negsuc (suc n)) l p = ⊥

or_full-Ends :
    (size k : ℕ) (l : Locals) (done : List ℕ)
    → k < max_run_length
    → Inv size k l done
    → Ends size done (or_full size (pos k) l) l []
unfolding Ends
or_full-Ends size k l done lt i = elim (Bool-cases (is_full size l)) [
  | inl full ↦ rw full (
      Inv-Complete size k l done i
        (elim (dec_lt k 4) [
          | Dec.yes lt ↦ lt
          | Dec.no ge ↦ absurd (ground (arith, i.spare (omega arith)))
        ])
        (ground arith))
  | inr room ↦ rw room (lt, (i, refl))
]

at_end-Ends :
    (size : ℕ) (at : Place) (l : Locals) (done : List ℕ)
    → Holds size at l done
    → Ends size done (at_end size at l) l []
unfolding at_end Ends
at_end-Ends size at_0 l done h = or_full-Ends size 0 l done h.0.1 h.1
at_end-Ends size at_1 l done h = or_full-Ends size 1 l done h.0.1 h.1
at_end-Ends size at_2 l done h = or_full-Ends size 2 l done h.0.1 h.1
at_end-Ends size at_3 l done h = or_full-Ends size 3 l done h.0.1 h.1
at_end-Ends size (in_run k) l done h = (h.0.1, (h.1, refl))
at_end-Ends size (finish_run k) l done h = or_full-Ends size k l done h.0.1 h.1
at_end-Ends size (finish_long k) l done h = (h.0.1, (h.1, refl))

-- The loop consumes a first part of the input.
abbrev Eats : ℕ → List ℕ → List ℕ → Ending → Type 0
Eats size done p e =
    (eaten : List ℕ) × ((p ≡ eaten ++ e.1.1) × Ends size (done ++ eaten) e.0 e.1.0 e.1.1)

follow-Eats :
    (size c : ℕ) (p done : List ℕ) (next : Next)
    → ((at : Place) (l : Locals)
        → Holds size at l (done ++ c ∷ [])
        → Eats size (done ++ c ∷ []) p (collect_loop size p at l))
    → Good size c done next
    → Eats size done (c ∷ p) (follow (collect_loop size p) (c ∷ p) next)
unfolding Good Ends
follow-Eats size c p done (go_on at l) later good =
    let e = later at l good in
    (
      c ∷ e.0,
      (
        ap (◌∷◌ c) e.1.0,
        subst
            (λ d.
              Ends size d (collect_loop size p at l).0 (collect_loop size p at l).1.0
                (collect_loop size p at l).1.1)
            (append_assoc done (c ∷ []) e.0) e.1.1,
      ),
    )
follow-Eats size c p done (unread (negsuc zero) l) later good =
    ([], (refl, subst (Complete size l) (sym (append-nil done)) good))
follow-Eats size c p done (unread (negsuc (suc n)) l) later good = absurd good
follow-Eats size c p done (unread (pos k) l) later good = absurd good

collect_loop-Eats :
    (size : ℕ) (p : List ℕ) (at : Place) (l : Locals) (done : List ℕ)
    → Holds size at l done
    → Eats size done p (collect_loop size p at l)
unfolding collect_loop
collect_loop-Eats size [] at l done h = (
  [],
  (
    refl,
    subst (λ d. Ends size d (at_end size at l) l []) (sym (append-nil done))
        (at_end-Ends size at l done h),
  ),
)
collect_loop-Eats size (c ∷ p) at l done h =
    follow-Eats size c p done (step size at c l)
      (λ at l. collect_loop-Eats size p at l (done ++ c ∷ [])) (step-Good size at c l done h)

-- what a call promises: the block may go on, where all of the input has been consumed, or it is
-- complete, and then collect() returns 1
unfoldable pub Verdict : Bool → EncoderState → List ℕ → List ℕ → Type 0
Verdict false s rest done = (rest ≡ []) × IsOpen s done
Verdict true s rest done = (s.rle_state ≡ negsuc 0) × Complete s.max_block_size (locals s) done

pub record Collected (s' : EncoderState) (rest : List ℕ) (full : Bool) (inbuf done : List ℕ)
    : Type 0 where
  pub eaten : List ℕ
  pub input : inbuf ≡ eaten ++ rest
  pub verdict : Verdict full s' rest (done ++ eaten)

start-Holds :
    (size : ℕ) (state : ℤ) (k : ℕ) (l : Locals) (done : List ℕ)
    → state ≡ pos k
    → k < max_run_length
    → Inv size k l done
    → Holds size (start state) l done
unfolding start
start-Holds size state zero l done e lt i = rw e ((omega arith, lt), i)
start-Holds size state (suc k) l done e lt i = rw e ((omega arith, lt), i)

-- Where there is no run, the byte that is kept does not matter.
kept-Inv :
    (size k old : ℕ) (l : Locals) (done : List ℕ)
    → Inv size k l done
    → Inv size k (record l { ch = kept_character (pos k) old l.ch }) done
unfolding Reads
kept-Inv size zero old l done i = record {
  reads = i.reads;
  checksum = i.checksum;
  room = i.room;
  spare = i.spare;
  marked = i.marked;
  last = λ h. absurd (omega arith);
}
kept-Inv size (suc k) old l done i = i

ending-Verdict :
    (s : EncoderState) (done : List ℕ) (state : ℤ) (l : Locals) (p : List ℕ)
    → Ends s.max_block_size done state l p
    → Verdict
        (is_negative state)
        (record s {
          cmap = l.cmap;
          rle_state = state;
          rle_character = kept_character state s.rle_character l.ch;
          block_crc = l.crc;
          block = l.block;
        })
        p
        done
unfolding Ends Verdict
ending-Verdict s done (pos k) l p h = (
  h.1.1,
  record {
    k = k;
    state = refl;
    below = h.0;
    inv = kept-Inv s.max_block_size k s.rle_character l done h.1.0;
  },
)
ending-Verdict s done (negsuc zero) l p h = (
  refl,
  record { text = h.text; checksum = h.checksum; room = h.room; full = h.full; marked = h.marked },
)
ending-Verdict s done (negsuc (suc n)) l p h = absurd h

-- In a state in which a block may go on, collect() consumes a first part of the input. Either that
-- is all of it, and the block may go on, or collect() returns 1, and the block stands for all that
-- has been consumed for it, fits its size, and has room for one byte more at most. The checksum
-- and the map of the bytes in use are those of the input consumed and of the block.
pub collect_collects :
    (s : EncoderState) (inbuf done : List ℕ)
    → IsOpen s done
    → Collected (collect s inbuf).0 (collect s inbuf).1.0 (collect s inbuf).1.1 inbuf done
unfolding collect
collect_collects s inbuf done o =
    let l = locals s in
    let e =
      collect_loop-Eats s.max_block_size inbuf (start s.rle_state) l done
        (start-Holds s.max_block_size s.rle_state o.k l done o.state o.below o.inv) in
    record { eaten = e.0; input = e.1.0; verdict = ending-Verdict s (done ++ e.0) _ _ _ e.1.1 }
