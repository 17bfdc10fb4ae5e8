-- ===== src/Collect.antt =====
-- src/encode.c, encoder_init(), collect() and the beginning of encode(): the run-length code of a
-- block is built from as many calls as the input comes in.
pub mod Invariant
pub mod Steps
pub mod Runs
pub mod Correct
pub mod Block
pub mod Tests
use lbzip.Shared.{
  ℕ, zero, suc, ◌+◌, ◌-◌, ◌^◌, List, [], ◌∷◌, ◌++◌, ◌==◌, leb, if◌then◌else◌, length, Bool, true,
  false, ◌&&◌, ◌||◌, not,
}
use lbzip.Common.{ℤ, pos, negsuc}
use lbzip.Crc.{crc_step}

-- What collect() uses of `struct encoder_state`. `block` holds the `nblock` bytes written so far,
-- and `cmap` is the array of 256 flags.
pub record EncoderState : Type 0 where
  pub cmap : ℕ → Bool
  pub rle_state : ℤ
  pub rle_character : ℕ
  pub block_crc : ℕ
  pub block : List ℕ
  pub max_block_size : ℕ

abbrev pub max_run_length : ℕ
max_run_length = 4 + 255

unfoldable pub encoder_init : EncoderState → ℕ → EncoderState
encoder_init s max_block_size = record s {
  cmap = λ c. false;
  rle_state = pos 0;
  block_crc = 2 ^ 32 - 1;
  block = [];
  max_block_size = max_block_size;
}

-- the local variables; `ch` is the byte that was written last
pub record Locals : Type 0 where
  pub block : List ℕ
  pub cmap : ℕ → Bool
  pub crc : ℕ
  pub ch : ℕ

-- The places in the code where the next byte is looked at: `at_0` is the label `state0`, the next
-- three are behind the writes of states 1 to 3, `in_run` is the loop of state 4, and the last two
-- are the label `finish_run` and the loop below it. A number is the length of the run.
pub data Place : Type 0 where
  at_0 at_1 at_2 at_3 : Place
  in_run finish_run finish_long : ℕ → Place

-- what is done with the byte looked at: it is consumed, or the call ends before it
pub data Next : Type 0 where
  go_on : Place → Locals → Next
  unread : ℤ → Locals → Next

-- `q > qMax` and `q >= qMax`
abbrev pub is_full : ℕ → Locals → Bool
is_full size l = leb size (length l.block)

abbrev pub is_nearly_full : ℕ → Locals → Bool
is_nearly_full size l = leb size (suc (length l.block))

-- `CRC(c)`
unfoldable pub check : ℕ → Locals → Locals
check c l = record l { crc = crc_step l.crc c }

-- `*q++ = c`
unfoldable pub push : ℕ → Locals → Locals
push c l = record l { block = l.block ++ c ∷ []; ch = c }

abbrev pub mark : ℕ → (ℕ → Bool) → ℕ → Bool
mark c cmap x = (c == x) || cmap x

-- state 1: `s->cmap[c] = true; *q++ = c`
unfoldable pub begin_run : ℕ → Locals → Locals
unfolding push
begin_run c l = record (push c l) { cmap = mark c l.cmap }

-- the count of a run: `*q++ = n; s->cmap[n] = true`
unfoldable pub count : ℕ → Locals → Locals
count n l = record l { block = l.block ++ n ∷ []; cmap = mark n l.cmap }

abbrev pub stop_full : Locals → Next
stop_full l = unread (negsuc 0) l

unfoldable pub step_0 : ℕ → ℕ → Locals → Next
unfolding begin_run check
step_0 size c l = if is_full size l then stop_full l else go_on at_1 (begin_run c (check c l))

-- after the writes of states 1 and 2, where `longer` follows another byte like the last
unfoldable pub step_short : Place → ℕ → ℕ → Locals → Next
unfolding begin_run push check
step_short longer size c l =
    if is_full size l
    then stop_full l
    else if c == l.ch
    then go_on longer (push c (check c l))
    else go_on at_1 (begin_run c (check c l))

-- The fourth byte of a run is written only if its count has room.
unfoldable pub step_3 : ℕ → ℕ → Locals → Next
unfolding begin_run push check
step_3 size c l =
    if is_nearly_full size l && (is_full size l || (c == l.ch))
    then stop_full l
    else if c == l.ch
    then go_on (in_run 4) (push c (check c l))
    else go_on at_1 (begin_run c (check c l))

-- another byte of a run of four or more: `again` is where to go if it is not of maximal length
abbrev pub lengthen : Place → ℕ → ℕ → Locals → Next
unfolding check count
lengthen again k c l =
    if suc k == max_run_length
    then go_on at_0 (count (max_run_length - 4) (check c l))
    else go_on again (check c l)

-- The byte that ends a run is put back where there is no room to begin another one with it.
unfoldable pub step_run : ℕ → ℕ → ℕ → Locals → Next
unfolding begin_run check count
step_run k size c l =
    let l' = count (k - 4) l in
    if c == l.ch
    then lengthen (in_run (suc k)) k c l
    else if is_full size l'
    then stop_full l'
    else go_on at_1 (begin_run c (check c l'))

unfoldable pub step_long : ℕ → ℕ → ℕ → Locals → Next
unfolding check count step_0
step_long k size c l =
    if c == l.ch then lengthen (finish_long (suc k)) k c l else step_0 size c (count (k - 4) l)

unfoldable pub step_finish : ℕ → ℕ → ℕ → Locals → Next
unfolding check push step_0 step_long
step_finish k size c l =
    if is_nearly_full size l && (is_full size l || ((k == 3) && (c == l.ch)))
    then stop_full l
    else if leb 4 k
    then step_long k size c l
    else if not (c == l.ch)
    then step_0 size c l
    else go_on (finish_run (suc k)) (push c (check c l))

unfoldable pub step : ℕ → Place → ℕ → Locals → Next
unfolding step_0 step_short step_3 step_run step_long step_finish
step size at_0 c l = step_0 size c l
step size at_1 c l = step_short at_2 size c l
step size at_2 c l = step_short at_3 size c l
step size at_3 c l = step_3 size c l
step size (in_run k) c l = step_run k size c l
step size (finish_run k) c l = step_finish k size c l
step size (finish_long k) c l = step_long k size c l

abbrev pub or_full : ℕ → ℤ → Locals → ℤ
or_full size state l = if is_full size l then negsuc 0 else state

-- `rle_state` at the end of the input
unfoldable pub at_end : ℕ → Place → Locals → ℤ
at_end size at_0 l = or_full size (pos 0) l
at_end size at_1 l = or_full size (pos 1) l
at_end size at_2 l = or_full size (pos 2) l
at_end size at_3 l = or_full size (pos 3) l
at_end size (in_run k) l = pos k
at_end size (finish_run k) l = or_full size (pos k) l
at_end size (finish_long k) l = pos k

-- how the run of a call ends: `rle_state`, the local variables, and the input that is left
abbrev pub Ending : Type 0
Ending = ℤ × (Locals × List ℕ)

abbrev pub follow : (Place → Locals → Ending) → List ℕ → Next → Ending
follow loop p (go_on at l) = loop at l
follow loop p (unread state l) = (state, (l, p))

unfoldable pub collect_loop : ℕ → List ℕ → Place → Locals → Ending
unfolding step at_end
collect_loop size [] at l = (at_end size at l, (l, []))
collect_loop size (c ∷ p) at l = follow (collect_loop size p) (c ∷ p) (step size at c l)

-- where a call begins; a negative state fails the assertion
unfoldable pub start : ℤ → Place
start (pos zero) = at_0
start (pos k) = finish_run k
start (negsuc n) = at_0

abbrev pub is_negative : ℤ → Bool
is_negative (pos k) = false
is_negative (negsuc n) = true

-- `s->rle_character = ch` is done only where the run is not finished.
abbrev pub kept_character : ℤ → ℕ → ℕ → ℕ
kept_character (pos (suc k)) old ch = ch
kept_character state old ch = old

-- The result has the state, the input that is left, and whether the block is complete.
unfoldable pub collect : EncoderState → List ℕ → EncoderState × (List ℕ × Bool)
unfolding collect_loop start
collect s inbuf =
    let l : Locals = record {
      block = s.block;
      cmap = s.cmap;
      crc = s.block_crc;
      ch = s.rle_character;
    } in
    let e = collect_loop s.max_block_size inbuf (start s.rle_state) l in
    (
      record s {
        cmap = e.1.0.cmap;
        rle_state = e.0;
        rle_character = kept_character e.0 s.rle_character e.1.0.ch;
        block_crc = e.1.0.crc;
        block = e.1.0.block;
      },
      (e.1.1, is_negative e.0),
    )

abbrev pub finalize_at : ℤ → EncoderState → EncoderState
finalize_at (pos k) s =
    if leb 4 k then record s { block = s.block ++ (k - 4) ∷ []; cmap = mark (k - 4) s.cmap } else s
finalize_at (negsuc n) s = s

-- encode() first writes the count of the last run.
unfoldable pub finalize : EncoderState → EncoderState
finalize s = finalize_at s.rle_state s
