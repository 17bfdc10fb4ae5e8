-- ===== src/Compress/Ending.antt =====
-- src/compress.c: each run of the threads is finite, and ends where the compressor may terminate.
use lbzip.Shared.{
  ℕ, zero, suc, ◌+◌, ◌-◌, ◌*◌, ◌≤◌, ◌<◌, List, [], ◌≡◌, true, false, Bool-cases, inl, inr, ap,
  length, arith,
}
use lbzip.Shared.Bags.{total}
use lbzip.Queue.{PriorityQueue}
use lbzip.Compress.{InBlk, WorkBlk, State, init, is_nil, can_terminate}
use lbzip.Compress.Steps.{Step, Reach, begins, goes_on}
use lbzip.Compress.Safety.{Reach-Right}
use lbzip.Compress.Coverage.{Counted}
use lbzip.Compress.Coverage.Invariant.{Reach-Counted}
use lbzip.Compress.Measure.{costs, to_do, Step-to_do}
use lbzip.Compress.Progress.{Reach-Moves}

module _ (coll : PriorityQueue InBlk InBlk.pos) (work : PriorityQueue WorkBlk WorkBlk.pos)
    (size : ℕ) (input : ℕ → List ℕ) (num_worker total_in_slots total_out_slots : ℕ) where
  -- a run of a number of steps
  pub data Run : ℕ → State coll work → Type 0 where
    at_start : Run zero (init coll work num_worker total_in_slots total_out_slots)
    one_more :
        {n : ℕ} {s t : State coll work}
        → Run n s
        → Step coll work size input num_worker total_in_slots total_out_slots s t
        → Run (suc n) t

  -- the states of which the threads can make the state `u`
  pub data Continues (u : State coll work) : State coll work → Type 0 where
    here : Continues u u
    one_less :
        {s t : State coll work}
        → Step coll work size input num_worker total_in_slots total_out_slots s t
        → Continues u t
        → Continues u s

  Run-Reach :
      (n : ℕ) (s : State coll work)
      → Run n s
      → Reach coll work size input num_worker total_in_slots total_out_slots s
  Run-Reach n s at_start = begins
  Run-Reach n s (one_more {n = k} {s = r} run st) = goes_on (Run-Reach k r run) st

  read_before :
      (s : State coll work)
      → Counted coll work size input num_worker total_in_slots total_out_slots s
      → (k : ℕ) → k < s.next_id
      → is_nil (input k) ≡ false
  unfolding Counted
  read_before s c = c.2

  module _ (last : ℕ) (some_size : 0 < size) (ends : input last ≡ []) where
    step_falls :
        (s t : State coll work)
        → Reach coll work size input num_worker total_in_slots total_out_slots s
        → Step coll work size input num_worker total_in_slots total_out_slots s t
        → to_do coll work size input num_worker total_in_slots total_out_slots last t
          < to_do coll work size input num_worker total_in_slots total_out_slots last s
    step_falls s t r st =
        Step-to_do coll work size input num_worker total_in_slots total_out_slots last s t st
          some_size ends
          (Reach-Right coll work size input num_worker total_in_slots total_out_slots s r)
          (read_before s
            (Reach-Counted coll work size input num_worker total_in_slots total_out_slots s r))

    Run-falls :
        (n : ℕ) (s : State coll work)
        → Run n s
        → n + to_do coll work size input num_worker total_in_slots total_out_slots last s
          ≤ to_do coll work size input num_worker total_in_slots total_out_slots last
              (init coll work num_worker total_in_slots total_out_slots)
    Run-falls n s at_start = omega arith
    Run-falls n s (one_more {n = k} {s = r} run st) =
        omega (arith, Run-falls k r run, step_falls r s (Run-Reach k r run) st)

    -- Where the input ends at the buffer `last` and blocks are not empty, a run has at most eight
    -- steps for each byte of the input, two for each buffer, and one more.
    pub Run-le : (n : ℕ) (s : State coll work) → Run n s → n ≤ 1 + costs input 0 last
    unfolding init
    Run-le n s run =
        let whole : last - 0 ≡ last = omega arith in
        omega (
          arith,
          Run-falls n s run,
          ap length work.init_items,
          ap (total (λ (b : InBlk). 8 * length b.left + 1)) coll.init_items,
          ap (costs input 0) whole,
        )

    module _ (some_worker : 0 < num_worker) (some_in : 0 < total_in_slots)
        (two_out : 2 ≤ total_out_slots) where
      ends_within :
          (k : ℕ) (s : State coll work)
          → Reach coll work size input num_worker total_in_slots total_out_slots s
          → to_do coll work size input num_worker total_in_slots total_out_slots last s < k
          → (t : State coll work) × Continues t s
            × (can_terminate coll work num_worker total_out_slots t ≡ true)
      ends_within zero s r h = absurd (omega arith)
      ends_within (suc k) s r h =
          elim (Bool-cases (can_terminate coll work num_worker total_out_slots s)) [
            | inl over ↦ (s, here, over)
            | inr stay ↦
                let (t, st) =
                  Reach-Moves coll work size input num_worker total_in_slots total_out_slots s r
                    some_worker some_in two_out stay in
                let (u, more, over) =
                  ends_within k t (goes_on r st) (omega (arith, h, step_falls s t r st)) in
                (u, one_less st more, over)
          ]

      -- Where the input ends, blocks are not empty, and there are a worker, an input slot and two output
      -- slots, the threads can come from each reachable state to one in which the compressor
      -- may terminate.
      pub Reach-Continues :
          (s : State coll work)
          → Reach coll work size input num_worker total_in_slots total_out_slots s
          → (t : State coll work) × Continues t s
            × (can_terminate coll work num_worker total_out_slots t ≡ true)
      Reach-Continues s r =
          ends_within
            (suc (to_do coll work size input num_worker total_in_slots total_out_slots last s)) s r
            (omega arith)
