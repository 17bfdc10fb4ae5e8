-- ===== src/Compress/Work.antt =====
-- src/process.c, src/compress.c: the compressor with the limits that work() sets.
use lbzip.Shared.{ℕ, ◌-◌, ◌*◌, ◌^◌, ◌≤◌, ◌<◌, List, [], ◌≡◌, Bool, true, false, arith}
use lbzip.Queue.{PriorityQueue}
use lbzip.Process.{Limits, set_memory_constraints}
use lbzip.Compress.{InBlk, WorkBlk, State, can_terminate}
use lbzip.Compress.Steps.{Reach, goes_on}
use lbzip.Compress.Lossless.{StandFor, flatten, contents, texts_crc, can_terminate_lossless}
use lbzip.Compress.Ending.{Continues, here, one_less, Reach-Continues}

module _ (coll : PriorityQueue InBlk InBlk.pos) (work : PriorityQueue WorkBlk WorkBlk.pos)
    (size : ℕ) (input : ℕ → List ℕ) (num_worker total_in_slots total_out_slots : ℕ) where
  Continues-Reach :
      (t s : State coll work)
      → Reach coll work size input num_worker total_in_slots total_out_slots s
      → Continues coll work size input num_worker total_in_slots total_out_slots t s
      → Reach coll work size input num_worker total_in_slots total_out_slots t
  Continues-Reach t s r here = r
  Continues-Reach t s r (one_less {t = u} st more) = Continues-Reach t u (goes_on r st) more

module _ (coll : PriorityQueue InBlk InBlk.pos) (work : PriorityQueue WorkBlk WorkBlk.pos)
    (input : ℕ → List ℕ) (small : Bool) (num_worker bs100k : ℕ) where
  abbrev limits : Limits
  limits = set_memory_constraints false small num_worker bs100k

  -- the states that the threads can reach, and those that they can make of one, with blocks of the
  -- level
  abbrev pub Reached : State coll work → Type 0
  Reached s =
      Reach coll work (bs100k * 100000) input num_worker limits.total_in_slots
        limits.total_out_slots s

  abbrev pub LedTo : State coll work → State coll work → Type 0
  LedTo t s =
      Continues coll work (bs100k * 100000) input num_worker limits.total_in_slots
        limits.total_out_slots t s

  -- With the limits that work() sets for 1 to 2 ^ 31 - 2 workers, at a level from 1 on, and on an input
  -- that ends, the threads can come from each reachable state to one in which the compressor may
  -- terminate; and there the blocks that have been sent stand, in their order, for texts that together
  -- are the input, and the checksum of the stream is combined from those of the texts.
  pub compression_ends :
      (last : ℕ)
      → input last ≡ []
      → 1 ≤ num_worker
      → num_worker < 2 ^ 31 - 1
      → 1 ≤ bs100k
      → (s : State coll work) → Reached s
      → (t : State coll work) × LedTo t s
        × (can_terminate coll work num_worker limits.total_out_slots t ≡ true)
        × (input t.next_id ≡ [])
        × ((ts : List (List ℕ)) × StandFor t.sent ts
            × (flatten ts ≡ contents input t.next_id)
            × (t.combined_crc ≡ texts_crc 0 ts))
  unfolding set_memory_constraints
  compression_ends last ends some_worker few_workers level s r =
      let (t, more, over) =
        Reach-Continues coll work (bs100k * 100000) input num_worker limits.total_in_slots
          limits.total_out_slots last (omega arith) ends some_worker (omega arith) (omega arith) s
          r in
      let reached =
        Continues-Reach coll work (bs100k * 100000) input num_worker limits.total_in_slots
          limits.total_out_slots t s r more in
      let (read, texts) =
        can_terminate_lossless coll work (bs100k * 100000) input num_worker limits.total_in_slots
          limits.total_out_slots t reached over in
      (t, more, over, read, texts)
