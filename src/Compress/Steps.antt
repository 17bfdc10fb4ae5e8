-- ===== src/Compress/Steps.antt =====
-- src/compress.c: the critical sections in any order that the locks allow, as a step relation.
use lbzip.Shared.{ℕ, ◌<◌, List, [], ◌∷◌, ◌++◌, ◌≡◌, true, false, some}
use lbzip.Queue.{PriorityQueue}
use lbzip.Compress.{
  InBlk, WorkBlk, State, can_collect, begin_collect, end_collect, end_encode, can_transmit,
  begin_transmit, end_transmit, can_reorder, do_reorder, on_input_avail, on_write_complete, init,
}

-- `size` is the size of a block, `input n` is what the reader reads into its n-th buffer, nothing
-- at the end, and the last three are the totals of the scheduler.
module _ (coll : PriorityQueue InBlk InBlk.pos) (work : PriorityQueue WorkBlk WorkBlk.pos)
    (size : ℕ) (input : ℕ → List ℕ) (num_worker total_in_slots total_out_slots : ℕ) where
  pub data Step (s t : State coll work) : Type 0 where
    collect_begins :
        (b : InBlk) (q : coll.Queue)
        → can_collect coll work s ≡ true
        → coll.dequeue s.coll_q ≡ some (b, q)
        → t ≡ begin_collect coll work s b q
        → Step s t
    collect_ends :
        (before : List InBlk) (b : InBlk) (after : List InBlk)
        → s.collecting ≡ before ++ b ∷ after
        → t ≡ end_collect coll work size s before b after
        → Step s t
    encode_ends :
        (before : List WorkBlk) (w : WorkBlk) (after : List WorkBlk)
        → s.encoding ≡ before ++ w ∷ after
        → t ≡ end_encode coll work s before w after
        → Step s t
    transmit_begins :
        (w : WorkBlk) (q : work.Queue)
        → can_transmit coll work s ≡ true
        → work.dequeue s.trans_q ≡ some (w, q)
        → t ≡ begin_transmit coll work s w q
        → Step s t
    transmit_ends :
        (before : List WorkBlk) (w : WorkBlk) (after : List WorkBlk)
        → s.transmitting ≡ before ++ w ∷ after
        → t ≡ end_transmit coll work s before w after
        → Step s t
    reorders :
        (w : WorkBlk) (q : work.Queue)
        → can_reorder coll work s ≡ true
        → work.dequeue s.reord_q ≡ some (w, q)
        → t ≡ do_reorder coll work s w q
        → Step s t
    reads :
        (x : ℕ) (xs : List ℕ)
        → s.eof ≡ false
        → 0 < s.in_slots
        → input s.next_id ≡ x ∷ xs
        → t ≡ on_input_avail coll work s (x ∷ xs)
        → Step s t
    reads_end :
        s.eof ≡ false
        → 0 < s.in_slots
        → input s.next_id ≡ []
        → t ≡ record s { eof = true }
        → Step s t
    -- The last block did not fill its buffer, and the reader does not ask for another one.
    reads_short :
        s.eof ≡ false
        → 0 < s.next_id
        → input s.next_id ≡ []
        → t ≡ record s { eof = true }
        → Step s t
    writes :
        (w : WorkBlk) (rest : List WorkBlk)
        → s.output_q ≡ w ∷ rest
        → t ≡ on_write_complete coll work s rest
        → Step s t

  pub data Reach : State coll work → Type 0 where
    begins : Reach (init coll work num_worker total_in_slots total_out_slots)
    goes_on : {s t : State coll work} → Reach s → Step s t → Reach t
