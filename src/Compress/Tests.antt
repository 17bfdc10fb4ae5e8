-- ===== src/Compress/Tests.antt =====
-- src/compress.c: a run of one worker on an input of one buffer, and the theorems at its states.
use lbzip.Shared.{
  ◌+◌, ℕ, ◌<◌, ◌≤◌, List, [], ◌∷◌, ◌≡◌, refl, true, false, Option, none, some, if◌then◌else◌, ◌==◌,
  arith, length,
}
use lbzip.Queue.{PriorityQueue, pos_eq}
use lbzip.Queue.Memory.{put, first}
use lbzip.Queue.Heap.{PQueue, enqueue, dequeue, peek, up_heap, down_heap}
use lbzip.Queue.Heap.Correct.{heap_queue}
use lbzip.Collect.{collect, encoder_init}
use lbzip.Compress.{
  InBlk, WorkBlk, State, fresh_memory, begin_collect, end_collect, end_encode, begin_transmit,
  end_transmit, do_reorder, on_input_avail, on_write_complete, init, can_collect, can_transmit,
  can_reorder, can_terminate, start_work, is_nil,
}
use lbzip.Compress.Steps.{
  collect_begins, collect_ends, encode_ends, transmit_begins, transmit_ends, reorders, reads,
  reads_end, writes, Reach, begins, goes_on,
}
use lbzip.Compress.Reference.{sequential, stream_crc}
use lbzip.Compress.Safety.{sent-sequential}
use lbzip.Compress.Accounts.{Balanced, Reach-queue_bounds}
use lbzip.Compress.Complete.{can_terminate_complete}
use lbzip.Compress.Lossless.{StandFor, flatten, contents, texts_crc, can_terminate_lossless}
use lbzip.Compress.Measure.{costs}
use lbzip.Compress.Ending.{Run, at_start, one_more, Run-le, Continues, Reach-Continues}
use lbzip.Process.{set_memory_constraints}
use lbzip.Compress.Work.{Reached, LedTo, compression_ends}

abbrev coll : PriorityQueue InBlk InBlk.pos
coll = heap_queue InBlk.pos (record { pos = record { major = 0; minor = 0 }; left = [] })

abbrev blank_work : WorkBlk
blank_work = record {
  pos = record { major = 0; minor = 0 };
  next = record { major = 0; minor = 0 };
  enc = fresh_memory;
  weight = 0;
}

abbrev work : PriorityQueue WorkBlk WorkBlk.pos
work = heap_queue WorkBlk.pos blank_work

abbrev input : ℕ → List ℕ
input k = if k == 0 then 7 ∷ 8 ∷ [] else []

abbrev taken {ℓ} : {A : Type ℓ} → Option A → A → A
taken none a = a
taken (some b) a = b

abbrev input_block : InBlk
input_block = record { pos = record { major = 0; minor = 0 }; left = 7 ∷ 8 ∷ [] }

abbrev coll_after : State coll work → PQueue InBlk
coll_after s = (taken (dequeue InBlk.pos s.coll_q) (input_block, s.coll_q)).1

abbrev work_after : WorkBlk → PQueue WorkBlk → PQueue WorkBlk
work_after w q = (taken (dequeue WorkBlk.pos q) (w, q)).1

abbrev s0 : State coll work
s0 = init coll work 1 2 4

-- the reader delivers its only buffer
abbrev s1 : State coll work
s1 = on_input_avail coll work s0 (7 ∷ 8 ∷ [])

read : Reach coll work 10 input 1 2 4 s1
unfolding on_input_avail init
read = goes_on begins (reads 7 (8 ∷ []) refl (omega arith) refl refl)

-- the worker collects, encodes and transmits
abbrev s2 : State coll work
s2 = begin_collect coll work s1 input_block (coll_after s1)

begun : Reach coll work 10 input 1 2 4 s2
unfolding on_input_avail init can_collect begin_collect enqueue dequeue first put up_heap down_heap
begun = goes_on read (collect_begins input_block _ refl refl refl)

abbrev s3 : State coll work
s3 = end_collect coll work 10 s2 [] input_block []

collected : Reach coll work 10 input 1 2 4 s3
unfolding begin_collect on_input_avail init
collected = goes_on begun (collect_ends [] input_block [] refl refl)

abbrev block : WorkBlk
block = (start_work 10 input_block).0

abbrev s4 : State coll work
s4 = end_encode coll work s3 [] block []

encoded : Reach coll work 10 input 1 2 4 s4
unfolding end_collect begin_collect on_input_avail init start_work
encoded = goes_on collected (encode_ends [] block [] refl refl)

abbrev s5 : State coll work
s5 = begin_transmit coll work s4 block (work_after block s4.trans_q)

abbrev s6 : State coll work
s6 = end_transmit coll work s5 [] block []

abbrev s7 : State coll work
s7 = do_reorder coll work s6 block (work_after block s6.reord_q)

transmitted : Reach coll work 10 input 1 2 4 s6
unfolding end_encode end_collect begin_transmit begin_collect on_input_avail init start_work
    can_transmit enqueue dequeue peek first put up_heap down_heap pos_eq
transmitted =
    goes_on (goes_on encoded (transmit_begins block _ refl refl refl))
      (transmit_ends [] block [] refl refl)

reordered : Reach coll work 10 input 1 2 4 s7
unfolding end_transmit end_encode end_collect begin_transmit begin_collect on_input_avail init
    start_work can_reorder enqueue dequeue peek first put up_heap down_heap pos_eq
reordered = goes_on transmitted (reorders block _ refl refl refl)

-- the reader finds the end, and the writer writes the block
abbrev s8 : State coll work
s8 = record s7 { eof = true }

abbrev s9 : State coll work
s9 = on_write_complete coll work s8 []

slot_back : s7.in_slots ≡ 2
unfolding do_reorder end_transmit end_encode end_collect begin_transmit begin_collect on_input_avail
    init start_work collect encoder_init
slot_back = refl

written : Reach coll work 10 input 1 2 4 s9
unfolding do_reorder end_transmit end_encode end_collect begin_transmit begin_collect on_input_avail
    init start_work
written =
    goes_on (goes_on reordered (reads_end refl (omega (arith, slot_back)) refl refl))
      (writes block [] refl refl)

may_terminate : can_terminate coll work 1 4 s9 ≡ true
unfolding can_terminate on_write_complete do_reorder end_transmit end_encode end_collect
    begin_transmit begin_collect on_input_avail init start_work enqueue dequeue peek first put
    up_heap down_heap collect encoder_init
may_terminate = refl

sent-sequential_example :
    ((n : ℕ) × (sequential 10 input n ≡ (s7.order, s7.sent)))
    × (s7.combined_crc ≡ stream_crc 0 s7.sent)
sent-sequential_example = sent-sequential coll work 10 input 1 2 4 s7 reordered

Reach-queue_bounds_example :
    Balanced coll work 10 input 1 2 4 s2
    × (length (coll.items s2.coll_q) ≤ 2)
    × (length (work.items s2.trans_q) ≤ 1)
    × (length (work.items s2.reord_q) ≤ 4)
    × (length s2.output_q ≤ 4)
Reach-queue_bounds_example = Reach-queue_bounds coll work 10 input 1 2 4 s2 begun

can_terminate_complete_example :
    (input s9.next_id ≡ [])
    × ((k : ℕ) → k < s9.next_id → is_nil (input k) ≡ false)
    × ((n : ℕ) × (sequential 10 input n ≡ (record { major = s9.next_id; minor = 0 }, s9.sent)))
    × (s9.combined_crc ≡ stream_crc 0 s9.sent)
    × (s9.output_q ≡ [])
    × (s9.in_slots ≡ 2)
can_terminate_complete_example =
    can_terminate_complete coll work 10 input 1 2 4 s9 written may_terminate

can_terminate_lossless_example :
    (input s9.next_id ≡ [])
    × ((ts : List (List ℕ)) × StandFor s9.sent ts
        × (flatten ts ≡ contents input s9.next_id)
        × (s9.combined_crc ≡ texts_crc 0 ts))
can_terminate_lossless_example =
    can_terminate_lossless coll work 10 input 1 2 4 s9 written may_terminate

not_yet : can_terminate coll work 1 4 s6 ≡ false
unfolding can_terminate end_transmit end_encode end_collect begin_transmit begin_collect
    on_input_avail init
not_yet = refl

six_steps : Run coll work 10 input 1 2 4 6 s6
unfolding end_encode end_collect begin_transmit begin_collect on_input_avail init start_work
    can_collect can_transmit enqueue dequeue peek first put up_heap down_heap pos_eq
six_steps =
    one_more
      (one_more
        (one_more
          (one_more
            (one_more (one_more at_start (reads 7 (8 ∷ []) refl (omega arith) refl refl))
              (collect_begins input_block _ refl refl refl))
            (collect_ends [] input_block [] refl refl))
          (encode_ends [] block [] refl refl))
        (transmit_begins block _ refl refl refl))
      (transmit_ends [] block [] refl refl)

Run-le_example : 6 ≤ 1 + costs input 0 1
Run-le_example = Run-le coll work 10 input 1 2 4 1 (omega arith) refl 6 s6 six_steps

Reach-Continues_example :
    (t : State coll work) × Continues coll work 10 input 1 2 4 t s6
    × (can_terminate coll work 1 4 t ≡ true)
Reach-Continues_example =
    Reach-Continues coll work 10 input 1 2 4 1 (omega arith) refl (omega arith) (omega arith)
      (omega arith) s6 transmitted

-- with blocks of the first level
read_at_level : Reach coll work 100000 input 1 2 4 s1
unfolding on_input_avail init
read_at_level = goes_on begins (reads 7 (8 ∷ []) refl (omega arith) refl refl)

read_within_limits : Reached coll work input false 1 1 s1
unfolding set_memory_constraints
read_within_limits = read_at_level

compression_ends_example :
    (t : State coll work) × LedTo coll work input false 1 1 t s1
    × (can_terminate coll work 1 (set_memory_constraints false false 1 1).total_out_slots t ≡ true)
    × (input t.next_id ≡ [])
    × ((ts : List (List ℕ)) × StandFor t.sent ts
        × (flatten ts ≡ contents input t.next_id)
        × (t.combined_crc ≡ texts_crc 0 ts))
compression_ends_example =
    compression_ends coll work input false 1 1 1 refl (omega arith) (omega arith) (omega arith) s1
      read_within_limits
