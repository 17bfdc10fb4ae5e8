-- ===== src/Compress/Accounts.antt =====
-- src/compress.c: slots and work units are neither lost nor made.
use lbzip.Shared.{
  ℕ, suc, ◌+◌, ◌≤◌, ◌<◌, List, [], ◌∷◌, ◌≡◌, sym, ap, ◌∙◌, subst, Bool, true, ◌&&◌, ◌||◌, &&→both,
  ltb, ltb→lt, length, length-append, arith,
}
use lbzip.Shared.Bags.{length-perm, length-middle}
use lbzip.Queue.{PriorityQueue}
use lbzip.Compress.{
  InBlk, WorkBlk, State, can_collect, begin_collect, end_collect, requeue, release, end_encode,
  can_transmit, transm_thresh, begin_transmit, end_transmit, do_reorder, on_input_avail,
  on_write_complete, init, start_work,
}
use lbzip.Compress.Steps.{
  Step, collect_begins, collect_ends, encode_ends, transmit_begins, transmit_ends, reorders, reads,
  reads_end, reads_short, writes, Reach, begins, goes_on,
}
use lbzip.Compress.Safety.{GoodColl, GoodWork, Right, Reach-Right}

module _ (coll : PriorityQueue InBlk InBlk.pos) (work : PriorityQueue WorkBlk WorkBlk.pos)
    (size : ℕ) (input : ℕ → List ℕ) (num_worker total_in_slots total_out_slots : ℕ) where
  -- the input blocks that hold a slot, the blocks that hold a work unit, and those that hold an
  -- output slot
  abbrev pub inputs_held : State coll work → ℕ
  inputs_held s = length (coll.items s.coll_q) + length s.collecting

  abbrev pub units_held : State coll work → ℕ
  units_held s =
      length s.collecting
      + length s.encoding
      + length (work.items s.trans_q)
      + length s.transmitting

  abbrev pub outputs_held : State coll work → ℕ
  outputs_held s = length s.transmitting + length (work.items s.reord_q) + length s.output_q

  abbrev pub Balanced : State coll work → Type 0
  Balanced s =
      (s.in_slots + inputs_held s ≡ total_in_slots)
      × (s.work_units + units_held s ≡ num_worker)
      × (s.out_slots + outputs_held s ≡ total_out_slots)

  init-Balanced : Balanced (init coll work num_worker total_in_slots total_out_slots)
  unfolding init
  init-Balanced =
      let no_input = ap length coll.init_items in
      let no_work = ap length work.init_items in
      (omega (arith, no_input), omega (arith, no_work), omega (arith, no_work))

  requeue-Balanced :
      (slots : ℕ) (q : coll.Queue) (b : InBlk) (rest : List ℕ)
      → coll.IsValid q
      → (release coll work slots rest + length (coll.items (requeue coll work q b rest))
          ≡ suc (slots + length (coll.items q)))
  requeue-Balanced slots q b [] v = omega arith
  requeue-Balanced slots q b (x ∷ rest) v = omega (arith, length-perm (coll.enqueue_items q _ v))

  some_slot : (n : ℕ) (b : Bool) → (ltb transm_thresh n || (ltb 0 n && b)) ≡ true → 0 < n
  some_slot n b h = ground arith

  has_units : (s : State coll work) → can_collect coll work s ≡ true → 0 < s.work_units
  unfolding can_collect
  has_units s can = ltb→lt 0 s.work_units (&&→both _ _ can).1

  has_slots : (s : State coll work) → can_transmit coll work s ≡ true → 0 < s.out_slots
  unfolding can_transmit
  has_slots s can = some_slot s.out_slots _ (&&→both _ _ can).1

  Step-Balanced :
      (s t : State coll work)
      → Step coll work size input num_worker total_in_slots total_out_slots s t
      → Right coll work size input num_worker total_in_slots total_out_slots s
      → Balanced s
      → Balanced t
  unfolding Right GoodColl GoodWork begin_collect end_collect end_encode begin_transmit end_transmit
      on_input_avail on_write_complete do_reorder
  Step-Balanced s t (collect_begins b q can taken e) (c, l, d, v, m, o, z, k) (i, u, w) =
      let one = length-perm (coll.dequeue_items s.coll_q q b c.0 taken) in
      subst Balanced (sym e) (omega (arith, one), omega (arith, has_units s can), w)
  Step-Balanced s t (collect_ends before b after held e) (c, l, d, v, m, o, z, k) (i, u, w) =
      let one = ap length held ∙ length-middle before b after in
      let back = requeue-Balanced s.in_slots s.coll_q b (start_work size b).1 c.0 in
      subst Balanced (sym e) (omega (arith, one, back), omega (arith, one), w)
  Step-Balanced s t (encode_ends before x after held e) (c, l, d, v, m, o, z, k) (i, u, w) =
      let one = ap length held ∙ length-middle before x after in
      let more = length-perm (work.enqueue_items s.trans_q x v.0) in
      subst Balanced (sym e) (i, omega (arith, one, more), w)
  Step-Balanced s t (transmit_begins x q can taken e) (c, l, d, v, m, o, z, k) (i, u, w) =
      let one = length-perm (work.dequeue_items s.trans_q q x v.0 taken) in
      subst Balanced (sym e) (i, omega (arith, one), omega (arith, has_slots s can))
  Step-Balanced s t (transmit_ends before x after held e) (c, l, d, v, m, o, z, k) (i, u, w) =
      let one = ap length held ∙ length-middle before x after in
      let more = length-perm (work.enqueue_items s.reord_q x o.0) in
      subst Balanced (sym e) (i, omega (arith, one), omega (arith, one, more))
  Step-Balanced s t (reorders x q can taken e) (c, l, d, v, m, o, z, k) (i, u, w) =
      let one = length-perm (work.dequeue_items s.reord_q q x o.0 taken) in
      subst Balanced (sym e) (i, u, omega (arith, one, length-append s.output_q (x ∷ [])))
  Step-Balanced s t (reads x xs on slot here e) (c, l, d, v, m, o, z, k) (i, u, w) =
      let b : InBlk = record { pos = record { major = s.next_id; minor = 0 }; left = x ∷ xs } in
      let more = length-perm (coll.enqueue_items s.coll_q b c.0) in
      subst Balanced (sym e) (omega (arith, more), u, w)
  Step-Balanced s t (reads_end on slot here e) r b = subst Balanced (sym e) b
  Step-Balanced s t (reads_short on some_read here e) r b = subst Balanced (sym e) b
  Step-Balanced s t (writes x rest here e) r (i, u, w) =
      subst Balanced (sym e) (i, u, omega (arith, ap length here))

  pub Reach-Balanced :
      (s : State coll work)
      → Reach coll work size input num_worker total_in_slots total_out_slots s
      → Balanced s
  Reach-Balanced s begins = init-Balanced
  Reach-Balanced s (goes_on r st) =
      Step-Balanced _ _ st
        (Reach-Right coll work size input num_worker total_in_slots total_out_slots _ r)
        (Reach-Balanced _ r)

  -- In each state that the threads can reach, the slots and the work units that are held and those
  -- that are free are together the totals. So no queue holds more than the capacity it was made
  -- with: `in_slots`, `work_units` and `out_slots` at the start.
  pub Reach-queue_bounds :
      (s : State coll work)
      → Reach coll work size input num_worker total_in_slots total_out_slots s
      → Balanced s
        × (length (coll.items s.coll_q) ≤ total_in_slots)
        × (length (work.items s.trans_q) ≤ num_worker)
        × (length (work.items s.reord_q) ≤ total_out_slots)
        × (length s.output_q ≤ total_out_slots)
  Reach-queue_bounds s r =
      let (i, u, w) = Reach-Balanced s r in
      ((i, u, w), omega arith, omega arith, omega arith, omega arith)
