-- ===== src/Compress/Slots.antt =====
-- src/compress.c: the last two output slots are kept for blocks at the order.
use lbzip.Shared.{
  ℕ, ◌+◌, ◌≤◌, ◌<◌, List, ◌≡◌, sym, ap, ◌∙◌, subst, ◌⊎◌, inl, inr, Bool, true, some, ltb, ◌&&◌,
  ◌||◌, &&→both, length, arith,
}
use lbzip.Shared.Bags.{
  one_if, one_if_bounds, count_p, count_p-perm, count_p-middle, length-perm, length-middle,
}
use lbzip.Queue.{Position, PriorityQueue}
use lbzip.Compress.{
  InBlk, WorkBlk, State, begin_collect, end_collect, end_encode, begin_transmit, end_transmit,
  do_reorder, on_input_avail, on_write_complete, init, can_transmit, transm_thresh, is_at,
}
use lbzip.Compress.Steps.{
  Step, collect_begins, collect_ends, encode_ends, transmit_begins, transmit_ends, reorders, reads,
  reads_end, reads_short, writes, Reach, begins, goes_on,
}
use lbzip.Compress.Positions.{at, due, IsBegun}
use lbzip.Compress.Safety.{GoodWork, Right, Reach-Right}
use lbzip.Compress.Accounts.{Balanced, Reach-Balanced}
use lbzip.Compress.Coverage.{Counted}
use lbzip.Compress.Coverage.Reorder.{order_is_due}
use lbzip.Compress.Coverage.Invariant.{Reach-Counted}

module _ (coll : PriorityQueue InBlk InBlk.pos) (work : PriorityQueue WorkBlk WorkBlk.pos)
    (size : ℕ) (input : ℕ → List ℕ) (num_worker total_in_slots total_out_slots : ℕ) where
  -- The blocks that are being transmitted or wait to be reordered, but for one at the order, leave
  -- two slots free.
  abbrev pub Spared : State coll work → Type 0
  Spared s =
      length s.transmitting + length (work.items s.reord_q) + 2
      ≤ total_out_slots
        + (count_p (at s.order) s.transmitting + count_p (at s.order) (work.items s.reord_q))

  init-Spared :
      2 ≤ total_out_slots → Spared (init coll work num_worker total_in_slots total_out_slots)
  unfolding init
  init-Spared h =
      let no_work = ap length work.init_items in
      let none_at = ap (count_p (at (record { major = 0; minor = 0 }))) work.init_items in
      omega (arith, h, no_work)

  allowed :
      (n : ℕ) (b : Bool) → (ltb transm_thresh n || (ltb 0 n && b)) ≡ true → (2 < n) ⊎ (b ≡ true)
  allowed n b h = ground arith

  transmit_begins-Spared :
      (s : State coll work) (w : WorkBlk) (q : work.Queue)
      → work.IsValid s.trans_q
      → can_transmit coll work s ≡ true
      → work.dequeue s.trans_q ≡ some (w, q)
      → Balanced coll work size input num_worker total_in_slots total_out_slots s
      → Spared s
      → Spared (begin_transmit coll work s w q)
  unfolding can_transmit begin_transmit
  transmit_begins-Spared s w q v can taken (i, u, g) h =
      elim (allowed s.out_slots _ (&&→both _ _ can).1) [
        | inl enough ↦ omega (arith, g, enough)
        | inr first ↦
            let here : at s.order w ≡ true =
              ap (λ p. is_at coll work p s.order) (sym (work.peek_dequeue s.trans_q q w v taken))
              ∙ first in
            omega (arith, h, ap one_if here)
      ]

  due_bounds : (o p : Position) (n : ℕ) → due o n p ≤ 1
  unfolding due
  due_bounds o p n = one_if_bounds _

  -- The block at the order is the only one there.
  reorders-Spared :
      (s : State coll work) (w : WorkBlk) (q : work.Queue)
      → Right coll work size input num_worker total_in_slots total_out_slots s
      → Counted coll work size input num_worker total_in_slots total_out_slots s
      → (IsBegun size input s.order)
      → work.dequeue s.reord_q ≡ some (w, q)
      → Spared s
      → Spared (do_reorder coll work s w q)
  unfolding Right GoodWork Counted do_reorder
  reorders-Spared s w q (c, l, d, v, m, o, z, k) (a, f, n) begun taken h =
      let perm = work.dequeue_items s.reord_q q w o.0 taken in
      omega (arith, h, length-perm perm, a s.order begun, due_bounds s.order s.order s.next_id)

  Step-Spared :
      (s t : State coll work)
      → Step coll work size input num_worker total_in_slots total_out_slots s t
      → Right coll work size input num_worker total_in_slots total_out_slots s
      → Counted coll work size input num_worker total_in_slots total_out_slots s
      → Balanced coll work size input num_worker total_in_slots total_out_slots s
      → Spared s
      → Spared t
  unfolding Right GoodWork begin_collect end_collect end_encode end_transmit on_input_avail
      on_write_complete
  Step-Spared s t (collect_begins b q can taken e) r i g h = subst Spared (sym e) h
  Step-Spared s t (collect_ends before b after held e) r i g h = subst Spared (sym e) h
  Step-Spared s t (encode_ends before w after held e) r i g h = subst Spared (sym e) h
  Step-Spared s t (transmit_begins w q can taken e) (c, l, d, v, m, o, z, k) i g h =
      subst Spared (sym e) (transmit_begins-Spared s w q v.0 can taken g h)
  Step-Spared s t (transmit_ends before w after held e) (c, l, d, v, m, o, z, k) i g h =
      let perm = work.enqueue_items s.reord_q w o.0 in
      let moved = ap (count_p (at s.order)) held ∙ count_p-middle (at s.order) before w after in
      let shorter = ap length held ∙ length-middle before w after in
      subst Spared (sym e)
        (omega (arith, h, moved, shorter, length-perm perm, count_p-perm (at s.order) perm))
  Step-Spared s t (reorders w q can taken e) r i g h =
      let begun =
        (order_is_due coll work size input num_worker total_in_slots total_out_slots s w q r i can
          taken).1 in
      subst Spared (sym e) (reorders-Spared s w q r i begun taken h)
  Step-Spared s t (reads x xs on slot here e) r i g h = subst Spared (sym e) h
  Step-Spared s t (reads_end on slot here e) r i g h = subst Spared (sym e) h
  Step-Spared s t (reads_short on some_read here e) r i g h = subst Spared (sym e) h
  Step-Spared s t (writes w rest here e) r i g h = subst Spared (sym e) h

  pub Reach-Spared :
      (s : State coll work)
      → Reach coll work size input num_worker total_in_slots total_out_slots s
      → 2 ≤ total_out_slots
      → Spared s
  Reach-Spared s begins h = init-Spared h
  Reach-Spared s (goes_on {s = r} reach st) h =
      Step-Spared r s st
        (Reach-Right coll work size input num_worker total_in_slots total_out_slots r reach)
        (Reach-Counted coll work size input num_worker total_in_slots total_out_slots r reach)
        (Reach-Balanced coll work size input num_worker total_in_slots total_out_slots r reach)
        (Reach-Spared r reach h)
