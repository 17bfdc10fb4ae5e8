-- ===== src/Compress/Coverage.antt =====
-- src/compress.c: the places that a block from the order on can be in.
pub mod Reorder
pub mod Invariant
use lbzip.Shared.{
  ℕ, suc, ◌+◌, ◌<◌, List, [], ◌∷◌, ◌≡◌, refl, sym, ap, ◌∙◌, subst, ◌⊎◌, inl, inr, true, false, ltb,
  ◌==◌, Bool-cases, some, ltb→lt, ==→eq, arith,
}
use lbzip.Shared.Bags.{All, one_if, count_p, count_p-perm, count_p-middle, All-middle}
use lbzip.Queue.{Position, PriorityQueue, pos_eq, pos_le}
use lbzip.Queue.Order.{pos_eq_refl}
use lbzip.Compress.{
  InBlk, WorkBlk, State, begin_collect, end_collect, requeue, end_encode, begin_transmit,
  end_transmit, can_reorder, do_reorder, on_input_avail, on_write_complete, init, is_nil,
  next_position, start_work,
}
use lbzip.Compress.Steps.{
  Step, collect_begins, collect_ends, encode_ends, transmit_begins, transmit_ends, reorders, reads,
  reads_end, reads_short, writes, Reach, begins, goes_on,
}
use lbzip.Compress.Reference.{rest_after, piece, IsBlock, start_work-rest, piece-next}
use lbzip.Compress.Positions.{
  covers_in, at, covers, due, covers_split, covers_last, IsBegun, rest_at, behind_end, due_next,
  due_read, due_before, due_order,
}
use lbzip.Compress.Safety.{GoodColl, GoodWork, Right, Reach-Right, dequeue-GoodWork, reorder_at}

module _ (coll : PriorityQueue InBlk InBlk.pos) (work : PriorityQueue WorkBlk WorkBlk.pos)
    (size : ℕ) (input : ℕ → List ℕ) (num_worker total_in_slots total_out_slots : ℕ) where
  -- how often the block of a position is held before it is sent
  abbrev pub holders : State coll work → Position → ℕ
  holders s p =
      count_p (covers_in p) (coll.items s.coll_q)
      + count_p (covers_in p) s.collecting
      + count_p (at p) s.encoding
      + count_p (at p) (work.items s.trans_q)
      + count_p (at p) s.transmitting
      + count_p (at p) (work.items s.reord_q)

  abbrev pub Placed : State coll work → Type 0
  Placed s =
      ((s.order.major < s.next_id) × IsBegun size input s.order)
      ⊎ (s.order ≡ record { major = s.next_id; minor = 0 })

  -- Each block that is due is held once and no other is held, the order is that of a block that is
  -- due or of the next buffer, and the buffers that have been read were not empty.
  unfoldable pub Counted : State coll work → Type 0
  Counted s =
      ((p : Position) → IsBegun size input p → holders s p ≡ due s.order s.next_id p)
      × Placed s
      × ((k : ℕ) → k < s.next_id → is_nil (input k) ≡ false)

  init-Counted : Counted (init coll work num_worker total_in_slots total_out_slots)
  unfolding Counted init due
  init-Counted = (
    λ p h.
        let no_input = ap (count_p (covers_in p)) coll.init_items in
        let no_work = ap (count_p (at p)) work.init_items in ground (arith, no_input, no_work),
    inr refl,
    λ k h. absurd (omega arith),
  )

  -- What is held at a position where a block begins is due there.
  pub held_due :
      (s : State coll work) (p : Position)
      → Counted s
      → IsBegun size input p
      → 0 < holders s p
      → (pos_le s.order p ≡ true) × (p.major < s.next_id)
  unfolding Counted
  held_due s p (a, f, n) h held =
      let is_due : 0 < due s.order s.next_id p = omega (arith, a p h, held) in
      (due_order s.order s.next_id p is_due, due_before s.order s.next_id p is_due)
