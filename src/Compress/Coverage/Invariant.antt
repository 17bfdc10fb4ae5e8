-- ===== src/Compress/Coverage/Invariant.antt =====
-- src/compress.c: the places of the blocks across a step.
use lbzip.Shared.{ℕ, suc, ◌+◌, List, [], ◌∷◌, ◌≡◌, refl, sym, ap, ◌∙◌, subst, inr, false, arith}
use lbzip.Shared.Bags.{All, one_if, count_p, count_p-perm, count_p-middle, All-middle}
use lbzip.Queue.{Position, PriorityQueue, pos_eq}
use lbzip.Compress.{
  InBlk, WorkBlk, State, begin_collect, end_collect, requeue, end_encode, begin_transmit,
  end_transmit, do_reorder, on_input_avail, on_write_complete, init, start_work,
}
use lbzip.Compress.Steps.{
  Step, collect_begins, collect_ends, encode_ends, transmit_begins, transmit_ends, reorders, reads,
  reads_end, reads_short, writes, Reach, begins, goes_on,
}
use lbzip.Compress.Reference.{IsBlock, start_work-rest}
use lbzip.Compress.Positions.{covers_in, at, covers, due, covers_split, covers_last, behind_end}
use lbzip.Compress.Safety.{GoodColl, GoodWork, Right, Reach-Right}
use lbzip.Compress.Coverage.{Counted}
use lbzip.Compress.Coverage.Reorder.{reorder-Counted, reads-Counted}

module _ (coll : PriorityQueue InBlk InBlk.pos) (work : PriorityQueue WorkBlk WorkBlk.pos)
    (size : ℕ) (input : ℕ → List ℕ) (num_worker total_in_slots total_out_slots : ℕ) where
  init-Counted :
      Counted coll work size input num_worker total_in_slots total_out_slots
        (init coll work num_worker total_in_slots total_out_slots)
  unfolding Counted init due
  init-Counted = (
    λ p h.
        let no_input = ap (count_p (covers_in p)) coll.init_items in
        let no_work = ap (count_p (at p)) work.init_items in ground (arith, no_input, no_work),
    inr refl,
    λ k h. absurd (omega arith),
  )

  requeue-count :
      (q : coll.Queue) (b : InBlk) (rest : List ℕ) (p : Position)
      → coll.IsValid q
      → (rest ≡ [] → covers p (record b.pos { minor = suc b.pos.minor }) ≡ false)
      → count_p (covers_in p) (coll.items (requeue coll work q b rest)) + one_if (pos_eq b.pos p)
        ≡ count_p (covers_in p) (coll.items q) + one_if (covers p b.pos)
  requeue-count q b [] p v h = omega (arith, covers_last p b.pos (h refl))
  requeue-count q b (x ∷ rest) p v h =
      omega (arith, count_p-perm (covers_in p) (coll.enqueue_items q _ v), covers_split p b.pos)

  Step-Counted :
      (s t : State coll work)
      → Step coll work size input num_worker total_in_slots total_out_slots s t
      → Right coll work size input num_worker total_in_slots total_out_slots s
      → Counted coll work size input num_worker total_in_slots total_out_slots s
      → Counted coll work size input num_worker total_in_slots total_out_slots t
  unfolding Right GoodColl GoodWork Counted begin_collect end_collect end_encode begin_transmit
      end_transmit on_input_avail on_write_complete do_reorder
  Step-Counted s t (collect_begins b q can taken e) (c, l, d, v, m, o, z, k) (a, f, n) =
      subst (Counted coll work size input num_worker total_in_slots total_out_slots) (sym e) (
        λ p h.
            omega (
              arith,
              a p h,
              count_p-perm (covers_in p) (coll.dequeue_items s.coll_q q b c.0 taken),
            ),
        f,
        n,
      )
  Step-Counted s t (collect_ends before b after held e) (c, l, d, v, m, o, z, k) (a, f, n) =
      let (is_block, others) =
        All-middle (IsBlock size input) before b after (subst (All (IsBlock size input)) held l) in
      let next : Position = record b.pos { minor = suc b.pos.minor } in
      let rest = start_work-rest size input b is_block in
      subst (Counted coll work size input num_worker total_in_slots total_out_slots) (sym e) (
        λ p h.
            let one =
              ap (count_p (covers_in p)) held ∙ count_p-middle (covers_in p) before b after in
            omega (
              arith,
              a p h,
              one,
              requeue-count s.coll_q b (start_work size b).1 p c.0
                  (λ nil. behind_end size input p next h (sym rest ∙ nil)),
            ),
        f,
        n,
      )
  Step-Counted s t (encode_ends before w after held e) (c, l, d, v, m, o, z, k) (a, f, n) =
      subst (Counted coll work size input num_worker total_in_slots total_out_slots) (sym e) (
        λ p h.
            let one = ap (count_p (at p)) held ∙ count_p-middle (at p) before w after in
            omega (arith, a p h, one, count_p-perm (at p) (work.enqueue_items s.trans_q w v.0)),
        f,
        n,
      )
  Step-Counted s t (transmit_begins w q can taken e) (c, l, d, v, m, o, z, k) (a, f, n) =
      subst (Counted coll work size input num_worker total_in_slots total_out_slots) (sym e) (
        λ p h.
            omega (arith, a p h, count_p-perm (at p) (work.dequeue_items s.trans_q q w v.0 taken)),
        f,
        n,
      )
  Step-Counted s t (transmit_ends before w after held e) (c, l, d, v, m, o, z, k) (a, f, n) =
      subst (Counted coll work size input num_worker total_in_slots total_out_slots) (sym e) (
        λ p h.
            let one = ap (count_p (at p)) held ∙ count_p-middle (at p) before w after in
            omega (arith, a p h, one, count_p-perm (at p) (work.enqueue_items s.reord_q w o.0)),
        f,
        n,
      )
  Step-Counted s t (reorders w q can taken e) r i =
      subst (Counted coll work size input num_worker total_in_slots total_out_slots) (sym e) (
        reorder-Counted coll work size input num_worker total_in_slots total_out_slots s w q r i can
          taken)
  Step-Counted s t (reads x xs on slot here e) r i =
      subst (Counted coll work size input num_worker total_in_slots total_out_slots) (sym e) (
        reads-Counted coll work size input num_worker total_in_slots total_out_slots s x xs r i
          here)
  Step-Counted s t (reads_end on slot here e) r i =
      subst (Counted coll work size input num_worker total_in_slots total_out_slots) (sym e) i
  Step-Counted s t (reads_short on some_read here e) r i =
      subst (Counted coll work size input num_worker total_in_slots total_out_slots) (sym e) i
  Step-Counted s t (writes w rest here e) r i =
      subst (Counted coll work size input num_worker total_in_slots total_out_slots) (sym e) i

  pub Reach-Counted :
      (s : State coll work)
      → Reach coll work size input num_worker total_in_slots total_out_slots s
      → Counted coll work size input num_worker total_in_slots total_out_slots s
  Reach-Counted s begins = init-Counted
  Reach-Counted s (goes_on {s = r} reach st) =
      Step-Counted r s st
        (Reach-Right coll work size input num_worker total_in_slots total_out_slots r reach)
        (Reach-Counted r reach)
