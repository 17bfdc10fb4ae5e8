-- ===== src/Compress/Safety.antt =====
-- src/compress.c: whatever the order of the steps, the blocks are sent in the order of the input.
use lbzip.Shared.{ℕ, suc, List, [], ◌∷◌, ◌++◌, ◌≡◌, refl, sym, ap, ◌∙◌, subst, true, &&→both, some}
use lbzip.Shared.Bags.{All, All-perm, All-middle}
use mathlib.Core.List.Permᴰ
use lbzip.Queue.{PriorityQueue}
use lbzip.Queue.Order.{pos_eq→eq}
use lbzip.Compress.{
  InBlk, WorkBlk, State, begin_collect, end_collect, requeue, end_encode, begin_transmit,
  end_transmit, can_reorder, do_reorder, on_input_avail, on_write_complete, init, is_at,
  combine_crc, start_work,
}
use lbzip.Compress.Steps.{
  Step, collect_begins, collect_ends, encode_ends, transmit_begins, transmit_ends, reorders, reads,
  reads_end, reads_short, writes, Reach, begins, goes_on,
}
use lbzip.Compress.Reference.{
  rest_after, piece, sequential, IsBlock, IsPiece, start_work-IsPiece, start_work-rest, stream_crc,
  stream_crc-append,
}

module _ (coll : PriorityQueue InBlk InBlk.pos) (work : PriorityQueue WorkBlk WorkBlk.pos)
    (size : ℕ) (input : ℕ → List ℕ) (num_worker total_in_slots total_out_slots : ℕ) where
  unfoldable pub GoodColl : coll.Queue → Type 0
  GoodColl q = coll.IsValid q × All (IsBlock size input) (coll.items q)

  unfoldable pub GoodWork : work.Queue → Type 0
  GoodWork q = work.IsValid q × All (IsPiece size input) (work.items q)

  -- Each block in a queue or in the hands of a thread is the one of its position, and what has been
  -- sent is what one thread would have made so far.
  unfoldable pub Right : State coll work → Type 0
  unfolding GoodColl GoodWork
  Right s =
      GoodColl s.coll_q
      × All (IsBlock size input) s.collecting
      × All (IsPiece size input) s.encoding
      × GoodWork s.trans_q
      × All (IsPiece size input) s.transmitting
      × GoodWork s.reord_q
      × ((n : ℕ) × (sequential size input n ≡ (s.order, s.sent)))
      × (s.combined_crc ≡ stream_crc 0 s.sent)

  enqueue-GoodColl :
      (q : coll.Queue) (b : InBlk) → GoodColl q → IsBlock size input b → GoodColl (coll.enqueue q b)
  unfolding GoodColl
  enqueue-GoodColl q b h e = (
    coll.enqueue_valid q b h.0,
    All-perm (IsBlock size input) (Permᴰ.symm (coll.enqueue_items q b h.0)) (e, h.1),
  )

  enqueue-GoodWork :
      (q : work.Queue) (w : WorkBlk)
      → GoodWork q
      → IsPiece size input w
      → GoodWork (work.enqueue q w)
  unfolding GoodWork
  enqueue-GoodWork q w h e = (
    work.enqueue_valid q w h.0,
    All-perm (IsPiece size input) (Permᴰ.symm (work.enqueue_items q w h.0)) (e, h.1),
  )

  dequeue-GoodColl :
      (q q' : coll.Queue) (b : InBlk)
      → GoodColl q
      → coll.dequeue q ≡ some (b, q')
      → IsBlock size input b × GoodColl q'
  unfolding GoodColl
  dequeue-GoodColl q q' b h e =
      let all = All-perm (IsBlock size input) (coll.dequeue_items q q' b h.0 e) h.1 in
      (all.0, (coll.dequeue_valid q q' b h.0 e, all.1))

  pub dequeue-GoodWork :
      (q q' : work.Queue) (w : WorkBlk)
      → GoodWork q
      → work.dequeue q ≡ some (w, q')
      → IsPiece size input w × GoodWork q'
  unfolding GoodWork
  dequeue-GoodWork q q' w h e =
      let all = All-perm (IsPiece size input) (work.dequeue_items q q' w h.0 e) h.1 in
      (all.0, (work.dequeue_valid q q' w h.0 e, all.1))

  init-Right : Right (init coll work num_worker total_in_slots total_out_slots)
  unfolding Right GoodColl GoodWork init sequential stream_crc
  init-Right =
      let none_in = subst (All (IsBlock size input)) (sym coll.init_items) tt in
      let none_out = subst (All (IsPiece size input)) (sym work.init_items) tt in
      (
        (coll.init_valid, none_in),
        tt,
        tt,
        (work.init_valid, none_out),
        tt,
        (work.init_valid, none_out),
        (0, refl),
        refl,
      )

  -- The rest of an input block, if there is one, is the block of the next position.
  requeue-GoodColl :
      (q : coll.Queue) (b : InBlk) (rest : List ℕ)
      → GoodColl q
      → rest ≡ rest_after size (input b.pos.major) (suc b.pos.minor)
      → GoodColl (requeue coll work q b rest)
  requeue-GoodColl q b [] g e = g
  requeue-GoodColl q b (x ∷ rest) g e = enqueue-GoodColl q _ g (e, refl)

  pub reorder_at :
      (s : State coll work) (w : WorkBlk) (q : work.Queue)
      → GoodWork s.reord_q
      → can_reorder coll work s ≡ true
      → work.dequeue s.reord_q ≡ some (w, q)
      → w.pos ≡ s.order
  unfolding GoodWork can_reorder
  reorder_at s w q o can taken = pos_eq→eq w.pos s.order (
      ap (λ p. is_at coll work p s.order) (sym (work.peek_dequeue s.reord_q q w o.0 taken))
      ∙ (&&→both _ _ can).1)

  -- do_reorder() sends the block at the order.
  reorder-Right :
      (s : State coll work) (w : WorkBlk) (q : work.Queue)
      → Right s
      → can_reorder coll work s ≡ true
      → work.dequeue s.reord_q ≡ some (w, q)
      → Right (do_reorder coll work s w q)
  unfolding Right do_reorder sequential
  reorder-Right s w q (c, l, d, t, m, o, (n, sent), k) can taken =
      let (is_piece, good) = dequeue-GoodWork s.reord_q q w o taken in
      let at = reorder_at s w q o can taken in
      let this : w ≡ piece size input s.order = is_piece.0 ∙ ap (piece size input) at in
      (
        c,
        l,
        d,
        t,
        m,
        good,
        (
          suc n,
          ap (λ r. ((piece size input r.0).next, r.1 ++ piece size input r.0 ∷ [])) sent
              ∙ ap (λ v. (v.next, s.sent ++ v ∷ [])) (sym this),
        ),
        ap (λ x. combine_crc x w.enc.block_crc) k ∙ sym (stream_crc-append 0 s.sent w),
      )

  Step-Right :
      (s t : State coll work)
      → Step coll work size input num_worker total_in_slots total_out_slots s t
      → Right s
      → Right t
  unfolding Right begin_collect end_collect end_encode begin_transmit end_transmit on_input_avail
      on_write_complete rest_after
  Step-Right s t (collect_begins b q can taken e) (c, l, d, v, m, o, z, k) =
      let (is_block, good) = dequeue-GoodColl s.coll_q q b c taken in
      subst Right (sym e) (good, (is_block, l), d, v, m, o, z, k)
  Step-Right s t (collect_ends before b after held e) (c, l, d, v, m, o, z, k) =
      let (is_block, others) =
        All-middle (IsBlock size input) before b after (subst (All (IsBlock size input)) held l) in
      let c' =
        requeue-GoodColl s.coll_q b (start_work size b).1 c
          (start_work-rest size input b is_block) in
      subst Right (sym e) (c', others, (start_work-IsPiece size input b is_block, d), v, m, o, z, k)
  Step-Right s t (encode_ends before w after held e) (c, l, d, v, m, o, z, k) =
      let (is_piece, others) =
        All-middle (IsPiece size input) before w after (subst (All (IsPiece size input)) held d) in
      subst Right (sym e) (c, l, others, enqueue-GoodWork s.trans_q w v is_piece, m, o, z, k)
  Step-Right s t (transmit_begins w q can taken e) (c, l, d, v, m, o, z, k) =
      let (is_piece, good) = dequeue-GoodWork s.trans_q q w v taken in
      subst Right (sym e) (c, l, d, good, (is_piece, m), o, z, k)
  Step-Right s t (transmit_ends before w after held e) (c, l, d, v, m, o, z, k) =
      let (is_piece, others) =
        All-middle (IsPiece size input) before w after (subst (All (IsPiece size input)) held m) in
      subst Right (sym e) (c, l, d, v, others, enqueue-GoodWork s.reord_q w o is_piece, z, k)
  Step-Right s t (reorders w q can taken e) r =
      subst Right (sym e) (reorder-Right s w q r can taken)
  Step-Right s t (reads x xs on slot here e) (c, l, d, v, m, o, z, k) =
      subst Right (sym e) (enqueue-GoodColl s.coll_q _ c (sym here, refl), l, d, v, m, o, z, k)
  Step-Right s t (reads_end on slot here e) r = subst Right (sym e) r
  Step-Right s t (reads_short on some_read here e) r = subst Right (sym e) r
  Step-Right s t (writes w rest here e) r = subst Right (sym e) r

  pub Reach-Right :
      (s : State coll work)
      → Reach coll work size input num_worker total_in_slots total_out_slots s
      → Right s
  Reach-Right s begins = init-Right
  Reach-Right s (goes_on r st) = Step-Right _ _ st (Reach-Right _ r)

  -- In each state that the threads can reach, what has been given to the sink is what one thread
  -- working through the buffers in their order would have made so far, the order is the position
  -- behind it, and the checksum is that of these blocks.
  pub sent-sequential :
      (s : State coll work)
      → Reach coll work size input num_worker total_in_slots total_out_slots s
      → ((n : ℕ) × (sequential size input n ≡ (s.order, s.sent)))
        × (s.combined_crc ≡ stream_crc 0 s.sent)
  unfolding Right
  sent-sequential s r = let (c, l, d, v, m, o, z, k) = Reach-Right s r in (z, k)
