-- ===== src/Compress/Coverage/Reorder.antt =====
-- src/compress.c: the places of the blocks across do_reorder() and on_input_avail().
use lbzip.Shared.{
  ℕ, suc, ◌<◌, List, [], ◌∷◌, ◌≡◌, refl, sym, ap, ◌∙◌, subst, ◌⊎◌, inl, inr, true, false, ltb, ◌==◌,
  Bool-cases, some, ltb→lt, ==→eq, arith,
}
use lbzip.Shared.Bags.{one_if, count_p-perm}
use lbzip.Queue.{Position, PriorityQueue, pos_eq}
use lbzip.Queue.Order.{pos_eq_refl}
use lbzip.Compress.{
  InBlk, WorkBlk, State, can_reorder, do_reorder, on_input_avail, is_nil, next_position,
}
use lbzip.Compress.Reference.{rest_after, piece, piece-next}
use lbzip.Compress.Positions.{covers_in, at, due, IsBegun, rest_at, due_next, due_read, due_before}
use lbzip.Compress.Safety.{GoodColl, GoodWork, Right, dequeue-GoodWork, reorder_at}
use lbzip.Compress.Coverage.{Placed, Counted}

module _ (coll : PriorityQueue InBlk InBlk.pos) (work : PriorityQueue WorkBlk WorkBlk.pos)
    (size : ℕ) (input : ℕ → List ℕ) (num_worker total_in_slots total_out_slots : ℕ) where
  Placed-major :
      (s : State coll work)
      → Placed coll work size input num_worker total_in_slots total_out_slots s
      → (s.order.major < s.next_id) ⊎ (s.order ≡ record { major = s.next_id; minor = 0 })
  Placed-major s (inl h) = inl h.0
  Placed-major s (inr h) = inr h

  Placed-read :
      (s : State coll work)
      → Placed coll work size input num_worker total_in_slots total_out_slots s
      → is_nil (input s.next_id) ≡ false
      → ((s.order.major < suc s.next_id) × IsBegun size input s.order)
        ⊎ (s.order ≡ record { major = suc s.next_id; minor = 0 })
  unfolding rest_after
  Placed-read s (inl h) full = inl (omega (arith, h.0), h.1)
  Placed-read s (inr e) full =
      inl (omega (arith, ap Position.major e), subst (IsBegun size input) (sym e) full)

  -- A block at the order in the queue of those to be reordered is due.
  pub order_is_due :
      (s : State coll work) (w : WorkBlk) (q : work.Queue)
      → Right coll work size input num_worker total_in_slots total_out_slots s
      → Counted coll work size input num_worker total_in_slots total_out_slots s
      → can_reorder coll work s ≡ true
      → work.dequeue s.reord_q ≡ some (w, q)
      → (s.order.major < s.next_id) × IsBegun size input s.order
  unfolding Right GoodWork Counted
  order_is_due s w q (c, l, d, v, m, o, z, k) (a, f, n) can taken =
      let (is_piece, good) =
        dequeue-GoodWork coll work size input num_worker total_in_slots total_out_slots s.reord_q q
          w o taken in
      let here =
        reorder_at coll work size input num_worker total_in_slots total_out_slots s w q o can
          taken in
      let begun : IsBegun size input s.order = subst (IsBegun size input) here is_piece.1 in
      let held = count_p-perm (at s.order) (work.dequeue_items s.reord_q q w o.0 taken) in
      let first = ap one_if (ap (λ p. pos_eq p s.order) here ∙ pos_eq_refl s.order) in
      (due_before s.order s.next_id s.order (omega (arith, a s.order begun, held, first)), begun)

  Placed_next :
      (s : State coll work) (rest : List ℕ)
      → rest ≡ rest_at size input (record s.order { minor = suc s.order.minor })
      → (s.order.major < s.next_id)
      → ((k : ℕ) → k < s.next_id → is_nil (input k) ≡ false)
      → ((next_position s.order rest).major < s.next_id)
          × IsBegun size input (next_position s.order rest)
        ⊎ (next_position s.order rest ≡ record { major = s.next_id; minor = 0 })
  unfolding rest_after
  Placed_next s [] e before n = elim (Bool-cases (ltb (suc s.order.major) s.next_id)) [
    | inl more ↦ let h = ltb→lt _ _ more in inl (h, n (suc s.order.major) h)
    | inr last ↦ inr (ground (arith, last))
  ]
  Placed_next s (x ∷ rest) e before n = inl (before, ap is_nil (sym e))

  pub reorder-Counted :
      (s : State coll work) (w : WorkBlk) (q : work.Queue)
      → Right coll work size input num_worker total_in_slots total_out_slots s
      → Counted coll work size input num_worker total_in_slots total_out_slots s
      → can_reorder coll work s ≡ true
      → work.dequeue s.reord_q ≡ some (w, q)
      → Counted coll work size input num_worker total_in_slots total_out_slots
          (do_reorder coll work s w q)
  unfolding Right GoodWork Counted do_reorder
  reorder-Counted s w q r i can taken =
      let (c, l, d, v, m, o, z, k) = r in
      let (a, f, n) = i in
      let due_here = order_is_due s w q r i can taken in
      let (is_piece, good) =
        dequeue-GoodWork coll work size input num_worker total_in_slots total_out_slots s.reord_q q
          w o taken in
      let here =
        reorder_at coll work size input num_worker total_in_slots total_out_slots s w q o can
          taken in
      let rest = rest_at size input (record s.order { minor = suc s.order.minor }) in
      let next : w.next ≡ next_position s.order rest =
        ap WorkBlk.next (is_piece.0 ∙ ap (piece size input) here) ∙ piece-next size input s.order in
      (
        λ p h. omega (
          arith,
          a p h,
          count_p-perm (at p) (work.dequeue_items s.reord_q q w o.0 taken),
          ap (λ x. one_if (pos_eq x p)) here,
          ap (λ x. due x s.next_id p) next,
          due_next size input p s.order s.next_id h due_here.0,
        ),
        subst
            (λ x.
              (x.major < s.next_id) × IsBegun size input x
              ⊎ (x ≡ record { major = s.next_id; minor = 0 }))
            (sym next) (Placed_next s rest refl due_here.0 n),
        n,
      )

  pub reads-Counted :
      (s : State coll work) (x : ℕ) (xs : List ℕ)
      → Right coll work size input num_worker total_in_slots total_out_slots s
      → Counted coll work size input num_worker total_in_slots total_out_slots s
      → input s.next_id ≡ x ∷ xs
      → Counted coll work size input num_worker total_in_slots total_out_slots
          (on_input_avail coll work s (x ∷ xs))
  unfolding Right GoodColl Counted on_input_avail rest_after
  reads-Counted s x xs (c, l, d, v, m, o, z, k) (a, f, n) here =
      let b : InBlk = record { pos = record { major = s.next_id; minor = 0 }; left = x ∷ xs } in
      let full : is_nil (input s.next_id) ≡ false = ap is_nil here in
      (
        λ p h. omega (
          arith,
          a p h,
          count_p-perm (covers_in p) (coll.enqueue_items s.coll_q b c.0),
          due_read s.order p s.next_id (Placed-major s f),
        ),
        Placed-read s f full,
        λ j h. elim (Bool-cases (j == s.next_id)) [
          | inl e ↦ subst (λ i. is_nil (input i) ≡ false) (sym (==→eq _ _ e)) full
          | inr e ↦ n j (ground (arith, e))
        ],
      )
