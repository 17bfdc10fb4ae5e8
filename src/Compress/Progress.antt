-- ===== src/Compress/Progress.antt =====
-- src/compress.c: the threads cannot all be stuck.
use lbzip.Shared.{
  ℕ, ◌+◌, ◌≤◌, ◌<◌, List, [], ◌∷◌, ◌≡◌, refl, ap, ◌∙◌, subst, inl, inr, Bool, true, false,
  Bool-cases, ltb, ltb→lt, ◌==◌, ◌&&◌, length, arith,
}
use lbzip.Shared.Bags.{All, one_if, count_p, found}
use lbzip.Queue.{Position, PriorityQueue, pos_eq, pos_le, pos_lt}
use lbzip.Queue.Order.{pos_eq_refl, pos_le_trans, pos_eq→eq}
use lbzip.Compress.{InBlk, WorkBlk, State, can_terminate, is_nil}
use lbzip.Compress.Steps.{Step, reads, reads_end, Reach}
use lbzip.Compress.Positions.{at, covers_in, due}
use lbzip.Compress.Reference.{IsPiece}
use lbzip.Compress.Safety.{GoodWork, Right, Reach-Right}
use lbzip.Compress.Accounts.{Balanced, Reach-Balanced}
use lbzip.Compress.Coverage.{holders, held_due, Counted}
use lbzip.Compress.Coverage.Invariant.{Reach-Counted}
use lbzip.Compress.Units.{Led, units_at, unit_due, Reach-Led}
use lbzip.Compress.Slots.{Spared, Reach-Spared}
use lbzip.Compress.Moves.{
  List-cases, covers-le, between, IsIdle, Moves, IsIdle-or-Moves, reorder-Moves, transmit-Moves,
  collect-Moves,
}

order_before : (o p : Position) (n : ℕ) → pos_le o p ≡ true → p.major < n → o.major < n
unfolding pos_le pos_lt
order_before o p n h k = ground arith

ends {ℓ} :
    {A : Type ℓ} (over : Bool) (xs : List A) (full : Bool)
    → over ≡ true
    → xs ≡ []
    → (over && (is_nil xs && full)) ≡ false
    → full ≡ false
ends over xs full h e k = ground (arith, h, ap is_nil e, k)

stays :
    (num_worker total_out_slots units slots trans reord : ℕ)
    → units + trans ≡ num_worker
    → slots + reord ≡ total_out_slots
    → ((units == num_worker) && (slots == total_out_slots)) ≡ false
    → 0 < trans + reord
stays num_worker total_out_slots units slots trans reord u w h = ground arith

nothing : (n : ℕ) → ltb 0 n ≡ false → n ≡ 0
nothing n h = ground arith

due_self : (o : Position) (n : ℕ) → o.major < n → due o n o ≡ 1
unfolding due pos_le pos_lt
due_self o n h = ground arith

module _ (coll : PriorityQueue InBlk InBlk.pos) (work : PriorityQueue WorkBlk WorkBlk.pos)
    (size : ℕ) (input : ℕ → List ℕ) (num_worker total_in_slots total_out_slots : ℕ) where
  -- The block at the order is held, once a block that is due is.
  order_held :
      (s : State coll work) (p : Position)
      → Counted coll work size input num_worker total_in_slots total_out_slots s
      → (pos_le s.order p ≡ true) × (p.major < s.next_id)
      → holders coll work size input num_worker total_in_slots total_out_slots s s.order ≡ 1
  unfolding Counted
  order_held s p (a, inl (before, begun), n) h = a s.order begun ∙ due_self s.order s.next_id before
  order_held s p (a, inr e, n) h =
      absurd (omega (arith, order_before s.order p s.next_id h.0 h.1, ap Position.major e))

  module _ (s : State coll work)
      (right : Right coll work size input num_worker total_in_slots total_out_slots s)
      (counted : Counted coll work size input num_worker total_in_slots total_out_slots s)
      (balanced : Balanced coll work size input num_worker total_in_slots total_out_slots s)
      (spared : Spared coll work size input num_worker total_in_slots total_out_slots s)
      (led : Led coll work size input num_worker total_in_slots total_out_slots s)
      (idle : IsIdle coll work size input num_worker total_in_slots total_out_slots s) where
    Result : Type 0
    Result = Moves coll work size input num_worker total_in_slots total_out_slots s

    units_in_queue :
        (p : Position)
        → units_at coll work size input num_worker total_in_slots total_out_slots s p
          ≡ count_p (at p) (work.items s.trans_q)
    units_in_queue p = omega (
      arith,
      ap (count_p (λ b. pos_eq b.pos p)) idle.collecting,
      ap (count_p (at p)) idle.encoding,
      ap (count_p (at p)) idle.transmitting,
    )

    -- An input block stands for the block at the order: it can be collected, or the unit that comes
    -- before it is held by the block at the order.
    input-Moves : 0 < count_p (covers_in s.order) (coll.items s.coll_q) → Result
    unfolding Result
    input-Moves held = elim led [
      | inl free ↦
          collect-Moves coll work size input num_worker total_in_slots total_out_slots s right
            counted free (λ e. absurd (omega (arith, held, ap (count_p (covers_in s.order)) e)))
      | inr (p, leads, h) ↦
          let (b, here, le) =
            found (covers_in s.order) (λ b. pos_le p b.pos ≡ true) (coll.items s.coll_q) held
              leads in
          let above =
            (unit_due coll work size input num_worker total_in_slots total_out_slots s p right
              counted h).0 in
          let same : p ≡ s.order = pos_eq→eq p s.order (
            between p s.order (pos_le_trans p b.pos s.order le (covers-le s.order b.pos here))
              above) in
          transmit-Moves coll work size input num_worker total_in_slots total_out_slots s right
            counted idle spared balanced
            (subst (λ o. 0 < count_p (at o) (work.items s.trans_q)) same
              (omega (arith, h, units_in_queue p)))
    ]

    -- A block is held that is due.
    due-Moves : (p : Position) → (pos_le s.order p ≡ true) × (p.major < s.next_id) → Result
    unfolding Result
    due-Moves p h = elim (Bool-cases (ltb 0 (count_p (at s.order) (work.items s.reord_q)))) [
      | inl held ↦
          reorder-Moves coll work size input num_worker total_in_slots total_out_slots s right
            counted (ltb→lt _ _ held)
      | inr r0 ↦ elim (Bool-cases (ltb 0 (count_p (at s.order) (work.items s.trans_q)))) [
        | inl held ↦
            transmit-Moves coll work size input num_worker total_in_slots total_out_slots s right
              counted idle spared balanced (ltb→lt _ _ held)
        | inr t0 ↦ input-Moves (
            omega (
              arith,
              order_held s p counted h,
              units_in_queue s.order,
              nothing (count_p (at s.order) (work.items s.reord_q)) r0,
              nothing (count_p (at s.order) (work.items s.trans_q)) t0,
              ap (count_p (covers_in s.order)) idle.collecting,
              ap (count_p (at s.order)) idle.encoding,
              ap (count_p (at s.order)) idle.transmitting,
            ))
      ]
    ]

    piece-Moves :
        (w : WorkBlk) (ws : List WorkBlk)
        → IsPiece size input w
        → count_p (at w.pos) (w ∷ ws)
          ≤ holders coll work size input num_worker total_in_slots total_out_slots s w.pos
        → Result
    piece-Moves w ws piece held = due-Moves w.pos (
        held_due coll work size input num_worker total_in_slots total_out_slots s w.pos counted
          piece.1 (omega (arith, held, ap one_if (pos_eq_refl w.pos))))

    -- A block waits in a queue.
    queue-Moves : 0 < length (work.items s.trans_q) + length (work.items s.reord_q) → Result
    unfolding Right GoodWork
    queue-Moves h = elim (List-cases (work.items s.trans_q)) [
      | inr (w, ws, e) ↦
          piece-Moves w ws (subst (All (IsPiece size input)) e right.3.1).0
            (omega (arith, ap (count_p (at w.pos)) e))
      | inl none_there ↦ elim (List-cases (work.items s.reord_q)) [
        | inr (w, ws, e) ↦
            piece-Moves w ws (subst (All (IsPiece size input)) e right.5.1).0
              (omega (arith, ap (count_p (at w.pos)) e))
        | inl none_here ↦ absurd (omega (arith, h, ap length none_there, ap length none_here))
      ]
    ]

    reader-Moves : s.eof ≡ false → 0 < s.in_slots → Result
    unfolding Result
    reader-Moves on slot = elim (List-cases (input s.next_id)) [
      | inl e ↦ (_, reads_end on slot e refl)
      | inr (x, xs, e) ↦ (_, reads x xs on slot e refl)
    ]

    IsIdle-Moves :
        0 < total_in_slots → can_terminate coll work num_worker total_out_slots s ≡ false → Result
    unfolding can_terminate Result
    IsIdle-Moves some_in stay = elim (List-cases (coll.items s.coll_q)) [
      | inr (b, bs, e) ↦ elim led [
        | inl free ↦
            collect-Moves coll work size input num_worker total_in_slots total_out_slots s right
              counted free (λ nil. absurd (omega (arith, ap length nil, ap length e)))
        | inr (p, leads, h) ↦ due-Moves p (
            unit_due coll work size input num_worker total_in_slots total_out_slots s p right
              counted h)
      ]
      | inl no_input ↦ elim (Bool-cases s.eof) [
        | inr on ↦
            reader-Moves on
              (omega (arith, balanced.0, ap length no_input, ap length idle.collecting))
        | inl over ↦ queue-Moves (
            stays num_worker total_out_slots s.work_units s.out_slots
              (length (work.items s.trans_q)) (length (work.items s.reord_q))
              (omega (
                arith,
                balanced.1,
                ap length idle.collecting,
                ap length idle.encoding,
                ap length idle.transmitting,
              ))
              (omega (arith, balanced.2, ap length idle.transmitting, ap length idle.output))
              (ends s.eof (coll.items s.coll_q) _ over no_input stay))
      ]
    ]

  -- In a reachable state in which the compressor may not terminate, some thread can go on: there is
  -- no deadlock, if there are a worker, an input slot and two output slots.
  pub Reach-Moves :
      (s : State coll work)
      → Reach coll work size input num_worker total_in_slots total_out_slots s
      → 0 < num_worker
      → 0 < total_in_slots
      → 2 ≤ total_out_slots
      → can_terminate coll work num_worker total_out_slots s ≡ false
      → (t : State coll work) × Step coll work size input num_worker total_in_slots total_out_slots
          s t
  unfolding Result
  Reach-Moves s r some_worker some_in two_out stay =
      elim (IsIdle-or-Moves coll work size input num_worker total_in_slots total_out_slots s) [
        | inr moves ↦ moves
        | inl idle ↦
            IsIdle-Moves s
              (Reach-Right coll work size input num_worker total_in_slots total_out_slots s r)
              (Reach-Counted coll work size input num_worker total_in_slots total_out_slots s r)
              (Reach-Balanced coll work size input num_worker total_in_slots total_out_slots s r)
              (Reach-Spared coll work size input num_worker total_in_slots total_out_slots s r
                two_out)
              (Reach-Led coll work size input num_worker total_in_slots total_out_slots s r
                some_worker)
              idle some_in stay
      ]
