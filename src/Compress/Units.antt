-- ===== src/Compress/Units.antt =====
-- src/compress.c: a work unit is free, or one is held by a block that comes before all input blocks
-- in the queue.
use lbzip.Shared.{
  ℕ, zero, suc, ◌+◌, ◌<◌, List, [], ◌∷◌, ◌++◌, ◌≡◌, sym, ap, ◌∙◌, subst, ◌⊎◌, inl, inr, true, false,
  Bool-cases, arith,
}
use lbzip.Shared.Bags.{
  All, one_if, count_p, count_p-perm, count_p-middle, All-perm, found, count_p_mono,
}
use mathlib.Core.List.Permᴰ
use lbzip.Queue.{Position, PriorityQueue, pos_eq, pos_le, pos_lt}
use lbzip.Queue.Order.{pos_eq_refl, pos_le_refl, pos_le_trans, pos_le-total, pos_eq→eq}
use lbzip.Compress.{
  InBlk, WorkBlk, State, begin_collect, end_collect, requeue, end_encode, begin_transmit,
  end_transmit, do_reorder, on_input_avail, on_write_complete, init, start_work, is_nil,
}
use lbzip.Compress.Steps.{
  Step, collect_begins, collect_ends, encode_ends, transmit_begins, transmit_ends, reorders, reads,
  reads_end, reads_short, writes, Reach, begins, goes_on,
}
use lbzip.Compress.Positions.{in_at, at, covers_in, covers, IsBegun}
use lbzip.Compress.Reference.{IsBlock, IsPiece}
use lbzip.Compress.Safety.{GoodColl, GoodWork, Right, Reach-Right}
use lbzip.Compress.Coverage.{held_due, Counted}
use lbzip.Compress.Coverage.Invariant.{Reach-Counted}

next_after :
    (p b : Position) → pos_le p b ≡ true → pos_le p (record b { minor = suc b.minor }) ≡ true
unfolding pos_le pos_lt
next_after p b h = ground arith

at_covers : (p b : Position) → pos_eq b p ≡ true → covers p b ≡ true
unfolding covers pos_eq
at_covers p b h = ground arith

not_le : (a b : Position) → pos_le b a ≡ false → pos_lt a b ≡ true
unfolding pos_le
not_le a b h = ground arith

before_buffer :
    (p : Position) (n : ℕ) → p.major < n → pos_le p (record { major = n; minor = 0 }) ≡ true
unfolding pos_le pos_lt
before_buffer p n h = ground arith

module _ (coll : PriorityQueue InBlk InBlk.pos) (work : PriorityQueue WorkBlk WorkBlk.pos)
    (size : ℕ) (input : ℕ → List ℕ) (num_worker total_in_slots total_out_slots : ℕ) where
  -- how many work units are held by blocks at a position
  abbrev pub units_at : State coll work → Position → ℕ
  units_at s p =
      count_p (in_at p) s.collecting
      + count_p (at p) s.encoding
      + count_p (at p) (work.items s.trans_q)
      + count_p (at p) s.transmitting

  abbrev pub Leads : Position → List InBlk → Type 0
  Leads p = All (λ b. pos_le p b.pos ≡ true)

  abbrev pub Led : State coll work → Type 0
  Led s = (0 < s.work_units) ⊎ ((p : Position) × Leads p (coll.items s.coll_q) × (0 < units_at s p))

  init-Led : 0 < num_worker → Led (init coll work num_worker total_in_slots total_out_slots)
  unfolding init
  init-Led h = inl h

  -- A position that comes before an input block comes before what is left of it.
  requeue-Leads :
      (q : coll.Queue) (b : InBlk) (rest : List ℕ) (p : Position)
      → coll.IsValid q
      → pos_le p b.pos ≡ true
      → Leads p (coll.items q)
      → Leads p (coll.items (requeue coll work q b rest))
  requeue-Leads q b [] p v le all = all
  requeue-Leads q b (x ∷ rest) p v le all =
      All-perm (λ c. pos_le p c.pos ≡ true) (Permᴰ.symm (coll.enqueue_items q _ v))
        (next_after p b.pos le, all)

  pos_le-Leads : (p p' : Position) (bs : List InBlk) → pos_le p p' ≡ true → Leads p' bs → Leads p bs
  pos_le-Leads p p' [] h all = tt
  pos_le-Leads p p' (b ∷ bs) h all = (pos_le_trans p p' b.pos h all.0, pos_le-Leads p p' bs h all.1)

  -- where do_collect() ends, by whether the leading position comes before the block or behind it
  collect_ends-Led :
      (s : State coll work) (before : List InBlk) (b : InBlk) (after : List InBlk)
      → coll.IsValid s.coll_q
      → s.collecting ≡ before ++ b ∷ after
      → Led s
      → Led (end_collect coll work size s before b after)
  unfolding end_collect
  collect_ends-Led s before b after v held (inl free) = inl free
  collect_ends-Led s before b after v held (inr (p, leads, h)) =
      let moved =
        λ (x : Position). ap (count_p (in_at x)) held ∙ count_p-middle (in_at x) before b after in
      elim (Bool-cases (pos_le p b.pos)) [
        | inl le ↦ inr (
          p,
          requeue-Leads s.coll_q b (start_work size b).1 p v le leads,
          omega (arith, h, moved p),
        )
        | inr gt ↦ inr (
          b.pos,
          requeue-Leads s.coll_q b (start_work size b).1 b.pos v (pos_le_refl b.pos) (
              pos_le-Leads b.pos p (coll.items s.coll_q) (pos_le-total b.pos p (not_le b.pos p gt))
                leads),
          omega (arith, ap one_if (pos_eq_refl b.pos)),
        )
      ]

  InBlk-IsBegun :
      (p : Position) (b : InBlk) → IsBlock size input b → in_at p b ≡ true → IsBegun size input p
  InBlk-IsBegun p b h e =
      subst (IsBegun size input) (pos_eq→eq b.pos p e) (ap is_nil (sym h.0) ∙ h.1)

  pub WorkBlk-IsBegun :
      (p : Position) (w : WorkBlk) → IsPiece size input w → at p w ≡ true → IsBegun size input p
  WorkBlk-IsBegun p w h e = subst (IsBegun size input) (pos_eq→eq w.pos p e) h.1

  one_of : (a b : ℕ) → 0 < a + b → (0 < a) ⊎ (0 < b)
  one_of zero b h = inr (omega (arith, h))
  one_of (suc a) b h = inl (omega arith)

  pub count_p-IsBegun :
      (p : Position) (ws : List WorkBlk)
      → All (IsPiece size input) ws
      → 0 < count_p (at p) ws
      → IsBegun size input p
  count_p-IsBegun p ws all h =
      let (w, e, piece) = found (at p) (IsPiece size input) ws h all in WorkBlk-IsBegun p w piece e

  unit-IsBegun :
      (p : Position) (a e t m : ℕ)
      → (0 < a → IsBegun size input p)
      → (0 < e → IsBegun size input p)
      → (0 < t → IsBegun size input p)
      → (0 < m → IsBegun size input p)
      → 0 < a + e + t + m
      → IsBegun size input p
  unit-IsBegun p a e t m ha he ht hm h = elim (one_of (a + e + t) m h) [
    | inr in_m ↦ hm in_m
    | inl rest ↦ elim (one_of (a + e) t rest) [
      | inr in_t ↦ ht in_t
      | inl rest' ↦ elim (one_of a e rest') [ inr in_e ↦ he in_e | inl in_a ↦ ha in_a ]
    ]
  ]

  -- A unit is held only by a block that is due.
  pub unit_due :
      (s : State coll work) (p : Position)
      → Right coll work size input num_worker total_in_slots total_out_slots s
      → Counted coll work size input num_worker total_in_slots total_out_slots s
      → 0 < units_at s p
      → (pos_le s.order p ≡ true) × (p.major < s.next_id)
  unfolding Right GoodWork
  unit_due s p (c, l, d, v, m, o, z, k) i h =
      let collected = λ (n : 0 < count_p (in_at p) s.collecting).
        let (b, here, block) = found (in_at p) (IsBlock size input) s.collecting n l in
        InBlk-IsBegun p b block here in
      let begun =
        unit-IsBegun p (count_p (in_at p) s.collecting) (count_p (at p) s.encoding)
          (count_p (at p) (work.items s.trans_q)) (count_p (at p) s.transmitting) collected
          (count_p-IsBegun p s.encoding d) (count_p-IsBegun p (work.items s.trans_q) v.1)
          (count_p-IsBegun p s.transmitting m) h in
      held_due coll work size input num_worker total_in_slots total_out_slots s p i begun (
        omega (
          arith,
          h,
          count_p_mono (in_at p) (covers_in p) s.collecting (λ b q. at_covers p b.pos q),
        ))

  Step-Led :
      (s t : State coll work)
      → Step coll work size input num_worker total_in_slots total_out_slots s t
      → Right coll work size input num_worker total_in_slots total_out_slots s
      → Counted coll work size input num_worker total_in_slots total_out_slots s
      → Led s
      → Led t
  unfolding Right GoodColl GoodWork begin_collect end_encode begin_transmit end_transmit
      on_input_avail on_write_complete do_reorder
  Step-Led s t (collect_begins b q can taken e) (c, l, d, v, m, o, z, k) i u =
      let least =
        All-perm (λ x. pos_le b.pos x.pos ≡ true) (coll.dequeue_items s.coll_q q b c.0 taken)
          (coll.dequeue_least s.coll_q q b c.0 taken) in
      subst Led (sym e) (inr (b.pos, least.1, omega (arith, ap one_if (pos_eq_refl b.pos))))
  Step-Led s t (collect_ends before b after held e) (c, l, d, v, m, o, z, k) i u =
      subst Led (sym e) (collect_ends-Led s before b after c.0 held u)
  Step-Led s t (encode_ends before w after held e) r i (inl free) = subst Led (sym e) (inl free)
  Step-Led s t (encode_ends before w after held e) (c, l, d, v, m, o, z, k) i (inr (p, leads, h)) =
      let one = ap (count_p (at p)) held ∙ count_p-middle (at p) before w after in
      let more = count_p-perm (at p) (work.enqueue_items s.trans_q w v.0) in
      subst Led (sym e) (inr (p, leads, omega (arith, h, one, more)))
  Step-Led s t (transmit_begins w q can taken e) r i (inl free) = subst Led (sym e) (inl free)
  Step-Led s t (transmit_begins w q can taken e) (c, l, d, v, m, o, z, k) i (inr (p, leads, h)) =
      let one = count_p-perm (at p) (work.dequeue_items s.trans_q q w v.0 taken) in
      subst Led (sym e) (inr (p, leads, omega (arith, h, one)))
  Step-Led s t (transmit_ends before w after held e) r i u = subst Led (sym e) (inl (omega arith))
  Step-Led s t (reorders w q can taken e) r i u = subst Led (sym e) u
  Step-Led s t (reads x xs on slot here e) r i (inl free) = subst Led (sym e) (inl free)
  Step-Led s t (reads x xs on slot here e) r i (inr (p, leads, h)) =
      let b : InBlk = record { pos = record { major = s.next_id; minor = 0 }; left = x ∷ xs } in
      let (c, l, d, v, m, o, z, k) = r in
      let more =
        All-perm (λ y. pos_le p y.pos ≡ true) (Permᴰ.symm (coll.enqueue_items s.coll_q b c.0))
          (before_buffer p s.next_id (unit_due s p r i h).1, leads) in
      subst Led (sym e) (inr (p, more, h))
  Step-Led s t (reads_end on slot here e) r i u = subst Led (sym e) u
  Step-Led s t (reads_short on some_read here e) r i u = subst Led (sym e) u
  Step-Led s t (writes w rest here e) r i u = subst Led (sym e) u

  pub Reach-Led :
      (s : State coll work)
      → Reach coll work size input num_worker total_in_slots total_out_slots s
      → 0 < num_worker
      → Led s
  Reach-Led s begins h = init-Led h
  Reach-Led s (goes_on {s = r} reach st) h =
      Step-Led r s st
        (Reach-Right coll work size input num_worker total_in_slots total_out_slots r reach)
        (Reach-Counted coll work size input num_worker total_in_slots total_out_slots r reach)
        (Reach-Led r reach h)
