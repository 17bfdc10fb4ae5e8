-- ===== src/Compress/Measure.antt =====
-- src/compress.c: what is left to be done falls with each step.
use lbzip.Shared.{
  ℕ, zero, suc, ◌+◌, ◌-◌, ◌*◌, ◌≤◌, ◌<◌, List, [], ◌∷◌, ◌≡◌, sym, ap, ◌∙◌, subst, Bool, true, false,
  Bool-cases, inl, inr, length, length-append, ltb, ltb→lt, leb, arith,
}
use lbzip.Shared.Bags.{All, All-middle, total, total-perm, total-middle, length-perm, length-middle}
use lbzip.Queue.{PriorityQueue}
use lbzip.Collect.{
  Place, at_1, Locals, Next, go_on, unread, step, step_0, follow, collect_loop, collect,
  encoder_init,
}
use lbzip.Compress.{
  InBlk, WorkBlk, State, begin_collect, end_collect, requeue, end_encode, begin_transmit,
  end_transmit, do_reorder, on_input_avail, on_write_complete, is_nil, start_work, fresh_memory,
}
use lbzip.Compress.Steps.{
  Step, collect_begins, collect_ends, encode_ends, transmit_begins, transmit_ends, reorders, reads,
  reads_end, reads_short, writes,
}
use lbzip.Compress.Reference.{IsBlock}
use lbzip.Compress.Safety.{GoodColl, GoodWork, Right}

follow-rest :
    (p : List ℕ) (c : ℕ) (next : Next) (size : ℕ)
    → ((at : Place) (l : Locals) → length (collect_loop size p at l).1.1 ≤ length p)
    → length (follow (collect_loop size p) (c ∷ p) next).1.1 ≤ suc (length p)
follow-rest p c (go_on at l) size h = omega (arith, h at l)
follow-rest p c (unread s l) size h = omega arith

collect_loop-rest :
    (size : ℕ) (p : List ℕ) (at : Place) (l : Locals)
    → length (collect_loop size p at l).1.1 ≤ length p
unfolding collect_loop
collect_loop-rest size [] at l = omega arith
collect_loop-rest size (c ∷ p) at l =
    follow-rest p c (step size at c l) size (collect_loop-rest size p)

not_full : (size : ℕ) → 0 < size → leb size 0 ≡ false
not_full size h = ground arith

-- Something is collected from what is not empty.
collect-shorter :
    (size : ℕ) (xs : List ℕ)
    → 0 < size
    → is_nil xs ≡ false
    → length (collect (encoder_init fresh_memory size) xs).1.0 < length xs
unfolding collect encoder_init collect_loop step step_0
collect-shorter size [] h full = absurd (cc)
collect-shorter size (c ∷ p) h full =
    rw (not_full size h) (omega (arith, collect_loop-rest size p at_1 _))

start_work-shorter :
    (size : ℕ) (b : InBlk)
    → 0 < size
    → is_nil b.left ≡ false
    → length (start_work size b).1 < length b.left
unfolding start_work
start_work-shorter size b h full = collect-shorter size b.left h full

-- the steps that a buffer may still cost
abbrev pub cost : List ℕ → ℕ
cost buffer = 8 * length buffer + 2

-- those of `n` buffers, from one on
unfoldable pub costs : (ℕ → List ℕ) → ℕ → ℕ → ℕ
costs input k zero = 0
costs input k (suc n) = cost (input k) + costs input (suc k) n

module _ (coll : PriorityQueue InBlk InBlk.pos) (work : PriorityQueue WorkBlk WorkBlk.pos)
    (size : ℕ) (input : ℕ → List ℕ) (num_worker total_in_slots total_out_slots : ℕ) (last : ℕ) where
  abbrev queued_cost : InBlk → ℕ
  queued_cost b = 8 * length b.left + 1

  abbrev collecting_cost : InBlk → ℕ
  collecting_cost b = 8 * length b.left

  abbrev running : Bool → ℕ
  running true = 0
  running false = 1

  -- A bound of the steps to come, where the input ends at the buffer `last`.
  abbrev pub to_do : State coll work → ℕ
  to_do s =
      running s.eof
      + costs input s.next_id (last - s.next_id)
      + total queued_cost (coll.items s.coll_q)
      + total collecting_cost s.collecting
      + 5 * length s.encoding
      + 4 * length (work.items s.trans_q)
      + 3 * length s.transmitting
      + 2 * length (work.items s.reord_q)
      + length s.output_q

  requeue-cost :
      (q : coll.Queue) (b : InBlk) (rest : List ℕ)
      → coll.IsValid q
      → length rest < length b.left
      → total queued_cost (coll.items (requeue coll work q b rest)) + 6
        ≤ total queued_cost (coll.items q) + collecting_cost b
  requeue-cost q b [] v h = omega arith
  requeue-cost q b (x ∷ rest) v h = omega (arith, total-perm queued_cost (coll.enqueue_items q _ v))

  before_last :
      (s : State coll work) (x : ℕ) (xs : List ℕ)
      → input last ≡ []
      → ((k : ℕ) → k < s.next_id → is_nil (input k) ≡ false)
      → input s.next_id ≡ x ∷ xs
      → s.next_id < last
  before_last s x xs ends full here = elim (Bool-cases (ltb s.next_id last)) [
    | inl lt ↦ ltb→lt _ _ lt
    | inr ge ↦ elim (Bool-cases (ltb last s.next_id)) [
      | inl lt ↦ absurd (cc (full last (ltb→lt _ _ lt), ap is_nil ends))
      | inr le ↦
          let same : s.next_id ≡ last = ground arith in
          absurd (cc (ap is_nil ends, ap is_nil here, ap input same))
    ]
  ]

  costs_next :
      (n : ℕ)
      → n < last
      → costs input n (last - n) ≡ cost (input n) + costs input (suc n) (last - suc n)
  unfolding costs
  costs_next n h = let more : last - n ≡ suc (last - suc n) = omega arith in rw more

  -- Each step of the threads brings the end nearer.
  pub Step-to_do :
      (s t : State coll work)
      → Step coll work size input num_worker total_in_slots total_out_slots s t
      → 0 < size
      → input last ≡ []
      → Right coll work size input num_worker total_in_slots total_out_slots s
      → ((k : ℕ) → k < s.next_id → is_nil (input k) ≡ false)
      → to_do t < to_do s
  unfolding Right GoodColl GoodWork begin_collect end_collect end_encode begin_transmit end_transmit
      on_input_avail on_write_complete do_reorder
  Step-to_do s t (collect_begins b q can taken e) some_size ends (c, l, d, v, m, o, z, k) full =
      let one = total-perm queued_cost (coll.dequeue_items s.coll_q q b c.0 taken) in
      subst (λ u. to_do u < to_do s) (sym e) (omega (arith, one))
  Step-to_do s t (collect_ends before b after held e) some_size ends (c, l, d, v, m, o, z, k) full =
      let (is_block, others) =
        All-middle (IsBlock size input) before b after (subst (All (IsBlock size input)) held l) in
      let one = ap (total collecting_cost) held ∙ total-middle collecting_cost before b after in
      let back =
        requeue-cost s.coll_q b (start_work size b).1 c.0
          (start_work-shorter size b some_size is_block.1) in
      subst (λ u. to_do u < to_do s) (sym e) (omega (arith, one, back))
  Step-to_do s t (encode_ends before w after held e) some_size ends (c, l, d, v, m, o, z, k) full =
      let one = ap length held ∙ length-middle before w after in
      let more = length-perm (work.enqueue_items s.trans_q w v.0) in
      subst (λ u. to_do u < to_do s) (sym e) (omega (arith, one, more))
  Step-to_do s t (transmit_begins w q can taken e) some_size ends (c, l, d, v, m, o, z, k) full =
      let one = length-perm (work.dequeue_items s.trans_q q w v.0 taken) in
      subst (λ u. to_do u < to_do s) (sym e) (omega (arith, one))
  Step-to_do s t (transmit_ends before w after held e) some_size ends (c, l, d, v, m, o, z, k)
        full =
      let one = ap length held ∙ length-middle before w after in
      let more = length-perm (work.enqueue_items s.reord_q w o.0) in
      subst (λ u. to_do u < to_do s) (sym e) (omega (arith, one, more))
  Step-to_do s t (reorders w q can taken e) some_size ends (c, l, d, v, m, o, z, k) full =
      let one = length-perm (work.dequeue_items s.reord_q q w o.0 taken) in
      subst (λ u. to_do u < to_do s) (sym e) (omega (arith, one, length-append s.output_q (w ∷ [])))
  Step-to_do s t (reads x xs on slot here e) some_size ends (c, l, d, v, m, o, z, k) full =
      let b : InBlk = record { pos = record { major = s.next_id; minor = 0 }; left = x ∷ xs } in
      let more = total-perm queued_cost (coll.enqueue_items s.coll_q b c.0) in
      let next = costs_next s.next_id (before_last s x xs ends full here) in
      subst (λ u. to_do u < to_do s) (sym e) (omega (arith, more, next, ap length here))
  Step-to_do s t (reads_end on slot here e) some_size ends r full =
      subst (λ u. to_do u < to_do s) (sym e) (omega (arith, ap running on))
  Step-to_do s t (reads_short on some_read here e) some_size ends r full =
      subst (λ u. to_do u < to_do s) (sym e) (omega (arith, ap running on))
  Step-to_do s t (writes w rest here e) some_size ends r full =
      subst (λ u. to_do u < to_do s) (sym e) (omega (arith, ap length here))
