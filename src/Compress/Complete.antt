-- ===== src/Compress/Complete.antt =====
-- src/compress.c: when the compressor may terminate, nothing is left to be sent.
use lbzip.Shared.{
  ℕ, ◌<◌, List, [], ◌∷◌, ◌≡◌, refl, sym, ap, ◌∙◌, subst, inl, inr, true, false, &&→both, ==→eq,
  length, arith,
}
use lbzip.Shared.Bags.{count_p-le-length}
use lbzip.Queue.{PriorityQueue, pos_eq}
use lbzip.Queue.Order.{pos_le_refl}
use lbzip.Compress.{
  InBlk, WorkBlk, State, begin_collect, end_collect, end_encode, begin_transmit, end_transmit,
  do_reorder, on_input_avail, on_write_complete, init, is_nil, can_terminate,
}
use lbzip.Compress.Steps.{
  Step, collect_begins, collect_ends, encode_ends, transmit_begins, transmit_ends, reorders, reads,
  reads_end, reads_short, writes, Reach, begins, goes_on,
}
use lbzip.Compress.Reference.{sequential, stream_crc}
use lbzip.Compress.Positions.{covers, due}
use lbzip.Compress.Safety.{sent-sequential}
use lbzip.Compress.Accounts.{Reach-queue_bounds}
use lbzip.Compress.Coverage.{holders, Counted}
use lbzip.Compress.Coverage.Invariant.{Reach-Counted}

pub nil_of_is_nil {ℓ} : {A : Type ℓ} (xs : List A) → is_nil xs ≡ true → xs ≡ []
nil_of_is_nil [] h = refl
nil_of_is_nil (x ∷ xs) h = cc

pub nil_of_length {ℓ} : {A : Type ℓ} (xs : List A) → length xs ≡ 0 → xs ≡ []
nil_of_length [] h = refl
nil_of_length (x ∷ xs) h = absurd (omega (arith, h))

module _ (coll : PriorityQueue InBlk InBlk.pos) (work : PriorityQueue WorkBlk WorkBlk.pos)
    (size : ℕ) (input : ℕ → List ℕ) (num_worker total_in_slots total_out_slots : ℕ) where
  -- The end of the input is seen only where the input ends.
  abbrev Ended : State coll work → Type 0
  Ended s = s.eof ≡ true → input s.next_id ≡ []

  Step-Ended :
      (s t : State coll work)
      → Step coll work size input num_worker total_in_slots total_out_slots s t
      → Ended s
      → Ended t
  unfolding begin_collect end_collect end_encode begin_transmit end_transmit on_input_avail
      on_write_complete do_reorder
  Step-Ended s t (collect_begins b q can taken e) h = subst Ended (sym e) h
  Step-Ended s t (collect_ends before b after held e) h = subst Ended (sym e) h
  Step-Ended s t (encode_ends before w after held e) h = subst Ended (sym e) h
  Step-Ended s t (transmit_begins w q can taken e) h = subst Ended (sym e) h
  Step-Ended s t (transmit_ends before w after held e) h = subst Ended (sym e) h
  Step-Ended s t (reorders w q can taken e) h = subst Ended (sym e) h
  Step-Ended s t (reads x xs on slot here e) h =
      subst Ended (sym e) (λ over. absurd (cc (on, over)))
  Step-Ended s t (reads_end on slot here e) h = subst Ended (sym e) (λ over. here)
  Step-Ended s t (reads_short on some_read here e) h = subst Ended (sym e) (λ over. here)
  Step-Ended s t (writes w rest here e) h = subst Ended (sym e) h

  pub Reach-Ended :
      (s : State coll work)
      → Reach coll work size input num_worker total_in_slots total_out_slots s
      → Ended s
  unfolding init
  Reach-Ended s begins = λ over. absurd (cc)
  Reach-Ended s (goes_on {s = r} reach st) = Step-Ended r s st (Reach-Ended r reach)

  -- Where no queue and no thread holds a block, the order is behind the last buffer.
  pub nothing_due :
      (s : State coll work)
      → Counted coll work size input num_worker total_in_slots total_out_slots s
      → holders coll work size input num_worker total_in_slots total_out_slots s s.order ≡ 0
      → s.order ≡ record { major = s.next_id; minor = 0 }
  unfolding Counted due
  nothing_due s (a, inr e, n) none_held = e
  nothing_due s (a, inl h, n) none_held =
      absurd (ground (arith, a s.order h.1, none_held, pos_le_refl s.order, h.0))

  -- In a reachable state in which the compressor may terminate, all buffers of the input have been
  -- read, the blocks made of them have been sent in their order and are all that has been sent, the
  -- checksum is theirs, and the writer has written them; and
  -- all input slots are free.
  pub can_terminate_complete :
      (s : State coll work)
      → Reach coll work size input num_worker total_in_slots total_out_slots s
      → can_terminate coll work num_worker total_out_slots s ≡ true
      → (input s.next_id ≡ [])
        × ((k : ℕ) → k < s.next_id → is_nil (input k) ≡ false)
        × ((n : ℕ) × (sequential size input n ≡ (record { major = s.next_id; minor = 0 }, s.sent)))
        × (s.combined_crc ≡ stream_crc 0 s.sent)
        × (s.output_q ≡ [])
        × (s.in_slots ≡ total_in_slots)
  unfolding can_terminate Counted
  can_terminate_complete s r may =
      let (over, may') = &&→both _ _ may in
      let (no_input, may'') = &&→both _ _ may' in
      let (units, slots) = &&→both _ _ may'' in
      let (i, u, w) =
        (Reach-queue_bounds coll work size input num_worker total_in_slots total_out_slots s r).0 in
      let (a, f, n) =
        Reach-Counted coll work size input num_worker total_in_slots total_out_slots s r in
      let all_units = ==→eq s.work_units num_worker units in
      let all_slots = ==→eq s.out_slots total_out_slots slots in
      let none_in = ap length (nil_of_is_nil (coll.items s.coll_q) no_input) in
      let none_held : holders coll work size input num_worker total_in_slots total_out_slots s
            s.order
          ≡ 0 =
        omega (
          arith,
          i,
          u,
          w,
          all_units,
          all_slots,
          none_in,
          count_p-le-length (λ b. covers s.order b.pos) (coll.items s.coll_q),
          count_p-le-length (λ b. covers s.order b.pos) s.collecting,
          count_p-le-length (λ b. pos_eq b.pos s.order) s.encoding,
          count_p-le-length (λ b. pos_eq b.pos s.order) (work.items s.trans_q),
          count_p-le-length (λ b. pos_eq b.pos s.order) s.transmitting,
          count_p-le-length (λ b. pos_eq b.pos s.order) (work.items s.reord_q),
        ) in
      let behind = nothing_due s (a, f, n) none_held in
      let ((m, blocks), crc) =
        sent-sequential coll work size input num_worker total_in_slots total_out_slots s r in
      (
        Reach-Ended s r over,
        n,
        (m, blocks ∙ ap (λ o. (o, s.sent)) behind),
        crc,
        nil_of_length s.output_q (omega (arith, u, w, all_units, all_slots)),
        omega (arith, i, u, all_units, none_in),
      )
