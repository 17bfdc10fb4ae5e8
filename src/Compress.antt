-- ===== src/Compress.antt =====
-- src/compress.c: the process that compresses blocks, as the critical sections of its threads. What
-- a thread holds outside of them is in the lists `collecting`, `encoding` and `transmitting`.
pub mod Steps
pub mod Reference
pub mod Safety
pub mod Accounts
pub mod Positions
pub mod Coverage
pub mod Complete
pub mod Lossless
pub mod Units
pub mod Slots
pub mod Moves
pub mod Progress
pub mod Frame
pub mod Measure
pub mod Ending
pub mod Work
pub mod Tests
use lbzip.Shared.{
  ℕ, suc, ◌+◌, ◌-◌, ◌*◌, ◌/◌, ◌%◌, ◌^◌, List, [], ◌∷◌, ◌++◌, Bool, true, false, ◌&&◌, ◌||◌, not,
  ltb, ◌==◌, if◌then◌else◌, Option, none, some, length, bit_xor,
}
use lbzip.Common.{pos}
use lbzip.Queue.{Position, pos_eq, PriorityQueue}
use lbzip.Collect.{EncoderState, encoder_init, collect}

-- `struct in_blk`: `left` is what lies between `next` and the end
pub record InBlk : Type 0 where
  pub pos : Position
  pub left : List ℕ

-- `struct work_blk`: the size, the checksum and the buffer are made from the encoder
pub record WorkBlk : Type 0 where
  pub pos : Position
  pub next : Position
  pub enc : EncoderState
  pub weight : ℕ

abbrev pub transm_thresh : ℕ
transm_thresh = 2

-- `combine_crc` of src/encode.h
unfoldable pub combine_crc : ℕ → ℕ → ℕ
combine_crc cc c = bit_xor (bit_xor (bit_xor (cc * 2 % 2 ^ 32) (cc / 2 ^ 31)) c) (2 ^ 32 - 1)

-- memory before encoder_init() has set it
abbrev pub fresh_memory : EncoderState
fresh_memory = record {
  cmap = λ c. false;
  rle_state = pos 0;
  rle_character = 0;
  block_crc = 0;
  block = [];
  max_block_size = 0;
}

abbrev pub is_nil {ℓ} : {A : Type ℓ} → List A → Bool
is_nil [] = true
is_nil (x ∷ xs) = false

-- where the block after this one begins
abbrev pub next_position : Position → List ℕ → Position
next_position p [] = record { major = suc p.major; minor = 0 }
next_position p (x ∷ rest) = record p { minor = suc p.minor }

-- do_collect(), outside of the lock: as much as fits a block of `size` bytes is collected.
unfoldable pub start_work : ℕ → InBlk → WorkBlk × List ℕ
start_work size b =
    let c = collect (encoder_init fresh_memory size) b.left in
    (
      record {
        pos = b.pos;
        next = next_position b.pos c.1.0;
        enc = c.0;
        weight = length b.left - length c.1.0;
      },
      c.1.0,
    )

module _ (coll : PriorityQueue InBlk InBlk.pos) (work : PriorityQueue WorkBlk WorkBlk.pos) where
  pub record State : Type 0 where
    pub coll_q : coll.Queue
    pub trans_q : work.Queue
    pub reord_q : work.Queue
    pub order : Position
    pub next_id : ℕ
    pub combined_crc : ℕ
    pub eof : Bool
    pub work_units : ℕ
    pub in_slots : ℕ
    pub out_slots : ℕ
    pub collecting : List InBlk
    pub encoding : List WorkBlk
    pub transmitting : List WorkBlk
    -- the blocks given to the sink and not yet written, and all that have been given to it
    pub output_q : List WorkBlk
    pub sent : List WorkBlk

  -- `ultra` is off
  unfoldable pub can_collect : State → Bool
  can_collect s = not (is_nil (coll.items s.coll_q)) && ltb 0 s.work_units

  -- do_collect(), up to where the lock is left
  unfoldable pub begin_collect : State → InBlk → coll.Queue → State
  begin_collect s b q = record s {
    coll_q = q;
    work_units = s.work_units - 1;
    collecting = b ∷ s.collecting;
  }

  -- the queue and the free slots after the rest of an input block is put back, or its buffer is
  -- released
  abbrev pub requeue : coll.Queue → InBlk → List ℕ → coll.Queue
  requeue q b [] = q
  requeue q b (x ∷ rest) =
      coll.enqueue q (record { pos = record b.pos { minor = suc b.pos.minor }; left = x ∷ rest })

  abbrev pub release : ℕ → List ℕ → ℕ
  release slots [] = suc slots
  release slots (x ∷ rest) = slots

  -- do_collect(), where the lock is taken again; the threads before and after in the list hold
  -- `before` and `after`
  unfoldable pub end_collect : ℕ → State → List InBlk → InBlk → List InBlk → State
  unfolding start_work
  end_collect size s before b after =
      let w = start_work size b in
      record s {
        coll_q = requeue s.coll_q b w.1;
        in_slots = release s.in_slots w.1;
        collecting = before ++ after;
        encoding = w.0 ∷ s.encoding;
      }

  -- do_collect(), after encode()
  unfoldable pub end_encode : State → List WorkBlk → WorkBlk → List WorkBlk → State
  end_encode s before w after = record s {
    encoding = before ++ after;
    trans_q = work.enqueue s.trans_q w;
  }

  abbrev pub is_at : Option WorkBlk → Position → Bool
  is_at none p = false
  is_at (some w) p = pos_eq w.pos p

  unfoldable pub can_transmit : State → Bool
  can_transmit s =
      not (is_nil (work.items s.trans_q))
      && (ltb transm_thresh s.out_slots
          || (ltb 0 s.out_slots && is_at (work.peek s.trans_q) s.order))

  -- do_transmit(), up to where the lock is left
  unfoldable pub begin_transmit : State → WorkBlk → work.Queue → State
  begin_transmit s w q = record s {
    trans_q = q;
    out_slots = s.out_slots - 1;
    transmitting = w ∷ s.transmitting;
  }

  -- do_transmit(), after transmit()
  unfoldable pub end_transmit : State → List WorkBlk → WorkBlk → List WorkBlk → State
  end_transmit s before w after = record s {
    transmitting = before ++ after;
    work_units = suc s.work_units;
    reord_q = work.enqueue s.reord_q w;
  }

  unfoldable pub can_reorder : State → Bool
  can_reorder s = not (is_nil (work.items s.reord_q)) && is_at (work.peek s.reord_q) s.order

  unfoldable pub do_reorder : State → WorkBlk → work.Queue → State
  unfolding combine_crc
  do_reorder s w q = record s {
    reord_q = q;
    order = w.next;
    output_q = s.output_q ++ w ∷ [];
    sent = s.sent ++ w ∷ [];
    combined_crc = combine_crc s.combined_crc w.enc.block_crc;
  }

  unfoldable pub can_terminate : ℕ → ℕ → State → Bool
  can_terminate num_worker total_out_slots s =
      s.eof
      && (is_nil (coll.items s.coll_q)
          && ((s.work_units == num_worker) && (s.out_slots == total_out_slots)))

  -- the reader thread takes a slot and delivers a block
  unfoldable pub on_input_avail : State → List ℕ → State
  on_input_avail s buffer = record s {
    in_slots = s.in_slots - 1;
    next_id = suc s.next_id;
    coll_q =
        coll.enqueue s.coll_q
          (record { pos = record { major = s.next_id; minor = 0 }; left = buffer });
  }

  -- the writer thread has written the oldest block
  unfoldable pub on_write_complete : State → List WorkBlk → State
  on_write_complete s rest = record s { output_q = rest; out_slots = suc s.out_slots }

  unfoldable pub init : ℕ → ℕ → ℕ → State
  init num_worker total_in_slots total_out_slots = record {
    coll_q = coll.init;
    trans_q = work.init;
    reord_q = work.init;
    order = record { major = 0; minor = 0 };
    next_id = 0;
    combined_crc = 0;
    eof = false;
    work_units = num_worker;
    in_slots = total_in_slots;
    out_slots = total_out_slots;
    collecting = [];
    encoding = [];
    transmitting = [];
    output_q = [];
    sent = [];
  }
