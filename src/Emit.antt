-- ===== src/Emit.antt =====
-- src/decode.c, emit(): the automaton that writes out a decoded block, its run-length code undone,
-- in as many calls as the caller has buffers.
pub mod Steps
pub mod Correct
mod Tests
use lbzip.Shared.{
  ℕ, zero, suc, ◌+◌, ◌-◌, ◌*◌, ◌/◌, ◌%◌, ◌^◌, bit_xor, List, [], ◌∷◌, ◌++◌, ◌==◌, ltb,
  if◌then◌else◌, get_or, replicate, Bool, true, false,
}
use lbzip.Common.{Code, ok, more, err_runlen}
use lbzip.Crc.{crc_bytes}

-- what emit() reads and writes of `struct decoder_state`
pub record DecoderState : Type 0 where
  pub tt : List ℕ
  pub rle_state : ℕ
  pub rle_crc : ℕ
  pub rle_index : ℕ
  pub rle_avail : ℕ
  pub rle_char : ℕ
  pub rle_prev : ℕ
  pub crc : ℕ

-- the local variables, but for `a`: `b` is what has been written, and `m` the room that is left
pub record Locals : Type 0 where
  pub p : ℕ
  pub s : ℕ
  pub c : ℕ
  pub d : ℕ
  pub b : List ℕ
  pub m : ℕ

-- The states in which a byte has been fetched. The four copies of state 1 in the loop are one.
pub data Case : Type 0 where
  case_1 case_2 case_3 case_4 case_5 : Case

-- how a call ends: with the bytes written, the room that is left and the state, or with an error,
-- which leaves `*buf_sz` and the state as they were; `aborted` is the `default` of the `switch`
pub data Emitted : Type 0 where
  emitted : Code → List ℕ → ℕ → DecoderState → Emitted
  failed : Code → List ℕ → Emitted
  aborted : Emitted

-- `s = (s << 8) ^ crc_table[(s >> 24) ^ (*b++ = x)]`, `n` times
unfoldable pub write : ℕ → ℕ → Locals → Locals
unfolding crc_bytes
write x n r =
    let xs = replicate n x in record r { s = crc_bytes r.s xs; b = r.b ++ xs; m = r.m - n }

-- `c = p = t[p >> 8]`
abbrev pub fetch : List ℕ → Locals → Locals
fetch t r = let p = get_or t (r.p / 2 ^ 8) 0 in record r { p = p; c = p % 2 ^ 8 }

-- In the loop `d` becomes the byte before.
unfoldable pub take_byte : Case → List ℕ → Locals → Locals
take_byte case_1 t r = fetch t (record r { d = r.c })
take_byte at t r = fetch t r

-- the room is used up
unfoldable pub suspend : DecoderState → ℕ → ℕ → Locals → Emitted
suspend ds state a r = emitted more r.b 0 (record ds {
  rle_state = state;
  rle_crc = r.s;
  rle_index = r.p;
  rle_avail = a;
  rle_char = r.c;
  rle_prev = r.d;
})

-- The block is used up: `rle_avail` is what `a--` makes of 0.
unfoldable pub finish_block : DecoderState → Locals → Emitted
finish_block ds r =
    emitted ok r.b r.m (record ds { rle_avail = 2 ^ 32 - 1; crc = bit_xor r.s (2 ^ 32 - 1) })

-- no byte is left where the next one is for state `at`
unfoldable pub out_of_bytes : Case → DecoderState → Locals → Emitted
unfolding finish_block
out_of_bytes case_4 ds r = failed err_runlen r.b
out_of_bytes at ds r = finish_block ds r

-- a byte is written, if there is room, and `same` and `other` are the states that may follow
unfoldable pub put :
    (Case → Locals → Emitted) → DecoderState → ℕ → ℕ → Case → Case → Locals → Emitted
unfolding write suspend
put loop ds a state same other r =
    if r.m == 0
    then suspend ds state a r
    else loop (if r.c == r.d then same else other) (write r.c 1 r)

-- the count of a run: as many bytes as there is room for
unfoldable pub put_run : (Case → Locals → Emitted) → DecoderState → ℕ → Locals → Emitted
unfolding write suspend
put_run loop ds a r =
    if ltb r.m r.c
    then suspend ds 4 a (record (write r.d r.m r) { c = r.c - r.m })
    else loop case_5 (write r.d r.c r)

-- what is done with a byte that has been fetched; `loop` fetches the next one for a state
unfoldable pub enter : (Case → Locals → Emitted) → DecoderState → ℕ → Case → Locals → Emitted
unfolding put put_run
enter loop ds a case_1 r = put loop ds a 1 case_2 case_1 r
enter loop ds a case_2 r = put loop ds a 2 case_3 case_1 r
enter loop ds a case_3 r = put loop ds a 3 case_4 case_1 r
enter loop ds a case_4 r = put_run loop ds a r
enter loop ds a case_5 r = put loop ds a 5 case_1 case_1 r

-- `a` bytes are left
unfoldable pub emit_loop : DecoderState → ℕ → Case → Locals → Emitted
unfolding out_of_bytes enter take_byte
emit_loop ds zero at r = out_of_bytes at ds r
emit_loop ds (suc a) at r = enter (emit_loop ds a) ds a at (take_byte at ds.tt r)

-- the `switch`
unfoldable pub resume : ℕ → DecoderState → ℕ → Locals → Emitted
unfolding emit_loop
resume zero ds a r = emit_loop ds a case_5 r
resume (suc zero) ds a r = enter (emit_loop ds a) ds a case_1 r
resume (suc (suc zero)) ds a r = enter (emit_loop ds a) ds a case_2 r
resume (suc (suc (suc zero))) ds a r = enter (emit_loop ds a) ds a case_3 r
resume (suc (suc (suc (suc zero)))) ds a r = enter (emit_loop ds a) ds a case_4 r
resume (suc (suc (suc (suc (suc zero))))) ds a r = enter (emit_loop ds a) ds a case_5 r
resume state ds a r = aborted

abbrev pub load : DecoderState → ℕ → Locals
load ds buf_sz = record {
  p = ds.rle_index;
  s = ds.rle_crc;
  c = ds.rle_char;
  d = ds.rle_prev;
  b = [];
  m = buf_sz;
}

unfoldable pub emit : DecoderState → ℕ → Emitted
unfolding resume
emit ds buf_sz = resume ds.rle_state ds ds.rle_avail (load ds buf_sz)
