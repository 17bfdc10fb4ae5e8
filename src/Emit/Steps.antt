-- ===== src/Emit/Steps.antt =====
-- The text that stands for the rest of a block in each state of emit(), and what a call owes it.
use Prim.Native.Nat.{zero, suc}
use lbzip.Shared.{
  ℕ, ◌+◌, ◌-◌, ◌/◌, ◌%◌, ◌^◌, ◌≤◌, List, [], ◌∷◌, ◌++◌, append_assoc, ◌≡◌, sym, ap, ◌∙◌, get_or,
  length, length-append, length-replicate, replicate, Option, none, some, arith, bit_xor,
}
use lbzip.Common.{ok, more, err_runlen}
use lbzip.Rle.{Run, no_run, one, two, three, four, prepend, unrle}
use lbzip.Rle.Spells.{prepend-append}
use lbzip.Crc.{crc_bytes, crc_bytes-append}
use lbzip.Emit.{
  DecoderState, Locals, Case, case_1, case_2, case_3, case_4, case_5, Emitted, emitted, failed,
  write,
}

-- the next `a` bytes of the list
unfoldable pub walk : List ℕ → ℕ → ℕ → List ℕ
walk t p zero = []
walk t p (suc a) = let q = get_or t (p / 2 ^ 8) 0 in (q % 2 ^ 8) ∷ walk t q a

abbrev pub run_of : Case → Run
run_of case_1 = one
run_of case_2 = two
run_of case_3 = three
run_of case_4 = four
run_of case_5 = no_run

abbrev pub last_byte : Case → Locals → ℕ
last_byte case_1 r = r.c
last_byte at r = r.d

-- the text to come where the next byte is to be fetched for state `at`
abbrev pub to_fetch : Case → List ℕ → ℕ → Locals → Option (List ℕ)
to_fetch at t a r = unrle (run_of at) (last_byte at r) (walk t r.p a)

-- the text to come where it has been fetched
abbrev pub fetched : Case → List ℕ → ℕ → Locals → Option (List ℕ)
fetched at t a r = unrle (run_of at) r.d (r.c ∷ walk t r.p a)

-- the state of the decoder in which a byte has been fetched
abbrev pub case_of : ℕ → Option Case
case_of (suc zero) = some case_1
case_of (suc (suc zero)) = some case_2
case_of (suc (suc (suc zero))) = some case_3
case_of (suc (suc (suc (suc zero)))) = some case_4
case_of (suc (suc (suc (suc (suc zero))))) = some case_5
case_of state = none

abbrev pub text_at : Option Case → DecoderState → Option (List ℕ)
text_at (some at) ds =
    unrle (run_of at) ds.rle_prev (ds.rle_char ∷ walk ds.tt ds.rle_index ds.rle_avail)
text_at none ds = unrle no_run ds.rle_prev (walk ds.tt ds.rle_index ds.rle_avail)

-- the text to come before a call
unfoldable pub text : DecoderState → Option (List ℕ)
text ds = text_at (case_of ds.rle_state) ds

-- the states in which a call may start
abbrev pub IsValid : DecoderState → Type 0
IsValid ds = ds.rle_state ≤ 5

-- A call that comes to the end of the block has written all of the text, and has its checksum.
pub record Done (o : Option (List ℕ)) (b : List ℕ) (s m : ℕ) (out : List ℕ) (left : ℕ)
    (ds' : DecoderState) : Type 0 where
  pub wrote : List ℕ
  pub output : out ≡ b ++ wrote
  pub all : o ≡ some wrote
  pub room : left + length wrote ≡ m
  pub checksum : ds'.crc ≡ bit_xor (crc_bytes s wrote) (2 ^ 32 - 1)

-- A call that needs more room has filled what it had, and what is left to write is the rest.
pub record Suspended (o : Option (List ℕ)) (b : List ℕ) (s m : ℕ) (out : List ℕ) (left : ℕ)
    (ds' : DecoderState) : Type 0 where
  pub wrote : List ℕ
  pub output : out ≡ b ++ wrote
  pub rest : o ≡ prepend wrote (text ds')
  pub room : (left ≡ 0) × (length wrote ≡ m)
  pub checksum : ds'.rle_crc ≡ crc_bytes s wrote
  pub valid : IsValid ds'

-- what a call owes where it has written `b`, with the checksum `s`, there is room for `m` more, and
-- `o` is the text to come
unfoldable pub Owes : Option (List ℕ) → List ℕ → ℕ → ℕ → Emitted → Type 0
Owes o b s m (emitted ok out left ds') = Done o b s m out left ds'
Owes o b s m (emitted more out left ds') = Suspended o b s m out left ds'
Owes o b s m (failed err_runlen out) = o ≡ none
Owes o b s m e = ⊥

abbrev pub Emits : Option (List ℕ) → Locals → Emitted → Type 0
Emits o r e = Owes o r.b r.s r.m e

-- What is owed after some bytes have been written is owed before, with these bytes in front.
pub Emits-write :
    (o : Option (List ℕ)) (r : Locals) (x n : ℕ) (e : Emitted)
    → n ≤ r.m
    → Emits o (write x n r) e
    → Emits (prepend (replicate n x) o) r e
unfolding Owes write
Emits-write o r x n (emitted ok out left ds') le h = record {
  wrote = replicate n x ++ h.wrote;
  output = h.output ∙ append_assoc r.b (replicate n x) h.wrote;
  all = ap (prepend (replicate n x)) h.all;
  room = omega (arith, h.room, length-append (replicate n x) h.wrote, length-replicate n x);
  checksum =
      h.checksum
      ∙ ap (λ k. bit_xor k (2 ^ 32 - 1)) (sym (crc_bytes-append r.s (replicate n x) h.wrote));
}
Emits-write o r x n (emitted more out left ds') le h = record {
  wrote = replicate n x ++ h.wrote;
  output = h.output ∙ append_assoc r.b (replicate n x) h.wrote;
  rest = ap (prepend (replicate n x)) h.rest ∙ prepend-append (replicate n x) h.wrote (text ds');
  room = (
    h.room.0,
    omega (arith, h.room.1, length-append (replicate n x) h.wrote, length-replicate n x),
  );
  checksum = h.checksum ∙ sym (crc_bytes-append r.s (replicate n x) h.wrote);
  valid = h.valid;
}
Emits-write o r x n (failed err_runlen out) le h = ap (prepend (replicate n x)) h
Emits-write o r x n e le h = absurd h
