-- ===== src/Emit/Correct.antt =====
-- src/decode.c, emit(): it writes what the run-length code of the block stands for.
use Prim.Native.Nat.add
use lbzip.Shared.{
  ℕ, zero, suc, ◌+◌, ◌-◌, ◌≤◌, List, [], ◌∷◌, ◌≡◌, refl, sym, ap, ◌∙◌, Option, some, arith,
  append-nil, Bool, true, false, Bool-cases, ltb, ◌==◌, ==→eq, if◌then◌else◌, replicate, ◌++◌, inl,
  inr,
}
use lbzip.Rle.{Run, no_run, one, two, three, four, prepend, unrle, grow}
use lbzip.Rle.Spells.{prepend-append, prepend-nil, unrle-no_run}
use lbzip.Crc.{crc_bytes}
use lbzip.Emit.{
  DecoderState, Locals, Case, case_1, case_2, case_3, case_4, case_5, Emitted, write, take_byte,
  suspend, finish_block, out_of_bytes, put, put_run, enter, emit_loop, resume, emit, load,
}
use lbzip.Emit.Steps.{
  walk, to_fetch, fetched, case_of, text, text_at, IsValid, Emits, Owes, Emits-write,
}

abbrev number : Case → ℕ
number case_1 = 1
number case_2 = 2
number case_3 = 3
number case_4 = 4
number case_5 = 5

take_byte-fetched :
    (at : Case) (t : List ℕ) (a : ℕ) (r : Locals)
    → to_fetch at t (suc a) r ≡ fetched at t a (take_byte at t r)
unfolding take_byte walk
take_byte-fetched case_1 t a r = refl
take_byte-fetched case_2 t a r = refl
take_byte-fetched case_3 t a r = refl
take_byte-fetched case_4 t a r = refl
take_byte-fetched case_5 t a r = refl

replicate-split : (n k x : ℕ) → replicate (n + k) x ≡ replicate n x ++ replicate k x
replicate-split zero k x = rw add.zero refl
replicate-split (suc n) k x = rw add.suc (ap (◌∷◌ x) (replicate-split n k x))

-- The count of a run can be met in two parts.
count-split :
    (n c d : ℕ) (xs : List ℕ)
    → n ≤ c
    → unrle four d (c ∷ xs) ≡ prepend (replicate n d) (unrle four d ((c - n) ∷ xs))
unfolding unrle
count-split n c d xs le =
    let sum : c ≡ n + (c - n) = omega arith in
    ap (λ k. prepend (replicate k d) (unrle no_run c xs)) sum
    ∙ ap (λ ys. prepend ys (unrle no_run c xs)) (replicate-split n (c - n) d)
    ∙ sym (prepend-append (replicate n d) (replicate (c - n) d) (unrle no_run c xs))
    ∙ ap (λ o. prepend (replicate n d) (prepend (replicate (c - n) d) o))
        (unrle-no_run c (c - n) xs)

take_byte-Emits :
    (ds : DecoderState) (at : Case) (o : Option (List ℕ)) (r : Locals) (e : Emitted)
    → Emits o (take_byte at ds.tt r) e
    → Emits o r e
unfolding take_byte
take_byte-Emits ds case_1 o r e h = h
take_byte-Emits ds case_2 o r e h = h
take_byte-Emits ds case_3 o r e h = h
take_byte-Emits ds case_4 o r e h = h
take_byte-Emits ds case_5 o r e h = h

number-valid : (at : Case) → number at ≤ 5
number-valid case_1 = omega arith
number-valid case_2 = omega arith
number-valid case_3 = omega arith
number-valid case_4 = omega arith
number-valid case_5 = omega arith

case_of-number : (at : Case) → case_of (number at) ≡ some at
case_of-number case_1 = refl
case_of-number case_2 = refl
case_of-number case_3 = refl
case_of-number case_4 = refl
case_of-number case_5 = refl

-- A call that ends here owes nothing more.
suspend-Emits :
    (ds : DecoderState) (a : ℕ) (at : Case) (r : Locals)
    → r.m ≡ 0
    → Emits (fetched at ds.tt a r) r (suspend ds (number at) a r)
unfolding suspend Owes text crc_bytes
suspend-Emits ds a at r full =
    let ds' = record ds {
      rle_state = number at;
      rle_crc = r.s;
      rle_index = r.p;
      rle_avail = a;
      rle_char = r.c;
      rle_prev = r.d;
    } in
    record {
      wrote = [];
      output = sym (append-nil r.b);
      rest =
          sym (prepend-nil (fetched at ds.tt a r))
          ∙ ap (λ k. prepend [] (text_at k ds')) (sym (case_of-number at));
      room = (refl, sym full);
      checksum = refl;
      valid = number-valid at;
    }

finish_block-Emits : (ds : DecoderState) (r : Locals) → Emits (some []) r (finish_block ds r)
unfolding finish_block Owes crc_bytes
finish_block-Emits ds r = record {
  wrote = [];
  output = sym (append-nil r.b);
  all = refl;
  room = omega arith;
  checksum = refl;
}

out_of_bytes-Emits :
    (ds : DecoderState) (at : Case) (r : Locals)
    → Emits (to_fetch at ds.tt 0 r) r (out_of_bytes at ds r)
unfolding out_of_bytes Owes walk unrle
out_of_bytes-Emits ds case_1 r = finish_block-Emits ds r
out_of_bytes-Emits ds case_2 r = finish_block-Emits ds r
out_of_bytes-Emits ds case_3 r = finish_block-Emits ds r
out_of_bytes-Emits ds case_4 r = refl
out_of_bytes-Emits ds case_5 r = finish_block-Emits ds r

-- `loop` meets what it owes with `a` bytes left.
abbrev Meets : DecoderState → ℕ → (Case → Locals → Emitted) → Type 0
Meets ds a loop = (at : Case) (r : Locals) → Emits (to_fetch at ds.tt a r) r (loop at r)

-- The state that follows a byte in a run `run` has the run that the byte makes.
abbrev Follows : Case → Run → Type 0
Follows same run =
    (t : List ℕ) (a : ℕ) (r : Locals) (b : Bool)
    → (b ≡ true → r.c ≡ r.d)
    → to_fetch (if b then same else case_1) t a (write r.c 1 r)
      ≡ unrle (grow b run) r.c (walk t r.p a)

Follows-one : Follows case_2 one
unfolding write
Follows-one t a r true h = ap (λ d. unrle two d (walk t r.p a)) (sym (h refl))
Follows-one t a r false h = refl

Follows-two : Follows case_3 two
unfolding write
Follows-two t a r true h = ap (λ d. unrle three d (walk t r.p a)) (sym (h refl))
Follows-two t a r false h = refl

Follows-three : Follows case_4 three
unfolding write
Follows-three t a r true h = ap (λ d. unrle four d (walk t r.p a)) (sym (h refl))
Follows-three t a r false h = refl

grow-no_run : (b : Bool) → grow b no_run ≡ one
grow-no_run true = refl
grow-no_run false = refl

Follows-no_run : Follows case_1 no_run
unfolding write
Follows-no_run t a r true h = refl
Follows-no_run t a r false h = refl

module _ (ds : DecoderState) (a : ℕ) (loop : Case → Locals → Emitted)
    (meets : Meets ds a loop) where
  -- A byte is written, or the call ends in this state.
  put-Emits :
      (at same : Case) (run : Run) (r : Locals)
      → Follows same run
      → fetched at ds.tt a r
        ≡ prepend (r.c ∷ []) (unrle (grow (r.c == r.d) run) r.c (walk ds.tt r.p a))
      → Emits (fetched at ds.tt a r) r (put loop ds a (number at) same case_1 r)
  unfolding put
  put-Emits at same run r follows now = elim (Bool-cases (r.m == 0)) [
    | inl full ↦ rw full (suspend-Emits ds a at r (==→eq r.m 0 full))
    | inr room ↦
        rw (room, now, ← follows ds.tt a r (r.c == r.d) (==→eq r.c r.d))
          (Emits-write _ r r.c 1 _ (ground arith) (meets _ (write r.c 1 r)))
  ]

  put_run-Emits : (r : Locals) → Emits (fetched case_4 ds.tt a r) r (put_run loop ds a r)
  unfolding put_run unrle
  put_run-Emits r = elim (Bool-cases (ltb r.m r.c)) [
    | inl small ↦
        rw (small, count-split r.m r.c r.d (walk ds.tt r.p a) (ground arith))
          (Emits-write _ r r.d r.m _ (omega arith)
            (suspend-Emits ds a case_4 (record (write r.d r.m r) { c = r.c - r.m }) (omega arith)))
    | inr enough ↦
        rw (enough, ap (prepend (replicate r.c r.d)) (unrle-no_run r.c r.d (walk ds.tt r.p a)))
          (Emits-write _ r r.d r.c _ (ground arith) (meets case_5 (write r.d r.c r)))
  ]

  enter-Emits : (at : Case) (r : Locals) → Emits (fetched at ds.tt a r) r (enter loop ds a at r)
  unfolding enter unrle
  enter-Emits case_1 r = put-Emits case_1 case_2 one r Follows-one refl
  enter-Emits case_2 r = put-Emits case_2 case_3 two r Follows-two refl
  enter-Emits case_3 r = put-Emits case_3 case_4 three r Follows-three refl
  enter-Emits case_4 r = put_run-Emits r
  enter-Emits case_5 r = put-Emits case_5 case_1 no_run r Follows-no_run (
      ap (λ k. prepend (r.c ∷ []) (unrle k r.c (walk ds.tt r.p a)))
        (sym (grow-no_run (r.c == r.d))))

emit_loop-Emits : (ds : DecoderState) (a : ℕ) → Meets ds a (emit_loop ds a)
unfolding emit_loop
emit_loop-Emits ds zero at r = out_of_bytes-Emits ds at r
emit_loop-Emits ds (suc a) at r = rw (take_byte-fetched at ds.tt a r) (
    take_byte-Emits ds at _ r _
      (enter-Emits ds a (emit_loop ds a) (emit_loop-Emits ds a) at (take_byte at ds.tt r)))

enter_first :
    (ds : DecoderState) (n : ℕ) (at : Case)
    → Emits
        (fetched at ds.tt ds.rle_avail (load ds n))
        (load ds n)
        (enter (emit_loop ds ds.rle_avail) ds ds.rle_avail at (load ds n))
enter_first ds n at =
    enter-Emits ds ds.rle_avail (emit_loop ds ds.rle_avail) (emit_loop-Emits ds ds.rle_avail) at
      (load ds n)

resume-Emits :
    (ds : DecoderState) (n state : ℕ)
    → state ≤ 5
    → Emits (text_at (case_of state) ds) (load ds n) (resume state ds ds.rle_avail (load ds n))
unfolding resume
resume-Emits ds n zero h = emit_loop-Emits ds ds.rle_avail case_5 (load ds n)
resume-Emits ds n (suc zero) h = enter_first ds n case_1
resume-Emits ds n (suc (suc zero)) h = enter_first ds n case_2
resume-Emits ds n (suc (suc (suc zero))) h = enter_first ds n case_3
resume-Emits ds n (suc (suc (suc (suc zero)))) h = enter_first ds n case_4
resume-Emits ds n (suc (suc (suc (suc (suc zero))))) h = enter_first ds n case_5
resume-Emits ds n (suc (suc (suc (suc (suc (suc state)))))) h = absurd (omega arith)

-- In a state in which a call may start, emit() returns OK after it has written all of the text to
-- come, MORE after it has filled the room with a first part of it, where the state it leaves has
-- the rest to come and may start a call again, or ERR_RUNLEN where the count of the last run is
-- missing. The room that is left, and the checksum of the block, are those of what it has written.
pub emit_writes : (ds : DecoderState) (n : ℕ) → IsValid ds → Emits (text ds) (load ds n) (emit ds n)
unfolding emit text
emit_writes ds n valid = resume-Emits ds n ds.rle_state valid
