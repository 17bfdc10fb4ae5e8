-- ===== src/RoundTrip.antt =====
-- src/encode.c, collect() with src/decode.c, emit(): what the encoder collects the decoder emits.
mod Tests
use lbzip.Shared.{
  ℕ, ◌+◌, ◌-◌, ◌^◌, ◌≤◌, ◌<◌, List, [], ◌++◌, ◌≡◌, refl, sym, ap, subst, ◌∙◌, length, length-append,
  Option, none, some, arith, bit_xor,
}
use lbzip.Common.{ok, more, err_runlen}
use lbzip.Rle.{no_run, unrle, prepend}
use lbzip.Rle.Spells.{unrle-no_run}
use lbzip.Crc.{crc_bytes}
use lbzip.Collect.{EncoderState, collect, finalize}
use lbzip.Collect.Correct.{IsOpen}
use lbzip.Collect.Block.{Whole, finalize-collect}
use lbzip.Emit.{DecoderState, Emitted, emitted, failed, emit, load}
use lbzip.Emit.Steps.{walk, text, text_at, case_of, Owes}
use lbzip.Emit.Correct.{emit_writes}

abbrev content : Option (List ℕ) → List ℕ
content none = []
content (some xs) = xs

-- The call ends well: it has written `out`, and has the checksum `crc` for it.
pub record Returned (e : Emitted) (out : List ℕ) (n crc : ℕ) : Type 0 where
  pub left : ℕ
  pub ds : DecoderState
  pub result : e ≡ emitted ok out left ds
  pub room : left + length out ≡ n
  pub checksum : ds.crc ≡ bit_xor crc (2 ^ 32 - 1)

prepend_long :
    (xs : List ℕ) (o : Option (List ℕ)) (out : List ℕ)
    → some out ≡ prepend xs o
    → length xs ≤ length out
prepend_long xs none out h = absurd (cc)
prepend_long xs (some ys) out h = omega (arith, length-append xs ys, ap (λ o. length (content o)) h)

-- A call with room to spare comes to the end of a text.
Owes-all :
    (out : List ℕ) (s m : ℕ) (e : Emitted)
    → length out < m
    → Owes (some out) [] s m e
    → Returned e out m (crc_bytes s out)
unfolding Owes
Owes-all out s m (emitted ok b left ds) lt h =
    let same : out ≡ h.wrote = ap content h.all in
    record {
      left = left;
      ds = ds;
      result = ap (λ b. emitted ok b left ds) (h.output ∙ sym same);
      room = rw same h.room;
      checksum = rw same h.checksum;
    }
Owes-all out s m (emitted more b left ds) lt h =
    absurd (omega (arith, prepend_long h.wrote (text ds) out h.rest, h.room.1))
Owes-all out s m (failed err_runlen b) lt h = absurd (cc)
Owes-all out s m e lt h = absurd h

-- What the encoder collects the decoder emits: if the list that the decoder follows spells the
-- block that encode() makes after collect(), then emit(), with room to spare, returns OK, has
-- written just the input consumed for that block, and has the checksum that the encoder has.
pub emit-collect :
    (s : EncoderState) (inbuf done : List ℕ) (ds : DecoderState) (n : ℕ)
    → IsOpen s done
    → ds.rle_state ≡ 0
    → ds.rle_crc ≡ 2 ^ 32 - 1
    → walk ds.tt ds.rle_index ds.rle_avail ≡ (finalize (collect s inbuf).0).block
    → length done + length inbuf < n
    → (eaten : List ℕ) × ((inbuf ≡ eaten ++ (collect s inbuf).1.0)
        × Returned (emit ds n) (done ++ eaten) n (finalize (collect s inbuf).0).block_crc)
unfolding text
emit-collect s inbuf done ds n o fresh fresh_crc list room =
    let f = finalize-collect s inbuf done o in
    let out = done ++ f.0 in
    let all : text ds ≡ some out =
      ap (λ k. text_at (case_of k) ds) fresh
      ∙ unrle-no_run ds.rle_prev 0 (walk ds.tt ds.rle_index ds.rle_avail)
      ∙ ap (unrle no_run 0) list
      ∙ f.1.1.text in
    let e : Owes (some out) [] (2 ^ 32 - 1) n (emit ds n) =
      subst (λ o. Owes o [] (2 ^ 32 - 1) n (emit ds n)) all
        (subst (λ c. Owes (text ds) [] c n (emit ds n)) fresh_crc
          (emit_writes ds n (omega arith))) in
    (
      f.0,
      (
        f.1.0,
        subst (Returned (emit ds n) out n) (sym f.1.1.checksum) (
            Owes-all out (2 ^ 32 - 1) n (emit ds n)
              (omega (
                arith,
                length-append done f.0,
                length-append f.0 (collect s inbuf).1.0,
                ap length f.1.0,
              ))
              e),
      ),
    )
