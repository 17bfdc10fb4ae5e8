-- ===== src/Parser/Total.antt =====
-- A call of parse() ends, and how.
use native.Mathlib.Decide.{dec_lt}
use lbzip.Shared.{
  ℕ, zero, suc, ◌+◌, ◌*◌, ◌%◌, ◌≤◌, ◌<◌, ◌≡◌, ◌≢◌, refl, ap, ◌∙◌, Bool, if◌then◌else◌, Bool-cases,
  inl, inr, true, false, List, not, arith, length, length-append,
}
use lbzip.Shared.BitList.{bits, length-bits}
use lbzip.Common.{Code, ok, more, finish, err_header, err_strmcrc, err_eof, pos}
use lbzip.Bitstream.{Bitstream, bits_need, bits_peek, bits_align}
use lbzip.Bitstream.View.{IsValid, view}
use lbzip.Bitstream.Read.{
  length-view, HasRead, read_any, next_word, after_read, bits_need-short, bits_align-view,
}
use lbzip.Parser.{
  State, stream_magic_1, stream_magic_2, block_magic_1, eos_crc_2, accept, Parse, Round, continue,
  return, abort, stream_end, parse_word, Outcome, returned, aborted, out_of_fuel, at_eof, round,
  end_round, parse_loop, parse,
}

-- The states in which a call may start: with one stream only, no second one is looked for.
abbrev pub ready : Bool → State → Bool
ready mode accept = false
ready mode stream_magic_1 = not mode
ready mode stream_magic_2 = not mode
ready mode _ = true

-- What holds of a result, for each code.
abbrev pub Ending : Code → Parse → Type 0
Ending ok q = (q.ps.state ≡ block_magic_1) × (q.hd.bs100k ≡ pos q.ps.bs100k)
Ending finish q = q.ps.state ≡ accept
Ending more q =
    (q.bs.eof ≡ false) × (length (view q.bs) < 16) × (ready q.ps.stream_mode q.ps.state ≡ true)
Ending err_eof q = (q.bs.eof ≡ true) × (length (view q.bs) < 16)
Ending err_strmcrc q = q.ps.stored_crc ≢ q.ps.computed_crc
Ending err_header q = Unit
Ending _ q = ⊥

abbrev pub Ends : Outcome → Type 0
Ends (returned c q) = Ending c q × IsValid q.bs
Ends aborted = ⊥
Ends out_of_fuel = ⊥

abbrev RoundOk : Parse → Round → Type 0
RoundOk p (continue q) =
    IsValid q.bs
    × (length (view q.bs) ≤ length (view p.bs))
    × (q.bs.eof ≡ p.bs.eof)
    × (ready q.ps.stream_mode q.ps.state ≡ true)
RoundOk p (return c q) = Ending c q × IsValid q.bs
RoundOk p abort = ⊥

align-shorter : (bs : Bitstream) → IsValid bs → length (view (bits_align bs)) ≤ length (view bs)
align-shorter bs v =
    let (_, split, _) = bits_align-view bs v in
    rw split (
      omega (
        arith,
        length-append (bits (bs.live % 8) (bits_peek bs (bs.live % 8))) (view (bits_align bs)),
      ))

align-eof : (bs : Bitstream) → (bits_align bs).eof ≡ bs.eof
unfolding bits_align
align-eof bs = refl

stream_end-RoundOk : (w : ℕ) (p : Parse) → IsValid p.bs → RoundOk p (stream_end w p)
unfolding stream_end
stream_end-RoundOk w p v =
    ground (arith, (bits_align-view p.bs v).0, align-shorter p.bs v, align-eof p.bs)

parse_word-RoundOk :
    (s : State) (w : ℕ) (p : Parse)
    → IsValid p.bs
    → ready p.ps.stream_mode s ≡ true
    → RoundOk p (parse_word s w p)
unfolding parse_word
parse_word-RoundOk eos_crc_2 w p v h = stream_end-RoundOk w p v
parse_word-RoundOk s w p v h = ground arith

-- The result when fewer than 16 bits are left.
pub parse_loop-short :
    (f : ℕ) (p : Parse)
    → length (view p.bs) < 16
    → parse_loop (suc f) p ≡ (if p.bs.eof then at_eof p.ps.state p else returned more p)
unfolding parse_loop
parse_loop-short f p few = elim (Bool-cases p.bs.eof) [
  | inl e ↦ simp (short, e)
  | inr e ↦ simp (short, e)
]
  where
    short : bits_need p.bs 16 ≡ (if p.bs.eof then finish else more, p.bs)
    short = bits_need-short p.bs 16 few (omega arith)

at_eof-Ends :
    (s : State) (p : Parse)
    → IsValid p.bs
    → p.bs.eof ≡ true
    → length (view p.bs) < 16
    → Ends (at_eof s p)
unfolding at_eof
at_eof-Ends stream_magic_1 p v e few = (refl, v)
at_eof-Ends stream_magic_2 p v e few = (refl, v)
at_eof-Ends s p v e few = ((e, few), v)

short-Ends :
    (f : ℕ) (p : Parse)
    → IsValid p.bs
    → ready p.ps.stream_mode p.ps.state ≡ true
    → length (view p.bs) < 16
    → Ends (parse_loop (suc f) p)
short-Ends f p v h few = rw (parse_loop-short f p few) (elim (Bool-cases p.bs.eof) [
  | inl e ↦ simp e (at_eof-Ends p.ps.state p v e few)
  | inr e ↦ simp e ((refl, few, h), v)
])

-- One round, when a word can be read.
pub parse_loop-read :
    (f : ℕ) (p : Parse) (w : ℕ) (rest : List ℕ)
    → HasRead p.bs 16 w rest
    → parse_loop (suc f) p
      ≡ end_round (parse_loop f) (parse_word p.ps.state w (record p { bs = after_read p.bs 16 }))
unfolding parse_loop
parse_loop-read f p w rest r =
    ap (λ (c : Code). round (parse_loop f) (c, (bits_need p.bs 16).1) p) r.code
    ∙ ap
        (λ (x : ℕ).
          end_round (parse_loop f) (parse_word p.ps.state x (record p { bs = after_read p.bs 16 })))
        r.word

abbrev Total : ℕ → Type 0
Total f =
    (p : Parse)
    → IsValid p.bs
    → ready p.ps.stream_mode p.ps.state ≡ true
    → length (view p.bs) < f
    → Ends (parse_loop f p)

end_round-Ends :
    (f : ℕ) (p : Parse) (r : Round)
    → Total f
    → RoundOk p r
    → length (view p.bs) < f
    → Ends (end_round (parse_loop f) r)
end_round-Ends f p (continue q) ih h less = ih q h.0 h.3 (omega arith)
end_round-Ends f p (return c q) ih h less = h
end_round-Ends f p abort ih h less = h

-- With more fuel than there are bits to come the loop ends.
parse_loop-Ends : (f : ℕ) → Total f
parse_loop-Ends zero p v h less = absurd (omega arith)
parse_loop-Ends (suc f) p v h less = elim (dec_lt (length (view p.bs)) 16) [
  | yes few ↦ short-Ends f p v h few
  | no enough ↦
      let (r, split, _) = read_any p.bs 16 v (omega arith) (omega arith) in
      let q = record p { bs = after_read p.bs 16 } in
      let shorter : length (view p.bs) ≡ 16 + length (view q.bs) =
        ap (λ (xs : List ℕ). length xs) split
        ∙ length-append (bits 16 (next_word p.bs 16)) (view q.bs)
        ∙ ap (λ (n : ℕ). n + length (view q.bs)) (length-bits 16 (next_word p.bs 16)) in
      rw (parse_loop-read f p (next_word p.bs 16) (view q.bs) r) (
        end_round-Ends f q (parse_word p.ps.state (next_word p.bs 16) q) (parse_loop-Ends f)
          (parse_word-RoundOk p.ps.state (next_word p.bs 16) q r.valid h) (omega arith))
]

-- A call of parse() on a valid reader, in a state in which a call may start, passes every assertion,
-- returns, and leaves the reader valid. The code is OK (at the header of a block), FINISH (in the
-- accepting state), MORE (fewer than 16 bits are left before the end of the input, in a state in which
-- the next call may start), ERR_EOF (fewer are left at the end), ERR_STRMCRC (the checksums
-- differ) or ERR_HEADER.
pub parse-Ends :
    (p : Parse) → IsValid p.bs → ready p.ps.stream_mode p.ps.state ≡ true → Ends (parse p)
unfolding parse
parse-Ends p v h =
    parse_loop-Ends (p.bs.live + 32 * length p.bs.words + 1) p v h (omega (arith, length-view p.bs))
