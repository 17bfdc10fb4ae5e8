-- ===== src/Parser/Resume.antt =====
-- src/parse.c, parse(): a call that asks for more input, and the call that goes on.
use native.Mathlib.Nat.{zero-add}
use lbzip.Shared.{
  ℕ, zero, suc, ◌+◌, ◌≡◌, ◌≢◌, refl, sym, ap, ap₂, ◌∙◌, Bool, true, List, [], ◌∷◌, ◌++◌, arith, leb,
  Bool-cases, inl, inr, length, ◌*◌, subst,
}
use lbzip.Common.{Code, ok, more, finish}
use lbzip.Bitstream.{Bitstream, refill, bits_need, bits_peek, bits_dump, bits_align}
use lbzip.Bitstream.View.{IsValid, AllWords, AllWords-append, change_words-IsValid}
use lbzip.Parser.{
  State, stream_magic_1, eos_crc_2, Parse, Round, continue, return, abort, parse_word, Outcome,
  returned, aborted, out_of_fuel, end_round, round, leave, at_eof, parse_loop, parse,
}
use lbzip.Parser.Total.{Ends, ready, parse-Ends}
use Prim.Native.Nat.add

-- More words have arrived, and perhaps the end of the input is now known.
abbrev pub extend : List ℕ → Bool → Bitstream → Bitstream
extend ws e b = record b { words = b.words ++ ws; eof = e }

abbrev pub extend_parse : List ℕ → Bool → Parse → Parse
extend_parse ws e p = record p { bs = extend ws e p.bs }

abbrev extend_round : List ℕ → Bool → Round → Round
extend_round ws e (continue q) = continue (extend_parse ws e q)
extend_round ws e (return c q) = return c (extend_parse ws e q)
extend_round ws e abort = abort

-- What a call of `bits_need` does, whatever comes later.
data Need (b : Bitstream) (ws : List ℕ) (e : Bool)
    : Code × Bitstream → Code × Bitstream → Type 0 where
  got : (b' : Bitstream) → Need b ws e (ok, b') (ok, extend ws e b')
  ended : {c : Code} {r : Code × Bitstream} → c ≡ finish → Need b ws e (c, b) r
  wants : {c : Code} {r : Code × Bitstream} → c ≡ more → Need b ws e (c, b) r

refill-Need :
    (vs : List ℕ) (b : Bitstream) (ws : List ℕ) (e : Bool)
    → b.words ≡ vs
    → Need b ws e (refill vs b) (refill (vs ++ ws) (extend ws e b))
unfolding refill
refill-Need [] b ws e h = elim (Bool-cases b.eof) [
  | inl t ↦ ended (simp t)
  | inr t ↦ wants (simp t)
]
refill-Need (v ∷ vs) b ws e h = got (refill (v ∷ vs) b).1

bits_need-Need :
    (b : Bitstream) (n : ℕ) (ws : List ℕ) (e : Bool)
    → Need b ws e (bits_need b n) (bits_need (extend ws e b) n)
unfolding bits_need
bits_need-Need b n ws e = elim (Bool-cases (leb n b.live)) [
  | inl t ↦ rw t (got b)
  | inr t ↦ rw t (refill-Need b.words b ws e refl)
]

parse_word-extend :
    (s : State) (w : ℕ) (p : Parse) (ws : List ℕ) (e : Bool)
    → parse_word s w (extend_parse ws e p) ≡ extend_round ws e (parse_word s w p)
unfolding parse_word bits_align
parse_word-extend eos_crc_2 w p ws e = ground arith
parse_word-extend s w p ws e = ground arith

returned-injective : {c d : Code} {p q : Parse} → returned c p ≡ returned d q → p ≡ q
returned-injective h = cc

not-more : (s : State) (w : ℕ) (p q : Parse) → parse_word s w p ≢ return more q
unfolding parse_word
not-more eos_crc_2 w p q h = ground arith
not-more s w p q h = ground arith

at_eof-not-more : (s : State) (p q : Parse) → at_eof s p ≢ returned more q
unfolding at_eof
at_eof-not-more stream_magic_1 p q h = cc
at_eof-not-more s p q h = cc

-- The rounds of a call that asks for more are made as well when more is there.
abbrev Follows : List ℕ → Bool → Parse → Parse → Type 0
Follows ws e p q =
    (n : ℕ) × ((g : ℕ)
      → parse_loop (n + g) (extend_parse ws e p) ≡ parse_loop g (extend_parse ws e q))

abbrev Simulates : ℕ → Type 0
Simulates f =
    (p q : Parse) (ws : List ℕ) (e : Bool) → parse_loop f p ≡ returned more q → Follows ws e p q

module _ (f : ℕ) (ih : Simulates f) (p q : Parse) (ws : List ℕ) (e : Bool) where
  word-Follows :
      (r : Round) (s : State) (w : ℕ) (p1 : Parse)
      → parse_word s w p1 ≡ r
      → end_round (parse_loop f) r ≡ returned more q
      → (n : ℕ) × ((g : ℕ)
          → end_round (parse_loop (n + g)) (extend_round ws e r)
            ≡ parse_loop g (extend_parse ws e q))
  word-Follows (continue q1) s w p1 h k = ih q1 q ws e k
  word-Follows (return c q1) s w p1 h k =
      let coded : c ≡ more = cc in absurd (not-more s w p1 q1 (rw coded at h))
  word-Follows abort s w p1 h k = cc

  round-Follows :
      {r r' : Code × Bitstream}
      → Need p.bs ws e r r'
      → bits_need p.bs 16 ≡ r
      → bits_need (extend ws e p.bs) 16 ≡ r'
      → round (parse_loop f) r p ≡ returned more q
      → Follows ws e p q
  unfolding round parse_loop bits_peek bits_dump
  round-Follows (got b) h k run =
      let p1 = record p { bs = bits_dump b 16 } in
      let w = bits_peek b 16 in
      let (n, same) = word-Follows (parse_word p.ps.state w p1) p.ps.state w p1 refl run in
      (
        suc n,
        λ g.
            ap (λ (m : ℕ). parse_loop m (extend_parse ws e p)) (add.suc n g)
            ∙ ap (λ (x : Code × Bitstream). round (parse_loop (n + g)) x (extend_parse ws e p)) k
            ∙ ap (end_round (parse_loop (n + g))) (parse_word-extend p.ps.state w p1 ws e)
            ∙ same g,
      )
  round-Follows (ended {c = d} c) h k run =
      let same : (d, p.bs) ≡ (finish, p.bs) = ap (λ (x : Code). (x, p.bs)) c in
      let left : leave (finish, p.bs) p ≡ returned more q =
        ap (λ (x : Code × Bitstream). leave x p) (sym (h ∙ same))
        ∙ ap (λ (x : Code × Bitstream). round (parse_loop f) x p) (sym same)
        ∙ run in
      absurd (at_eof-not-more p.ps.state p q left)
  round-Follows (wants {c = d} c) h k run =
      let same : (d, p.bs) ≡ (more, p.bs) = ap (λ (x : Code). (x, p.bs)) c in
      let left : leave (more, p.bs) p ≡ returned more q =
        ap (λ (x : Code × Bitstream). leave x p) (sym (h ∙ same))
        ∙ ap (λ (x : Code × Bitstream). round (parse_loop f) x p) (sym same)
        ∙ run in
      let stopped : p ≡ q = returned-injective left in
      (0, λ g. ap₂ (λ (m : ℕ) (x : Parse). parse_loop m (extend_parse ws e x)) (zero-add g) stopped)

simulate : (f : ℕ) → Simulates f
unfolding parse_loop
simulate zero p q ws e run = cc
simulate (suc f) p q ws e run =
    round-Follows f (simulate f) p q ws e (bits_need-Need p.bs 16 ws e) refl refl run

-- More fuel makes no difference to a call that returns.
end_round-more :
    (f k : ℕ) (r : Round) (c : Code) (q : Parse)
    → ((p : Parse) → parse_loop f p ≡ returned c q → parse_loop (f + k) p ≡ returned c q)
    → end_round (parse_loop f) r ≡ returned c q
    → end_round (parse_loop (f + k)) r ≡ returned c q
end_round-more f k (continue p) c q ih h = ih p h
end_round-more f k (return d p) c q ih h = h
end_round-more f k abort c q ih h = h

round-more :
    (f k : ℕ) (r : Code × Bitstream) (p : Parse) (c : Code) (q : Parse)
    → ((p : Parse) → parse_loop f p ≡ returned c q → parse_loop (f + k) p ≡ returned c q)
    → round (parse_loop f) r p ≡ returned c q
    → round (parse_loop (f + k)) r p ≡ returned c q
unfolding round
round-more f k (ok, b) p c q ih h = end_round-more f k _ c q ih h
round-more f k (d, b) p c q ih h = h

parse_loop-more :
    (f k : ℕ) (p : Parse) (c : Code) (q : Parse)
    → parse_loop f p ≡ returned c q
    → parse_loop (f + k) p ≡ returned c q
unfolding parse_loop
parse_loop-more zero k p c q h = cc
parse_loop-more (suc f) k p c q h =
    ap (λ (m : ℕ). parse_loop m p) (add.suc f k)
    ∙ round-more f k (bits_need p.bs 16) p c q (λ x. parse_loop-more f k x c q) h

returned-some : (o : Outcome) → Ends o → (c : Code) × (q : Parse) × (o ≡ returned c q)
returned-some (returned c q) h = (c, q, refl)
returned-some aborted h = absurd h
returned-some out_of_fuel h = absurd h

extend-IsValid :
    (ws : List ℕ) (e : Bool) (b : Bitstream) → AllWords ws → IsValid b → IsValid (extend ws e b)
extend-IsValid ws e b fit v =
    change_words-IsValid b (b.words ++ ws) e v (AllWords-append b.words ws v.words fit)

abbrev fuel : Parse → ℕ
fuel p = p.bs.live + 32 * length p.bs.words + 1

-- Suspension is transparent: if a call asks for more input, then the call that goes on with the
-- input extended by the words `ws` ends as one call on the whole input would.
pub parse-resume :
    (p q : Parse) (ws : List ℕ) (e : Bool)
    → IsValid p.bs
    → ready p.ps.stream_mode p.ps.state ≡ true
    → AllWords ws
    → parse p ≡ returned more q
    → parse (extend_parse ws e q) ≡ parse (extend_parse ws e p)
unfolding parse
parse-resume p q ws e v h fit run =
    let kept = subst Ends run (parse-Ends p v h) in
    let (n, follow) = simulate (fuel p) p q ws e run in
    let p' = extend_parse ws e p in
    let q' = extend_parse ws e q in
    let (c, r, rest) =
      returned-some (parse q') (parse-Ends q' (extend-IsValid ws e q.bs fit kept.1) kept.0.2) in
    let (d, s, whole) =
      returned-some (parse p') (parse-Ends p' (extend-IsValid ws e p.bs fit v) h) in
    rest
    ∙ sym (parse_loop-more (fuel q') (fuel p') q' c r rest)
    ∙ sym (follow (fuel q' + fuel p'))
    ∙ ap (λ (m : ℕ). parse_loop m p') (omega arith)
    ∙ parse_loop-more (fuel p') (n + fuel q') p' d s whole
    ∙ sym whole
