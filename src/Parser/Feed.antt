-- ===== src/Parser/Feed.antt =====
-- src/parse.c, parse(): several words in a row.
use lbzip.Shared.{
  ℕ, suc, ◌+◌, ◌^◌, ◌<◌, ◌≡◌, refl, ap, ap₂, ◌∙◌, List, ◌++◌, arith, length, Option, none, some, [],
  ◌∷◌, append_assoc, append-nil,
}
use mathlib.Core.Option
use Prim.Native.Nat.add
use lbzip.Shared.BitList.{bits, all_bits, all_bits-append}
use lbzip.Bitstream.{Bitstream}
use lbzip.Bitstream.View.{IsValid, view}
use lbzip.Bitstream.Read.{read_bits, after_read}
use lbzip.Parser.{State, eos_crc_2, Parse, Round, continue, parse_word, end_round, parse_loop}
use lbzip.Parser.Total.{parse_loop-read}

abbrev pub with_bs : Bitstream → Parse → Parse
with_bs b p = record p { bs = b }

-- The automaton alone, as long as it goes on without touching the reader.
abbrev go_on : Round → Option Parse
go_on (continue q) = some q
go_on _ = none

advance : State → ℕ → Parse → Option Parse
unfolding parse_word
advance eos_crc_2 w p = none
advance s w p = go_on (parse_word s w p)

bind-some :
    {A B : Type 0} (m : Option A) (k : A → Option B) {c : B}
    → Option.bind m k ≡ some c
    → (a : A) × (m ≡ some a) × (k a ≡ some c)
unfolding Option.bind
bind-some none k h = cc
bind-some (some a) k h = (a, refl, h)

unfoldable pub feed : List ℕ → Parse → Option Parse
unfolding advance parse_word
feed [] p = some p
feed (w ∷ ws) p = Option.bind (advance p.ps.state w p) (feed ws)

advance-continue :
    (s : State) (w : ℕ) (p q : Parse) (b : Bitstream)
    → advance s w p ≡ some q
    → parse_word s w (with_bs b p) ≡ continue (with_bs b q)
unfolding advance
advance-continue eos_crc_2 w p q b h = cc
advance-continue s w p q b h = ground arith

abbrev pub All16 : List ℕ → Type 0
All16 [] = Unit
All16 (w ∷ ws) = (w < 2 ^ 16) × All16 ws

-- Where the parser stands after the words `ws`, with the bits `rest` to come.
pub record Fed (ws : List ℕ) (start : Bitstream) (p q : Parse) (rest : List ℕ) : Type 0 where
  pub reader : Bitstream
  pub valid : IsValid reader
  pub left : view reader ≡ rest
  pub steps :
      (f : ℕ) → parse_loop (length ws + f) (with_bs start p) ≡ parse_loop f (with_bs reader q)

pub feed-Fed :
    (ws : List ℕ) (b : Bitstream) (p q : Parse) (rest : List ℕ)
    → All16 ws
    → IsValid b
    → view b ≡ all_bits 16 ws ++ rest
    → feed ws p ≡ some q
    → Fed ws b p q rest
unfolding feed all_bits
feed-Fed [] b p q rest fit v e h = record {
  reader = b;
  valid = v;
  left = e;
  steps = λ f.
      let same : p ≡ q = cc in
      ap₂ (λ (n : ℕ) (x : Parse). parse_loop n (with_bs b x)) (omega arith) same;
}
feed-Fed (w ∷ ws) b p q rest fit v e h =
    let (q1, first, others) = bind-some (advance p.ps.state w p) (feed ws) h in
    let r =
      read_bits b 16 w (all_bits 16 ws ++ rest) v (omega arith) fit.0
        (e ∙ append_assoc (bits 16 w) (all_bits 16 ws) rest) in
    let tail = feed-Fed ws (after_read b 16) q1 q rest fit.1 r.valid r.left others in
    record {
      reader = tail.reader;
      valid = tail.valid;
      left = tail.left;
      steps = λ f.
          ap (λ (n : ℕ). parse_loop n (with_bs b p)) (add.suc (length ws) f)
          ∙ parse_loop-read (length ws + f) (with_bs b p) w (all_bits 16 ws ++ rest) r
          ∙ ap (end_round (parse_loop (length ws + f)))
              (advance-continue p.ps.state w p q1 (after_read b 16) first)
          ∙ tail.steps f;
    }

last_word :
    (ws : List ℕ) (w : ℕ) (rest : List ℕ)
    → all_bits 16 (ws ++ w ∷ []) ++ rest ≡ all_bits 16 ws ++ (bits 16 w ++ rest)
unfolding all_bits
last_word ws w rest =
    ap (λ (xs : List ℕ). xs ++ rest) (all_bits-append 16 ws (w ∷ []))
    ∙ append_assoc (all_bits 16 ws) (bits 16 w ++ []) rest
    ∙ ap (λ (xs : List ℕ). all_bits 16 ws ++ (xs ++ rest)) (append-nil (bits 16 w))

-- All words but the last are fed, and the last one is read.
pub record FedLast (b : Bitstream) (p q : Parse) (n w : ℕ) (rest : List ℕ) : Type 0 where
  pub reader : Bitstream
  pub valid : IsValid reader
  pub left : view reader ≡ rest
  pub steps :
      (f : ℕ)
      → parse_loop (n + suc f) (with_bs b p)
        ≡ end_round (parse_loop f) (parse_word q.ps.state w (with_bs reader q))

pub feed_last :
    (ws : List ℕ) (w : ℕ) (b : Bitstream) (p q : Parse) (rest : List ℕ)
    → All16 ws
    → w < 2 ^ 16
    → IsValid b
    → view b ≡ all_bits 16 (ws ++ w ∷ []) ++ rest
    → feed ws p ≡ some q
    → FedLast b p q (length ws) w rest
feed_last ws w b p q rest fit fits v e h =
    let fed = feed-Fed ws b p q (bits 16 w ++ rest) fit v (e ∙ last_word ws w rest) h in
    let r = read_bits fed.reader 16 w rest fed.valid (omega arith) fits fed.left in
    record {
      reader = after_read fed.reader 16;
      valid = r.valid;
      left = r.left;
      steps = λ f. fed.steps (suc f) ∙ parse_loop-read f (with_bs fed.reader q) w rest r;
    }
