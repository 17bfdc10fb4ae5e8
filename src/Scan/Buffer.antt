-- ===== src/Scan/Buffer.antt =====
-- src/parse.c, scan(): the loop over the bits of the buffer.
use native.Mathlib.Decide.{dec_lt}
use lbzip.Shared.{
  ℕ, zero, suc, ◌<◌, ◌≡◌, ◌≢◌, refl, sym, ap, ◌∙◌, true, List, [], ◌∷◌, ◌++◌, Option, none, some,
  arith, ==→eq, ◌==◌, if◌then◌else◌, length, drop, leb, lt→leb, Bool-cases, inl, inr,
}
use lbzip.Shared.BitList.{bits, length-bits}
use lbzip.Common.{Code, ok, more, finish}
use lbzip.Bitstream.{Bitstream, bits_need, bits_peek, bits_dump, bits_consume}
use lbzip.Bitstream.View.{IsValid, view, bits_dump-view, change_words-IsValid}
use lbzip.Bitstream.Read.{length-view, read_any, next_word, after_read, bits_need-short}
use lbzip.Scan.{Scanned, stop, dry, accepted, scan_bits, mini_step}
use lbzip.Scan.Tables.{accept}
use lbzip.Scan.Automaton.{Tracks, mini_step-Tracks}
use lbzip.Scan.Search.{find_magic, find_magic-step, find_magic-accept}

pub drop-append : (xs ys : List ℕ) (n : ℕ) → length xs ≡ n → drop n (xs ++ ys) ≡ ys
drop-append [] ys zero e = refl
drop-append (x ∷ xs) ys zero e = absurd (omega arith)
drop-append [] ys (suc n) e = absurd (omega arith)
drop-append (x ∷ xs) ys (suc n) e = drop-append xs ys n (omega arith)

pub drop-nil : (n : ℕ) → drop {A = ℕ} n [] ≡ []
drop-nil zero = refl
drop-nil (suc n) = refl

-- What a scan should return, and the bits that it should leave: behind the magic number the 32 bits
-- of the checksum are skipped; if they are not all there, or there is no magic number, nothing is left.
abbrev pub expected : Option (List ℕ) → Code × List ℕ
expected none = (more, [])
expected (some rest) = if leb 32 (length rest) then (ok, drop 32 rest) else (more, [])

abbrev pub Meets : Code × Bitstream → Code × List ℕ → Type 0
Meets r x = (r.0 ≡ x.0) × (view r.1 ≡ x.1) × IsValid r.1

pub nil_of_length : (xs : List ℕ) → length xs ≡ 0 → xs ≡ []
nil_of_length [] e = refl
nil_of_length (x ∷ xs) e = absurd (omega arith)

consumed : (b : Bitstream) → IsValid b → (view (bits_consume b) ≡ []) × IsValid (bits_consume b)
unfolding bits_consume
consumed b v =
    let (_, _, valid, empty) = bits_dump-view b b.live v (omega arith) in
    (
      nil_of_length (view (bits_consume b)) (omega (arith, length-view (bits_consume b), empty)),
      change_words-IsValid (bits_dump b b.live) [] b.eof valid tt,
    )

accepted-other : (c : Code) (b : Bitstream) → c ≢ ok → accepted (c, b) ≡ (more, bits_consume b)
unfolding accepted
accepted-other ok b h = absurd (h refl)
accepted-other c b h = refl

accepted-Meets :
    (b : Bitstream) → IsValid b → Meets (accepted (bits_need b 32)) (expected (some (view b)))
unfolding accepted
accepted-Meets b v = elim (dec_lt (length (view b)) 32) [
  | yes few ↦
      let (gone, valid) = consumed b v in
      rw
        (
          bits_need-short b 32 few (omega arith),
          accepted-other (if b.eof then finish else more) b (ground arith),
          lt→leb (length (view b)) 32 few,
        )
        (refl, gone, valid)
  | no enough ↦
      let (r, split, _) = read_any b 32 v (omega arith) (omega arith) in
      let done : accepted (bits_need b 32) ≡ (ok, after_read b 32) =
        ap (λ (c : Code). accepted (c, (bits_need b 32).1)) r.code in
      let there : leb 32 (length (view b)) ≡ true = ground arith in
      rw (done, there)
        (
          refl,
          sym (
              ap (drop 32) split
              ∙ drop-append (bits 32 (next_word b 32)) (view (after_read b 32)) 32
                  (length-bits 32 (next_word b 32))),
          r.valid,
        )
]

one_bit : (x : ℕ) (xs : List ℕ) → x < 2 → bits 1 x ++ xs ≡ x ∷ xs
unfolding bits
one_bit x xs h = ap (λ (y : ℕ). y ∷ xs) (omega arith)

bits_dump-words : (b : Bitstream) (n : ℕ) → (bits_dump b n).words ≡ b.words
unfolding bits_dump
bits_dump-words b n = refl

-- What the loop over the bits leaves when it uses up the buffer.
pub record Dry (s : ℕ) (b' b : Bitstream) (h : List ℕ) : Type 0 where
  pub seen : List ℕ
  pub tracks : Tracks s seen
  pub part : s < 48
  pub valid : IsValid b'
  pub empty : b'.live ≡ 0
  pub words : b'.words ≡ b.words
  pub same : find_magic h (view b) ≡ find_magic seen (view b')

abbrev pub ScansBits : Scanned → Bitstream → List ℕ → Type 0
ScansBits (stop r) b h = Meets r (expected (find_magic h (view b)))
ScansBits (dry s b') b h = Dry s b' b h

-- The loop goes on from the reader `b1`, after the bits `h1`.
ScansBits-later :
    (r : Scanned) (b b1 : Bitstream) (h h1 : List ℕ)
    → find_magic h (view b) ≡ find_magic h1 (view b1)
    → b1.words ≡ b.words
    → ScansBits r b1 h1
    → ScansBits r b h
ScansBits-later (stop r) b b1 h h1 e w m = rw e m
ScansBits-later (dry s b') b b1 h h1 e w d = record {
  seen = d.seen;
  tracks = d.tracks;
  part = d.part;
  valid = d.valid;
  empty = d.empty;
  words = d.words ∙ w;
  same = e ∙ d.same;
}

pub scan_bits-ScansBits :
    (n s : ℕ) (b : Bitstream) (h : List ℕ)
    → b.live ≡ n
    → IsValid b
    → Tracks s h
    → s < 48
    → ScansBits (scan_bits n s b) b h
unfolding scan_bits
scan_bits-ScansBits zero s b h e v t part = record {
  seen = h;
  tracks = t;
  part = part;
  valid = v;
  empty = e;
  words = refl;
  same = refl;
}
scan_bits-ScansBits (suc n) s b h e v t part =
    let (split, small, valid, less) = bits_dump-view b 1 v (omega arith) in
    let x = bits_peek b 1 in
    let b1 = bits_dump b 1 in
    let first : view b ≡ x ∷ view b1 = split ∙ one_bit x (view b1) small in
    let next = mini_step-Tracks s x h part small t in
    elim (Bool-cases (mini_step s x == accept)) [
      | inl full ↦
          let found : find_magic h (view b) ≡ some (view b1) =
            ap (find_magic h) first
            ∙ find_magic-accept s x h (view b1) part small t (==→eq (mini_step s x) 48 full) in
          rw (full, found) (accepted-Meets b1 valid)
      | inr on ↦
          let same : find_magic h (view b) ≡ find_magic (x ∷ h) (view b1) =
            ap (find_magic h) first ∙ find_magic-step s x h (view b1) part small t (ground arith) in
          rw on (
            ScansBits-later (scan_bits n (mini_step s x) b1) b b1 h (x ∷ h) same
              (bits_dump-words b 1)
              (scan_bits-ScansBits n (mini_step s x) b1 (x ∷ h) (omega arith) valid next.0
                (ground (arith, next.1))))
    ]
