-- ===== src/Scan/Correct.antt =====
-- src/parse.c, scan(): the scanner finds the first magic number.
use Prim.Native.Nat.add
use native.Mathlib.Nat.{zero-add}
use lbzip.Shared.{
  ℕ, zero, suc, ◌+◌, ◌-◌, ◌*◌, ◌/◌, ◌<◌, ◌≡◌, refl, sym, ap, subst, ◌∙◌, List, [], ◌∷◌, ◌++◌, arith,
  ◌==◌, if◌then◌else◌, drop, ltb, Bool-cases, inl, inr,
}
use lbzip.Shared.BitList.{bits, all_bits, length-bits}
use lbzip.Bitstream.{Bitstream, bits_need, bits_peek, bits_dump}
use lbzip.Bitstream.View.{IsValid, AllWords, top, view, bits_dump-view, change_words-IsValid}
use lbzip.Bitstream.Read.{length-view, bits_need-enough}
use lbzip.Scan.{Scanned, stop, dry, scan_bits, then_words, scan_words, skip_bits, scan, word_step}
use lbzip.Scan.Tables.{accept}
use lbzip.Scan.Buffer.{
  drop-append, drop-nil, nil_of_length, expected, Meets, ScansBits, scan_bits-ScansBits,
}
use lbzip.Scan.Automaton.{Tracks, Tracks-start}
use lbzip.Scan.Search.{find_magic, run-Tracks, word_step-run, AllBits-bits, push}

view-empty : (b : Bitstream) → b.live ≡ 0 → view b ≡ all_bits 32 b.words
unfolding view bits
view-empty b e = ap (λ (n : ℕ). bits n (top b) ++ all_bits 32 b.words) e

-- The word that is put back into the buffer.
load-words :
    (b : Bitstream) (w : ℕ) (ws : List ℕ)
    → b.live ≡ 0
    → (bits_need (record b { words = w ∷ ws }) 1).1.words ≡ ws
unfolding bits_need
load-words b w ws e = ground arith

abbrev ScansWords : List ℕ → Type 0
ScansWords ws =
    (s : ℕ) (b : Bitstream) (h : List ℕ)
    → IsValid b
    → b.live ≡ 0
    → AllWords ws
    → Tracks s h
    → s < 48
    → Meets (scan_words ws s b) (expected (find_magic h (all_bits 32 ws)))

-- The bits of the buffer, and then the words.
then_words-Meets :
    (r : Scanned) (ws : List ℕ) (b : Bitstream) (h : List ℕ)
    → ScansWords ws
    → AllWords ws
    → b.words ≡ ws
    → ScansBits r b h
    → Meets (then_words (scan_words ws) r) (expected (find_magic h (view b)))
then_words-Meets (stop r) ws b h ih fit e m = m
then_words-Meets (dry s b') ws b h ih fit e d =
    let same : find_magic h (view b) ≡ find_magic d.seen (all_bits 32 ws) =
      d.same ∙ ap (find_magic d.seen) (view-empty b' d.empty ∙ ap (all_bits 32) (d.words ∙ e)) in
    rw same (ih s b' d.seen d.valid d.empty fit d.tracks d.part)

scan_words-Meets : (ws : List ℕ) → ScansWords ws
unfolding scan_words find_magic all_bits
scan_words-Meets [] s b h v e fit t part = (
  refl,
  nil_of_length (view (record b { words = [] }))
      (omega (arith, length-view (record b { words = [] }))),
  change_words-IsValid b [] b.eof v tt,
)
scan_words-Meets (w ∷ ws) s b h v e fit t part = elim (Bool-cases (word_step s w == accept)) [
  | inl full ↦
      let b0 = record b { words = w ∷ ws } in
      let whole = view-empty b0 e in
      let load =
        bits_need-enough b0 1 (change_words-IsValid b (w ∷ ws) b.eof v fit) (omega arith)
          (omega (arith, length-view b0)) in
      let b1 = (bits_need b0 1).1 in
      rw (full, sym (load.same ∙ whole))
        (then_words-Meets (scan_bits b1.live s b1) ws b1 h (scan_words-Meets ws) fit.1
          (load-words b w ws e) (scan_bits-ScansBits b1.live s b1 h refl load.valid t part))
  | inr on ↦
      let steps = word_step-run s w (omega arith) fit.0 in
      let (tracks, below, same) =
        run-Tracks (bits 32 w) s h (AllBits-bits 32 w) t part (ground (arith, steps)) in
      rw (on, same (all_bits 32 ws))
        (scan_words-Meets ws (word_step s w) b (push (bits 32 w) h) v e fit.1
          (subst (λ (k : ℕ). Tracks k (push (bits 32 w) h)) (sym steps) tracks) (omega arith))
]

drop-drop : (a b : ℕ) (xs : List ℕ) → drop (a + b) xs ≡ drop b (drop a xs)
drop-drop zero b xs = ap (λ (n : ℕ). drop n xs) (zero-add b)
drop-drop (suc a) b [] = ap (λ (n : ℕ). drop n []) (add.suc a b) ∙ sym (drop-nil b)
drop-drop (suc a) b (x ∷ xs) = ap (λ (n : ℕ). drop n (x ∷ xs)) (add.suc a b) ∙ drop-drop a b xs

drop-all_bits : (n : ℕ) (ws : List ℕ) → all_bits 32 (drop n ws) ≡ drop (n * 32) (all_bits 32 ws)
unfolding all_bits
drop-all_bits zero ws = refl
drop-all_bits (suc n) [] = sym (drop-nil (suc n * 32))
drop-all_bits (suc n) (w ∷ ws) =
    drop-all_bits n ws
    ∙ ap (drop (n * 32)) (sym (drop-append (bits 32 w) (all_bits 32 ws) 32 (length-bits 32 w)))
    ∙ sym (drop-drop 32 (n * 32) (bits 32 w ++ all_bits 32 ws))
    ∙ ap (λ (k : ℕ). drop k (bits 32 w ++ all_bits 32 ws)) (omega arith)

AllWords-drop : (n : ℕ) (ws : List ℕ) → AllWords ws → AllWords (drop n ws)
AllWords-drop zero ws h = h
AllWords-drop (suc n) [] h = h
AllWords-drop (suc n) (w ∷ ws) h = AllWords-drop n ws h.1

-- How many bits scan() passes over before it searches: none where the buffer holds as many as are to
-- be skipped, and else all of the buffer and the words that cover the others.
abbrev pub skipped : Bitstream → ℕ → ℕ
skipped b skip = if ltb b.live skip then b.live + (skip - b.live + 31) / 32 * 32 else 0

skip_bits-view :
    (b : Bitstream) (skip : ℕ)
    → IsValid b
    → IsValid (skip_bits b skip) × (view (skip_bits b skip) ≡ drop (skipped b skip) (view b))
unfolding skip_bits
skip_bits-view b skip v = elim (Bool-cases (ltb b.live skip)) [
  | inr few ↦ rw few (v, refl)
  | inl past ↦
      let (split, _, valid, empty) = bits_dump-view b b.live v (omega arith) in
      let n = (skip - b.live + 31) / 32 in
      let b1 = bits_dump b b.live in
      let none_left : b1.live ≡ 0 = omega (arith, empty) in
      let x = bits_peek b b.live in
      rw past (
        change_words-IsValid b1 (drop n b.words) b.eof valid (AllWords-drop n b.words v.words),
        view-empty (record b1 { words = drop n b.words }) none_left
            ∙ drop-all_bits n b.words
            ∙ ap (drop (n * 32)) (
                sym (view-empty b1 none_left)
                ∙ sym (drop-append (bits b.live x) (view b1) b.live (length-bits b.live x))
                ∙ ap (drop b.live) (sym split))
            ∙ sym (drop-drop b.live (n * 32) (view b)),
      )
]

-- On a valid reader scan() returns OK exactly when the magic number of a block occurs in the bits to
-- come, after those that it skips, and 32 bits follow its first occurrence; it then leaves the bits
-- behind these 32. Otherwise it returns MORE and leaves no bits.
pub scan_finds :
    (b : Bitstream) (skip : ℕ)
    → IsValid b
    → Meets (scan b skip) (expected (find_magic [] (drop (skipped b skip) (view b))))
unfolding scan
scan_finds b skip v =
    let (valid, same) = skip_bits-view b skip v in
    let b1 = skip_bits b skip in
    rw (← same) (
      from_bits (scan_bits b1.live 0 b1) b1
        (scan_bits-ScansBits b1.live 0 b1 [] refl valid Tracks-start (omega arith)))
  where
    from_bits :
        (r : Scanned) (b1 : Bitstream)
        → ScansBits r b1 []
        → Meets
            (then_words (λ state x. scan_words x.words state x) r)
            (expected (find_magic [] (view b1)))
    from_bits (stop r) b1 m = m
    from_bits (dry s b2) b1 d = rw d.same (
        rw (view-empty b2 d.empty)
          (scan_words-Meets b2.words s b2 d.seen d.valid d.empty d.valid.words d.tracks d.part))
