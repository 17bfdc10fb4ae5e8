-- ===== src/Scan/Search.antt =====
-- src/parse.c, scan(): the search as a search in a list of bits, and the tables against it.
use native.Mathlib.Decide.{dec_lt}
use lbzip.Shared.{
  ℕ, zero, suc, ◌/◌, ◌%◌, ◌^◌, ◌≤◌, ◌<◌, ◌≡◌, ◌≢◌, refl, sym, ap, subst, ◌∙◌, true, false, List, [],
  ◌∷◌, ◌++◌, Option, none, some, arith, ==→eq, ◌==◌, Bool-cases, inl, inr, if◌then◌else◌,
}
use lbzip.Shared.BitList.{bits, bits-join}
use lbzip.Shared.Table.{holds_below, holds_below_at}
use lbzip.Scan.{mini_step, big_step, word_step}
use lbzip.Scan.Automaton.{
  pattern_rev, starts_with, Tracks, Tracks-accept, mini_step-Tracks, mini_step-le,
}

-- The bits `xs`, after those of `h`.
abbrev pub push : List ℕ → List ℕ → List ℕ
push [] h = h
push (x ∷ xs) h = push xs (x ∷ h)

-- What stands behind the first occurrence of the magic number, in the bits `xs` that follow `h`.
unfoldable pub find_magic : List ℕ → List ℕ → Option (List ℕ)
find_magic h [] = none
find_magic h (x ∷ xs) =
    let rest = find_magic (x ∷ h) xs in
    if starts_with (pattern_rev 48) (x ∷ h) then some xs else rest

-- several steps, up to the accepting state
unfoldable pub run : ℕ → List ℕ → ℕ
run s [] = s
run s (x ∷ xs) = if s == 48 then 48 else run (mini_step s x) xs

abbrev pub AllBits : List ℕ → Type 0
AllBits [] = Unit
AllBits (x ∷ xs) = (x < 2) × AllBits xs

run-accept : (xs : List ℕ) → run 48 xs ≡ 48
unfolding run
run-accept [] = refl
run-accept (x ∷ xs) = refl

pub run-step : (s x : ℕ) (xs : List ℕ) → s < 48 → run s (x ∷ xs) ≡ run (mini_step s x) xs
unfolding run
run-step s x xs lt = ground arith

-- One bit that does not complete the magic number.
pub find_magic-step :
    (s x : ℕ) (h xs : List ℕ)
    → s < 48
    → x < 2
    → Tracks s h
    → mini_step s x ≢ 48
    → find_magic h (x ∷ xs) ≡ find_magic (x ∷ h) xs
unfolding find_magic
find_magic-step s x h xs lt small t ne =
    let (t', le) = mini_step-Tracks s x h lt small t in
    let no_match = Tracks-accept (mini_step s x) (x ∷ h) t' le in
    let off : starts_with (pattern_rev 48) (x ∷ h) ≡ false = ground (arith, no_match) in rw off

-- One bit that completes it.
pub find_magic-accept :
    (s x : ℕ) (h xs : List ℕ)
    → s < 48
    → x < 2
    → Tracks s h
    → mini_step s x ≡ 48
    → find_magic h (x ∷ xs) ≡ some xs
unfolding find_magic
find_magic-accept s x h xs lt small t e =
    let (t', le) = mini_step-Tracks s x h lt small t in
    let match = Tracks-accept (mini_step s x) (x ∷ h) t' le in
    let full : starts_with (pattern_rev 48) (x ∷ h) ≡ true = ground (arith, match) in rw full

-- Bits on which the automaton does not accept do not complete the magic number.
pub run-Tracks :
    (xs : List ℕ) (s : ℕ) (h : List ℕ)
    → AllBits xs
    → Tracks s h
    → s < 48
    → run s xs ≢ 48
    → Tracks (run s xs) (push xs h)
      × (run s xs < 48)
      × ((ys : List ℕ) → find_magic h (xs ++ ys) ≡ find_magic (push xs h) ys)
unfolding run
run-Tracks [] s h all t lt ne = (t, lt, λ ys. refl)
run-Tracks (x ∷ xs) s h all t lt ne =
    let step = run-step s x xs lt in
    let (t', le) = mini_step-Tracks s x h lt all.0 t in
    let on : mini_step s x ≢ 48 =
      λ full. ne (step ∙ ap (λ (k : ℕ). run k xs) full ∙ run-accept xs) in
    let (tracks, below, same) =
      run-Tracks xs (mini_step s x) (x ∷ h) all.1 t' (omega arith) (λ e. ne (step ∙ e)) in
    (
      subst (λ (k : ℕ). Tracks k (push xs (x ∷ h))) (sym step) tracks,
      omega arith,
      λ ys. find_magic-step s x h (xs ++ ys) lt all.0 t on ∙ same ys,
    )

-- Every row of the table for bytes, against eight steps of the table for bits.
byte_table : holds_below 48 (λ s. holds_below 256 (λ c. big_step s c == run s (bits 8 c))) ≡ true
unfolding holds_below big_step run bits mini_step
byte_table = refl

accept_table : holds_below 256 (λ c. big_step 48 c == 48) ≡ true
unfolding holds_below big_step
accept_table = refl

run-append : (xs ys : List ℕ) (s : ℕ) → run s (xs ++ ys) ≡ run (run s xs) ys
unfolding run
run-append [] ys s = refl
run-append (x ∷ xs) ys s = elim (Bool-cases (s == 48)) [
  | inl full ↦ rw full (sym (run-accept ys))
  | inr part ↦ rw part (run-append xs ys (mini_step s x))
]

big_step-run : (s c : ℕ) → s ≤ 48 → c < 256 → big_step s c ≡ run s (bits 8 c)
big_step-run s c le lt = elim (dec_lt s 48) [
  | yes part ↦
      ==→eq (big_step s c) _ (holds_below_at 256 _ c (holds_below_at 48 _ s byte_table part) lt)
  | no full ↦
      let e : s ≡ 48 = omega arith in
      rw e (
        ==→eq (big_step 48 c) 48 (holds_below_at 256 _ c accept_table lt)
        ∙ sym (run-accept (bits 8 c)))
]

run-le : (xs : List ℕ) (s : ℕ) → AllBits xs → s ≤ 48 → run s xs ≤ 48
unfolding run
run-le [] s all le = le
run-le (x ∷ xs) s all le = elim (Bool-cases (s == 48)) [
  | inl full ↦ rw full (omega arith)
  | inr part ↦ rw part (run-le xs (mini_step s x) all.1 (mini_step-le s x (ground arith) all.0))
]

pub AllBits-bits : (w n : ℕ) → AllBits (bits w n)
unfolding bits
AllBits-bits zero n = tt
AllBits-bits (suc w) n = (omega arith, AllBits-bits w n)

bytes :
    (w : ℕ)
    → bits 32 w
      ≡ bits 8 (w / 2 ^ 24)
        ++ (bits 8 (w / 2 ^ 16 % 256) ++ (bits 8 (w / 2 ^ 8 % 256) ++ bits 8 (w % 256)))
bytes w =
    ap (bits 32) (omega arith)
    ∙ bits-join 8 24 (w / 2 ^ 24) (w % 2 ^ 24) (omega arith)
    ∙ ap (◌++◌ (bits 8 (w / 2 ^ 24))) (
        ap (bits 24) (omega arith)
        ∙ bits-join 8 16 (w / 2 ^ 16 % 256) (w % 2 ^ 16) (omega arith)
        ∙ ap (◌++◌ (bits 8 (w / 2 ^ 16 % 256)))
            (ap (bits 16) (omega arith) ∙ bits-join 8 8 (w / 2 ^ 8 % 256) (w % 256) (omega arith)))

-- The four lookups for a word are 32 steps of the table for bits.
pub word_step-run : (s w : ℕ) → s ≤ 48 → w < 2 ^ 32 → word_step s w ≡ run s (bits 32 w)
unfolding word_step
word_step-run s w le lt =
    let a = w / 2 ^ 24 in
    let b = w / 2 ^ 16 % 256 in
    let c = w / 2 ^ 8 % 256 in
    let d = w % 256 in
    let after = λ (t n : ℕ) (small : t ≤ 48). run-le (bits 8 n) t (AllBits-bits 8 n) small in
    let s1 = run s (bits 8 a) in
    let s2 = run s1 (bits 8 b) in
    let s3 = run s2 (bits 8 c) in
    let le1 = after s a le in
    let le2 = after s1 b le1 in
    let le3 = after s2 c le2 in
    rw
      (
        big_step-run s a le (omega arith),
        big_step-run s1 b le1 (omega arith),
        big_step-run s2 c le2 (omega arith),
        big_step-run s3 d le3 (omega arith),
      )
      (sym (
        ap (run s) (bytes w)
        ∙ run-append (bits 8 a) (bits 8 b ++ (bits 8 c ++ bits 8 d)) s
        ∙ run-append (bits 8 b) (bits 8 c ++ bits 8 d) s1
        ∙ run-append (bits 8 c) (bits 8 d) s2))
