-- ===== src/Prefix/Lookup.antt =====
-- src/decode.c, make_tree(): the lookup table, and the search for the length of a code.
use lbzip.Shared.{
  ℕ, zero, suc, ◌+◌, ◌-◌, ◌*◌, ◌/◌, ◌%◌, ◌^◌, ◌≤◌, ◌<◌, ◌≡◌, refl, sym, ◌∙◌, List, [], ◌∷◌, ◌++◌,
  ◌==◌, arith, ap, ==→eq, inl, inr, length, subst, get_or, replicate, length-append,
  length-replicate, bit_or,
}
use lbzip.Shared.Table.{holds_below, holds_below_at}
use lbzip.Prefix.{same_length, complete}
use lbzip.Prefix.Sums.{sum_below, sum_below-suc, sum_below_mono}
use lbzip.Prefix.Base.{first_or_later}

nothing_before : (i : ℕ) → 0 + i ≡ i
nothing_before i = omega arith

plus_nothing : (s : ℕ) → s ≡ s + 0
plus_nothing s = omega arith

predecessor : (k : ℕ) → suc k - 1 ≡ k
predecessor k = omega arith

to_eleven : (k : ℕ) → k + 0 ≡ 11 → k ≡ 11
to_eleven k e = omega arith

one_before : (n i : ℕ) → suc n + i ≡ suc (n + i)
one_before n i = omega arith

pub get_or-append_right :
    (xs ys : List ℕ) (i : ℕ) → get_or (xs ++ ys) (length xs + i) 0 ≡ get_or ys i 0
get_or-append_right [] ys i = ap (λ j. get_or ys j 0) (nothing_before i)
get_or-append_right (x ∷ xs) ys i =
    ap (λ j. get_or (x ∷ xs ++ ys) j 0) (one_before (length xs) i) ∙ get_or-append_right xs ys i

pub get_or-append_left :
    (xs ys : List ℕ) (i : ℕ) → i < length xs → get_or (xs ++ ys) i 0 ≡ get_or xs i 0
get_or-append_left [] ys i lt = elim lt [ ]
get_or-append_left (x ∷ xs) ys zero lt = refl
get_or-append_left (x ∷ xs) ys (suc i) lt = get_or-append_left xs ys i (omega arith)

pub in_block : (r n d w : ℕ) → r < n → d < w → r * w + d < n * w
in_block r n d w lt within = grind arith

get_or-replicate_append :
    (n : ℕ) (x : ℕ) (ys : List ℕ) (i : ℕ) → i < n → get_or (replicate n x ++ ys) i 0 ≡ x
get_or-replicate_append zero x ys i lt = absurd (omega arith)
get_or-replicate_append (suc n) x ys zero lt = refl
get_or-replicate_append (suc n) x ys (suc i) lt = get_or-replicate_append n x ys i (omega arith)

-- the entry of the sorted symbol `s`, whose code has the length `k`
abbrev pub entry : (ℕ → ℕ) → ℕ → ℕ → ℕ
entry p s k = bit_or (p s * 2 ^ 5 % 2 ^ 16) k

more : {a b inc : ℕ} (rounds : ℕ) → a ≡ inc → b ≡ rounds * inc → a + b ≡ suc rounds * inc
more rounds p q = grind arith

next_entry : (r inc d : ℕ) → suc r * inc + d ≡ inc + (r * inc + d)
next_entry r inc d = grind arith

module _ (k inc : ℕ) (p : ℕ → ℕ) where
  length-same_length : (rounds s : ℕ) → length (same_length rounds s k inc p) ≡ rounds * inc
  unfolding same_length
  length-same_length zero s = omega arith
  length-same_length (suc rounds) s =
      length-append (replicate inc (entry p s k)) (same_length rounds (suc s) k inc p)
      ∙ more rounds (length-replicate inc (entry p s k)) (length-same_length rounds (suc s))

  same_length_at :
      (rounds s r d : ℕ)
      → r < rounds
      → d < inc
      → get_or (same_length rounds s k inc p) (r * inc + d) 0 ≡ entry p (s + r) k
  unfolding same_length
  same_length_at zero s r d lt within = absurd (omega arith)
  same_length_at (suc rounds) s zero d lt within =
      let at_first : 0 * inc + d ≡ d = omega arith in
      rw at_first (
        get_or-replicate_append inc (entry p s k) (same_length rounds (suc s) k inc p) d within
        ∙ ap (λ t. entry p t k) (plus_nothing s))
  same_length_at (suc rounds) s (suc r) d lt within =
      let skipped : suc r * inc + d ≡ length (replicate inc (entry p s k)) + (r * inc + d) =
        omega (arith, next_entry r inc d, length-replicate inc (entry p s k)) in
      let named : suc s + r ≡ s + suc r = omega arith in
      rw skipped (
        get_or-append_right (replicate inc (entry p s k)) (same_length rounds (suc s) k inc p)
          (r * inc + d)
        ∙ same_length_at rounds (suc s) r d (omega arith) within
        ∙ ap (λ t. entry p t k) named)

-- how many entries a code of the length `k` takes
abbrev pub share : ℕ → ℕ
share k = 2 ^ 10 / 2 ^ k

-- the entries of the codes below the length `k`
abbrev pub entries : (ℕ → ℕ) → ℕ → ℕ
entries counts = sum_below (λ j. counts j * share j)

share-half : (k : ℕ) → k ≤ 10 → share k / 2 ≡ share (suc k)
share-half k le = ==→eq _ _ (
    holds_below_at 11 (λ k. share k / 2 == share (suc k)) k (unfold holds_below in refl)
      (omega arith))

-- the sorted symbols of each length, by the indices that the sort has left
abbrev pub Sorted : (ℕ → ℕ) → (ℕ → ℕ) → Type 0
Sorted counts c = (k : ℕ) → k < 20 → c k ≡ sum_below counts (suc k)

module _ (counts c p : ℕ → ℕ) (sorted : Sorted counts c) where
  -- the entries of one length, the first round of the loop
  here_count : (k : ℕ) → 0 < k → k ≤ 10 → c k - c (k - 1) ≡ counts k
  here_count zero pos le = elim pos [ ]
  here_count (suc k) pos le = rw (predecessor k) (
      omega
        (arith, sorted k (omega arith), sorted (suc k) (omega arith), sum_below-suc counts (suc k)))

  here_first : (k : ℕ) → 0 < k → k ≤ 10 → c (k - 1) ≡ sum_below counts k
  here_first zero pos le = elim pos [ ]
  here_first (suc k) pos le = rw (predecessor k) (sorted k (omega arith))

  pub length-complete :
      (rounds k : ℕ)
      → 0 < k
      → k + rounds ≡ 11
      → length (complete rounds k (share k) c p) + entries counts k ≡ entries counts 11
  unfolding complete
  length-complete zero k pos e = omega (arith, ap (entries counts) (to_eleven k e))
  length-complete (suc rounds) k pos e =
      rw (share-half k (omega arith), here_count k pos (omega arith))
        (omega (
          arith,
          length-complete rounds (suc k) (omega arith) (omega arith),
          sum_below-suc (λ j. counts j * share j) k,
          length-same_length k (share k) p (counts k) (c (k - 1)),
          length-append (same_length (counts k) (c (k - 1)) k (share k) p)
              (complete rounds (suc k) (share (suc k)) c p),
        ))

  abbrev block : ℕ → List ℕ
  block k = same_length (counts k) (sum_below counts k) k (share k) p

  complete_here :
      (k r d i : ℕ) (rest : List ℕ)
      → r < counts k
      → d < share k
      → i ≡ r * share k + d
      → get_or (block k ++ rest) i 0 ≡ entry p (sum_below counts k + r) k
  complete_here k r d i rest lt within at = rw at (
      get_or-append_left (block k) rest (r * share k + d) (
        omega (
          arith,
          in_block r (counts k) d (share k) lt within,
          length-same_length k (share k) p (counts k) (sum_below counts k),
        ))
      ∙ same_length_at k (share k) p (counts k) (sum_below counts k) r d lt within)

  pub complete_at :
      (rounds k₀ k r d i : ℕ)
      → 0 < k₀
      → k₀ + rounds ≡ 11
      → k₀ ≤ k
      → k ≤ 10
      → r < counts k
      → d < share k
      → i + entries counts k₀ ≡ entries counts k + (r * share k + d)
      → get_or (complete rounds k₀ (share k₀) c p) i 0 ≡ entry p (sum_below counts k + r) k
  unfolding complete
  complete_at zero k₀ k r d i pos e lo hi lt within at = absurd (omega arith)
  complete_at (suc rounds) k₀ k r d i pos e lo hi lt within at =
      rw
        (
          share-half k₀ (omega arith),
          here_count k₀ pos (omega arith),
          here_first k₀ pos (omega arith),
        )
        (elim (first_or_later k₀ k lo) [
          | inl same ↦
              subst
                (λ j.
                  get_or (block j ++ complete rounds (suc k₀) (share (suc k₀)) c p) i 0
                  ≡ entry p (sum_below counts k + r) k)
                (sym same)
                (complete_here k r d i (complete rounds (suc k₀) (share (suc k₀)) c p) lt within
                  (omega (arith, ap (entries counts) same)))
          | inr later ↦
              let skipped : i ≡ length (block k₀) + (i - length (block k₀)) = omega (
                arith,
                length-same_length k₀ (share k₀) p (counts k₀) (sum_below counts k₀),
                sum_below-suc (λ j. counts j * share j) k₀,
                sum_below_mono (λ j. counts j * share j) (suc k₀) k later,
              ) in
              let rest : i - length (block k₀) + entries counts (suc k₀)
                  ≡ entries counts k + (r * share k + d) =
                omega (
                  arith,
                  length-same_length k₀ (share k₀) p (counts k₀) (sum_below counts k₀),
                  sum_below-suc (λ j. counts j * share j) k₀,
                ) in
              ap (λ n. get_or (block k₀ ++ complete rounds (suc k₀) (share (suc k₀)) c p) n 0)
                skipped
              ∙ get_or-append_right (block k₀) (complete rounds (suc k₀) (share (suc k₀)) c p)
                  (i - length (block k₀))
              ∙ complete_at rounds (suc k₀) k r d (i - length (block k₀)) (omega arith)
                  (omega arith) later hi lt within rest
        ])
