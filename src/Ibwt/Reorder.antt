-- ===== src/Ibwt/Reorder.antt =====
-- src/decode.c, decode(): the bytes of a randomised block are put in their original order.
use lbzip.Shared.{
  ℕ, zero, suc, ◌+◌, ◌*◌, ◌/◌, ◌%◌, ◌^◌, ◌≤◌, ◌<◌, ◌≡◌, refl, ◌∙◌, ap, ap₂, List, ◌∷◌, false, leb,
  leb→le, get_or, set, length, arith, inl, inr, subst, Bool-cases,
}
use lbzip.Shared.Writes.{get_or-other, get_or-set, length-set}
use lbzip.Prefix.Sums.{sum_below}
use lbzip.Emit.Steps.{walk}
use lbzip.Ibwt.Links.{same_or_other}
use lbzip.Ibwt.{narrow, byte_at, reorder}
use lbzip.Ibwt.Original.{original}
use lbzip.Ibwt.Columns.{one_byte}
use lbzip.Ibwt.Rand.{low_bytes}

not_le : (m n : ℕ) → leb m n ≡ false → n < m
not_le m n t = ground arith

-- The place `j` stands with one of the `w` bytes from `k` on.
abbrev Among : (ℕ → ℕ) → ℕ → ℕ → ℕ → Type 0
Among f j k w = (k + w ≤ 256) × (sum_below f k ≤ j) × (j < sum_below f (k + w))

-- what the nodes and the indices are when all have been linked
pub record Follows (f inv : ℕ → ℕ) (size : ℕ) (ftab tt tt₀ : List ℕ) : Type 0 where
  pub ends : (u : ℕ) → u < 256 → get_or ftab u 0 ≡ sum_below f (suc u)
  pub whole : sum_below f 256 ≡ size
  pub pointer : (j : ℕ) → j < size → get_or tt j 0 / 2 ^ 8 ≡ inv j
  pub low : (j : ℕ) → j < size → get_or tt j 0 % 2 ^ 8 ≡ get_or tt₀ j 0
  pub below : (j : ℕ) → j < size → inv j < size
  pub byte :
      (j : ℕ)
      → j < size
      → (get_or tt₀ (inv j) 0 < 256)
        × (sum_below f (get_or tt₀ (inv j) 0) ≤ j)
        × (j < sum_below f (suc (get_or tt₀ (inv j) 0)))

module _ (f inv : ℕ → ℕ) (size : ℕ) (ftab tt tt₀ : List ℕ)
    (l : Follows f inv size ftab tt tt₀) where
  -- Half of the bytes are ruled out.
  halve :
      (j k h w : ℕ)
      → w ≡ suc h + suc h
      → Among f j k w
      → Among f j (narrow ftab j h (suc h) k) (suc h)
  halve j k h w e (most, lo, hi) =
      let here = l.ends (k + h) (omega arith) in
      let up : suc (k + h) ≡ k + suc h = omega arith in
      elim (Bool-cases (leb (get_or ftab (k + h) 0) j)) [
        | inl t ↦ rw t (
          omega arith,
          omega (arith, here, leb→le _ _ t, ap (sum_below f) up),
          subst (λ n. j < sum_below f n) (omega arith) hi,
        )
        | inr t ↦ rw t (omega arith, lo, omega (arith, here, not_le _ _ t, ap (sum_below f) up))
      ]

  -- The search finds the byte that stands at the place.
  pub byte_at_lem : (j : ℕ) → j < size → byte_at ftab j ≡ get_or tt₀ (inv j) 0
  unfolding byte_at
  byte_at_lem j lt =
      let a =
        halve j 0 127 256 refl
          (omega arith, unfold sum_below in omega arith, omega (arith, l.whole)) in
      let b = halve j _ 63 128 refl a in
      let c = halve j _ 31 64 refl b in
      let d = halve j _ 15 32 refl c in
      let e = halve j _ 7 16 refl d in
      let g = halve j _ 3 8 refl e in
      let h = halve j _ 1 4 refl g in
      let (most, lo, hi) = halve j _ 0 2 refl h in
      let (is, lo', hi') = l.byte j lt in
      one_byte f _ (get_or tt₀ (inv j) 0) j lo (subst (λ n. j < sum_below f n) (omega arith) hi) lo'
        hi'

  reorder-below :
      (n i j : ℕ) (ts : List ℕ) (a : ℕ) → a < i → get_or (reorder n i j ftab ts) a 0 ≡ get_or ts a 0
  unfolding reorder
  reorder-below zero i j ts a lt = refl
  reorder-below (suc n) i j ts a lt =
      reorder-below n (suc i) _ _ a (omega arith) ∙ get_or-other ts i _ a 0 (omega arith)

  -- The nodes keep their pointers while their bytes are changed.
  pub reorder-original :
      (n i j : ℕ) (ts : List ℕ)
      → i + n ≤ size
      → j < size
      → size ≤ length ts
      → ((a : ℕ) → a < size → get_or ts a 0 / 2 ^ 8 ≡ inv a)
      → low_bytes (reorder n i j ftab ts) i n ≡ original tt₀ inv j n
  unfolding reorder low_bytes original
  reorder-original zero i j ts le lt fits same = refl
  reorder-original (suc n) i j ts le lt fits same =
      let k = byte_at ftab j in
      let found = byte_at_lem j lt in
      let v = get_or ts i 0 / 2 ^ 8 * 2 ^ 8 + k in
      let ts' = set ts i v in
      let is = (l.byte j lt).0 in
      let written : get_or ts' i 0 ≡ v = get_or-set ts i v 0 (omega arith) in
      let same' : (a : ℕ) → a < size → get_or ts' a 0 / 2 ^ 8 ≡ inv a = λ a hi.
        elim (same_or_other a i) [
          | inl e ↦ rw e (omega (arith, written, found, is, same i (omega arith)))
          | inr ne ↦ ap (λ (x : ℕ). x / 2 ^ 8) (get_or-other ts i v a 0 ne) ∙ same a hi
        ] in
      let next = same' j lt in
      ap₂ (λ (x : ℕ) (xs : List ℕ). x ∷ xs)
        (ap (λ (x : ℕ). x % 2 ^ 8)
            (reorder-below n (suc i) (get_or ts' j 0 / 2 ^ 8) ts' i (omega arith))
          ∙ omega (arith, written, found, is))
        (reorder-original n (suc i) (get_or ts' j 0 / 2 ^ 8) ts' (omega arith)
            (omega (arith, next, l.below j lt)) (omega (arith, length-set ts i v)) same'
          ∙ ap (λ q. original tt₀ inv q n) next)

  -- The list leads through the bytes in their original order.
  pub walk-original : (n j : ℕ) → j < size → walk tt (get_or tt j 0) n ≡ original tt₀ inv j n
  unfolding walk original
  walk-original zero j lt = refl
  walk-original (suc n) j lt =
      let next : get_or tt (get_or tt j 0 / 2 ^ 8) 0 ≡ get_or tt (inv j) 0 =
        ap (λ q. get_or tt q 0) (l.pointer j lt) in
      rw next (
        ap₂ (λ (x : ℕ) (xs : List ℕ). x ∷ xs) (l.low (inv j) (l.below j lt))
          (walk-original n (inv j) (l.below j lt)))

pub length-reorder : (n i j : ℕ) (ftab ts : List ℕ) → length (reorder n i j ftab ts) ≡ length ts
unfolding reorder
length-reorder zero i j ftab ts = refl
length-reorder (suc n) i j ftab ts = length-reorder n (suc i) _ ftab _ ∙ length-set ts i _
