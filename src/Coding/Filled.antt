-- ===== src/Coding/Filled.antt =====
-- src/encode.c, assign_codes(): the codes of the leaves of a tree, all of which are used.
use lbzip.Shared.{
  ℕ, zero, suc, ◌+◌, ◌-◌, ◌*◌, ◌^◌, ◌≤◌, ◌<◌, ◌≡◌, refl, sym, ◌∙◌, List, [], ◌∷◌, ◌++◌, map, ◌==◌,
  ◌&&◌, ltb, leb, some, if◌then◌else◌, arith, ap, subst, inl, inr, length, append-nil, ==→eq,
}
use mathlib.Core.List.{Permᴰ}
use mathlib.Core.List.Permᴰ
use native.Mathlib.Nat.{pow-suc}
use lbzip.Shared.Table.{holds_below, holds_below_at}
use lbzip.Shared.Bags.{count_p-perm}
use lbzip.Prefix.Sums.{sum_below, of_length, sum_below-suc, width}
use lbzip.Prefix.Base.{space, first_or_later, of_length-le}
use lbzip.Prefix.Tables.{InRange, counts}
use lbzip.Coding.{Coded, Best, Assigned, code_levels, listed, number, avail_at, leaf_symbol}
use lbzip.Coding.Leaves.{symbols, lengths_of, Distinct, upto, upto-Distinct, map-upto}
use lbzip.Coding.Levels.{code_levels-Levels, code_levels-codes}

-- Each length that occurs is one of those up to the height.
InRange-of_length : (ls : List ℕ) → ((k : ℕ) → 0 < of_length k ls → (0 < k) × (k ≤ 20)) → InRange ls
InRange-of_length [] some_of = tt
InRange-of_length (l ∷ ls) some_of = (
  some_of l (ground arith),
  InRange-of_length ls (λ k some_left. some_of k (omega (arith, some_left))),
)

space-above :
    (c : ℕ → ℕ) (h n : ℕ) → ((k : ℕ) → h < k → c k ≡ 0) → h < n → space c n ≡ space c (suc h)
space-above c h zero none_of lt = elim lt [ ]
space-above c h (suc n) none_of lt = elim (first_or_later h n (omega arith)) [
  | inl same ↦ ap (λ i. space c (suc i)) (sym same)
  | inr above ↦ omega (
    arith,
    sum_below-suc (λ j. c j * width j) n,
    space-above c h n none_of above,
    ap (λ (t : ℕ). t * width n) (none_of n above),
  )
]

pow_width : (h : ℕ) → h ≤ 20 → 2 ^ h * width h ≡ 2 ^ 20
unfolding width
pow_width h le = ==→eq _ _ (
    holds_below_at 21 (λ h. 2 ^ h * 2 ^ (20 - h) == 2 ^ 20) h (unfold holds_below in refl)
      (omega arith))

length-listed : (n i : ℕ) (f : ℕ → ℕ) → length (listed n i f) ≡ n
unfolding listed
length-listed zero i f = refl
length-listed (suc n) i f = ap suc (length-listed n (suc i) f)

mapped : (f : ℕ → ℕ) (ws : List ℕ) → map f (symbols ws) ≡ lengths_of f ws
mapped f [] = refl
mapped f (w ∷ ws) = ap (◌∷◌ (f (leaf_symbol w))) (mapped f ws)

-- the codes of lengths that fill the code space
pub record Filled (r : Assigned) : Type 0 where
  pub base : ℕ → ℕ
  pub numbered : r.code ≡ number r.lengths base
  pub ranged : InRange r.lengths
  pub few : length r.lengths ≤ 258
  pub full : space (counts r.lengths) 21 ≡ 2 ^ 20
  pub firsts : (k : ℕ) → 0 < of_length k r.lengths → base k * width k ≡ space (counts r.lengths) k

module _ (size : ℕ) (row : ℕ → ℕ) (leaves : List ℕ) (best : Best) (few : size ≤ 258)
    (low : best.height ≤ 20) (perm : Permᴰ (symbols leaves) (upto size 0)) (c : Coded)
    (made : code_levels best.height 1 row (record {
      base_code = λ k. 0;
      next_code = 0;
      given = record { length = best.length; cost = 0; left = leaves };
    })
      ≡ some c)
    (all_used : c.given.left ≡ []) where
  abbrev ls : List ℕ
  ls = listed size 0 c.given.length

  leaves-Distinct : Distinct (symbols leaves)
  leaves-Distinct x = omega (arith, count_p-perm (λ l. l == x) perm, upto-Distinct size 0 x)

  counted :
      (k : ℕ) → of_length k ls ≡ (if leb 1 k && ltb k (1 + best.height) then avail_at row k else 0)
  counted k =
      let levels = code_levels-Levels best.height 1 row _ c made in
      let used : levels.used ≡ leaves =
        sym (levels.taken ∙ ap (λ xs. levels.used ++ xs) all_used ∙ append-nil levels.used) in
      ap (of_length k) (sym (map-upto c.given.length size 0))
      ∙ sym (count_p-perm (λ l. l == k) (Permᴰ.map c.given.length perm))
      ∙ ap (of_length k) (mapped c.given.length leaves)
      ∙ subst
          (λ ws.
            of_length k (lengths_of c.given.length ws)
            ≡ (if leb 1 k && ltb k (1 + best.height) then avail_at row k else 0))
          used (levels.all (subst (λ ws. Distinct (symbols ws)) (sym used) leaves-Distinct) k)

  short : length ls ≤ 258
  short = omega (arith, length-listed size 0 c.given.length)

  none_at_zero : counts ls 0 * width 0 ≡ 0
  none_at_zero = omega (arith, ap (λ (t : ℕ). t * width 0) (counted 0 ∙ refl))

  nothing : space (counts ls) 1 ≡ 0
  unfolding sum_below
  nothing = omega (arith, none_at_zero)

  codes :
      ((m : ℕ) × (c.next_code ≡ 2 * m)
        × (m * width best.height ≡ space (counts ls) (suc best.height)))
      × ((k : ℕ) → k ≤ 0 → c.base_code k ≡ 0)
      × ((k : ℕ) → 0 < k → k ≤ best.height → c.base_code k * width k ≡ space (counts ls) k)
  codes =
      let from_zero : 0 + best.height ≡ best.height = omega arith in
      subst
        (λ h.
          ((m : ℕ) × (c.next_code ≡ 2 * m) × (m * width h ≡ space (counts ls) (suc h)))
          × ((k : ℕ) → k ≤ 0 → c.base_code k ≡ 0)
          × ((k : ℕ) → 0 < k → k ≤ h → c.base_code k * width k ≡ space (counts ls) k))
        from_zero
        (code_levels-codes (counts ls) best.height 0 row _ c made (omega (arith, low))
          (λ k pos le. (ground (arith, counted k), omega (arith, of_length-le ls k, short)))
          (omega arith) (0, refl, omega (arith, nothing)))

  within : (k : ℕ) → 0 < of_length k ls → (0 < k) × (k ≤ best.height)
  within k some_of = ground (arith, counted k)

  above : (k : ℕ) → best.height < k → counts ls k ≡ 0
  above k gt = ground (arith, counted k)

  filled : c.next_code ≡ 2 ^ (best.height + 1) → space (counts ls) 21 ≡ 2 ^ 20
  filled complete =
      let next : best.height + 1 ≡ suc best.height = omega arith in
      let half : codes.0.0 ≡ 2 ^ best.height =
        omega (arith, codes.0.1, complete, ap (λ i. 2 ^ i) next, pow-suc 2 best.height) in
      space-above (counts ls) best.height 21 above (omega arith)
      ∙ sym codes.0.2
      ∙ ap (λ (t : ℕ). t * width best.height) half
      ∙ pow_width best.height low

  pub levels-Filled :
      (cost : ℕ)
      → c.next_code ≡ 2 ^ (best.height + 1)
      → Filled (record { code = number ls c.base_code; lengths = ls; cost = cost })
  levels-Filled cost complete = record {
    base = c.base_code;
    numbered = refl;
    ranged =
        InRange-of_length ls
          (λ k some_of. let range = within k some_of in (range.0, omega (arith, range.1)));
    few = short;
    full = filled complete;
    firsts = λ k some_of. let range = within k some_of in codes.2 k range.0 range.1;
  }
