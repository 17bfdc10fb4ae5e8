-- ===== src/Coding/Correct.antt =====
-- src/encode.c, assign_codes(), and src/decode.c: the codes that are assigned are read again.
use lbzip.Shared.{
  ℕ, zero, suc, ◌+◌, ◌-◌, ◌*◌, ◌/◌, ◌%◌, ◌^◌, ◌≤◌, ◌<◌, ◌≡◌, refl, sym, ◌∙◌, List, [], ◌∷◌, ◌++◌,
  true, ◌==◌, ◌&&◌, ltb, Option, none, some, arith, ap, subst, Bool-cases, Option-cases, inl, inr,
  length, get_or, ==→eq, &&→both,
}
use mathlib.Core.Option.{some-injective}
use mathlib.Core.List.{Permᴰ}
use mathlib.Core.List.Permᴰ
use lbzip.Shared.Bags.{All-middle, count_p-append}
use lbzip.Prefix.{Tree, built, make_tree, tables, decode_symbol, symbol}
use lbzip.Prefix.Sums.{of_length, sum_below-suc, sum_below_mono, width, width_64, width_pos}
use lbzip.Prefix.Base.{space}
use lbzip.Prefix.Tables.{InRange, counts, full_builds}
use lbzip.Prefix.Correct.{decode_symbol-tables}
use lbzip.Prefix.Entries.{next_rank}
use lbzip.Coding.{
  Coded, Best, Assigned, codes_of, code_levels, assign_codes, heights, labels, number, is_nil,
  leaf_symbol, try_height, give_levels, delta_cost, code_best,
}
use lbzip.Coding.Merging.{sort_alphabet, merge_init}
use lbzip.Coding.Merging.Loop.{take_all, package_merge-takes}
use lbzip.Coding.Leaves.{symbols, upto, labels-upto}
use lbzip.Coding.Sorting.{sort_alphabet-perm}
use lbzip.Coding.Levels.{number_at, distribute}
use lbzip.Coding.Filled.{Filled, levels-Filled}

-- The height that is chosen is one of those tried.
try_height-low :
    (height size : ℕ) (row : ℕ → ℕ) (leaves : List ℕ) (best best' : Best)
    → height ≤ 20
    → best.height ≤ 20
    → try_height height size row leaves best ≡ some best'
    → best'.height ≤ 20
unfolding try_height
try_height-low height size row leaves best best' hi low e =
    elim (Option-cases
      (give_levels height 1 row (record { length = best.length; cost = 0; left = leaves }))) [
        | inl failed ↦ absurd (cc (rw (failed, try_height) at e))
        | inr (g, given) ↦
            let cost = (delta_cost (size - 1) 1 g.length g.cost + 5 + size) % 2 ^ 32 in
            subst (λ b. b.height ≤ 20) (some-injective _ _ (rw (given, try_height) at e))
              (elim (Bool-cases (ltb cost best.cost)) [
                | inl less ↦ rw less hi
                | inr more ↦ rw more low
              ])
      ]

heights-low :
    (rounds height size : ℕ) (tree : ℕ → ℕ → ℕ) (leaves : List ℕ) (best best' : Best)
    → height + rounds ≤ 21
    → best.height ≤ 20
    → heights rounds height size tree leaves best ≡ some best'
    → best'.height ≤ 20
unfolding heights
heights-low zero height size tree leaves best best' fits low e =
    subst (λ b. b.height ≤ 20) (some-injective _ _ e) low
heights-low (suc rounds) height size tree leaves best best' fits low e =
    elim (Bool-cases (ltb (2 ^ height) size)) [
      | inl small ↦
          heights-low rounds (suc height) size tree leaves best best' (omega arith) low
            (rw (small, heights) at e)
      | inr big ↦ elim (Bool-cases (tree height (height - 1) == 0)) [
        | inl same ↦
            subst (λ b. b.height ≤ 20) (some-injective _ _ (rw (big, same, heights) at e)) low
        | inr deeper ↦ elim (Option-cases (try_height height size (tree height) leaves best)) [
          | inl failed ↦ absurd (cc (rw (big, deeper, failed, heights) at e))
          | inr (b, tried) ↦
              heights-low rounds (suc height) size tree leaves b best' (omega arith)
                (try_height-low height size (tree height) leaves best b (omega arith) low tried)
                (rw (big, deeper, tried, heights) at e)
        ]
      ]
    ]

is_nil→nil : (xs : List ℕ) → is_nil xs ≡ true → xs ≡ []
is_nil→nil [] e = refl
is_nil→nil (x ∷ xs) e = absurd (cc)

codes_of-Filled :
    (size : ℕ) (row : ℕ → ℕ) (leaves : List ℕ) (best : Best) (r : Assigned)
    → size ≤ 258
    → best.height ≤ 20
    → Permᴰ (symbols leaves) (upto size 0)
    → codes_of size row leaves best ≡ some r
    → Filled r
unfolding codes_of
codes_of-Filled size row leaves best r few low perm e =
    let start : Coded = record {
      base_code = λ (k : ℕ). 0;
      next_code = 0;
      given = record { length = best.length; cost = 0; left = leaves };
    } in
    elim (Option-cases (code_levels best.height 1 row start)) [
      | inl failed ↦ absurd (cc (rw (failed, codes_of) at e))
      | inr (c, made) ↦
          elim (Bool-cases (c.next_code == 2 ^ (best.height + 1) && is_nil c.given.left)) [
            | inl sound ↦
                let checks =
                  &&→both (c.next_code == 2 ^ (best.height + 1)) (is_nil c.given.left) sound in
                subst Filled (some-injective _ _ (rw (made, sound, codes_of) at e)) (
                  levels-Filled size row leaves best few low perm c made
                    (is_nil→nil c.given.left checks.1) best.cost (==→eq _ _ checks.0))
            | inr failed ↦ absurd (cc (rw (made, failed, codes_of) at e))
          ]
    ]

code_best-Filled :
    (size : ℕ) (tree : ℕ → ℕ → ℕ) (leaves : List ℕ) (o : Option Best) (r : Assigned)
    → size ≤ 258
    → Permᴰ (symbols leaves) (upto size 0)
    → ((best : Best) → o ≡ some best → best.height ≤ 20)
    → code_best size tree leaves o ≡ some r
    → Filled r
unfolding code_best
code_best-Filled size tree leaves none r few perm low e = absurd (cc)
code_best-Filled size tree leaves (some best) r few perm low e =
    codes_of-Filled size (tree best.height) leaves best r few (low best refl) perm e

pub assign_codes-Filled :
    (frequency : List ℕ) (old : ℕ → ℕ) (r : Assigned)
    → length frequency ≤ 258
    → assign_codes frequency old ≡ some r
    → Filled r
unfolding assign_codes
assign_codes-Filled frequency old r few e =
    let size = length frequency in
    let leaves = sort_alphabet (labels 0 frequency) in
    let m =
      take_all (λ i. get_or ((2 ^ 64 - 1) ∷ leaves) i 0) size (size - 2)
        (merge_init (λ i. get_or ((2 ^ 64 - 1) ∷ leaves) i 0) size) in
    let start : Best = record { cost = 2 ^ 32 - 1; height = 20; length = old } in
    code_best-Filled size m.tree leaves (heights 19 2 size m.tree leaves start) r few
      (subst (Permᴰ (symbols leaves)) (labels-upto 0 frequency (omega arith))
        (Permᴰ.map leaf_symbol (sort_alphabet-perm (labels 0 frequency))))
      (λ best chosen.
        heights-low 19 2 size m.tree leaves start best (omega arith) (omega arith) chosen)
      (rw (package_merge-takes (λ i. get_or ((2 ^ 64 - 1) ∷ leaves) i 0) size, assign_codes) at e)

between : (v m q : ℕ) → 0 < m → v / m ≡ q → (q * m ≤ v) × (v < q * m + m)
between v m q pos e = grind arith

share_parts : (b r w : ℕ) → (b + r) * (w * 2 ^ 44) ≡ b * w * 2 ^ 44 + r * w * 2 ^ 44
share_parts b r w = grind arith

below_product : (x w : ℕ) → 0 < w → x * w + w ≤ 2 ^ 20 → x < 2 ^ 32
below_product x w pos le = grind arith

-- a code and those before it, in the code space
next_space :
    (b r : ℕ) (c : ℕ → ℕ) (k : ℕ)
    → b * width k ≡ space c k
    → r < c k
    → (b + r) * width k + width k ≤ space c (suc k)
next_space b r c k first lt = omega (
  arith,
  first,
  sum_below-suc (λ j. c j * width j) k,
  distribute b r (width k),
  next_rank r (c k) (width k) lt,
)

module _ (frequency : List ℕ) (old_length : ℕ → ℕ) (old : Tree) (r : Assigned) (before : List ℕ)
    (k : ℕ) (after : List ℕ) (v : ℕ) where
  -- Where assign_codes() returns, with no assertion failed, for at most 258 symbols, make_tree()
  -- accepts the lengths that it gives and builds tables, whatever was in them before. A window of the
  -- bit buffer, not all ones, that begins with the code of a symbol is looked up in them as that
  -- symbol, under its name for the decoder, and as long as its code.
  pub decode_symbol-assign_codes :
      length frequency ≤ 258
      → assign_codes frequency old_length ≡ some r
      → before ++ k ∷ after ≡ r.lengths
      → v < 2 ^ 64 - 1
      → v / 2 ^ (64 - k) ≡ get_or r.code (length before) 0
      → (make_tree old r.lengths ≡ built (tables old r.lengths))
        × (decode_symbol (tables old r.lengths) v ≡ (symbol (length r.lengths) (length before), k))
  decode_symbol-assign_codes few assigned split fits window =
      let f = assign_codes-Filled frequency old_length r few assigned in
      let w = width k in
      let occurs : of_length k before < of_length k r.lengths =
        subst (λ xs. of_length k before < of_length k xs) split
          (ground (arith, count_p-append (λ l. l == k) before (k ∷ after))) in
      let first = f.firsts k (omega (arith, occurs)) in
      let range =
        (All-middle (λ l. (0 < l) × (l ≤ 20)) before k after
          (subst InRange (sym split) f.ranged)).0 in
      let sums = next_space (f.base k) (of_length k before) (counts r.lengths) k first occurs in
      let room : space (counts r.lengths) (suc k) ≤ 2 ^ 20 = omega (
        arith,
        f.full,
        sum_below_mono (λ j. counts r.lengths j * width j) (suc k) 21 (omega (arith, range.1)),
      ) in
      let fits_in : f.base k + of_length k before < 2 ^ 32 =
        below_product (f.base k + of_length k before) w (width_pos k range.1)
          (omega (arith, sums, room)) in
      let coded : v / (w * 2 ^ 44) ≡ f.base k + of_length k before =
        ap (λ m. v / m) (sym (width_64 k range.1))
        ∙ window
        ∙ ap (λ xs. get_or xs (length before) 0) f.numbered
        ∙ ap (λ xs. get_or (number xs f.base) (length before) 0) (sym split)
        ∙ number_at before k after f.base fits_in in
      let bounds =
        between v (w * 2 ^ 44) (f.base k + of_length k before) (omega (arith, width_pos k range.1))
          coded in
      let apart = share_parts (f.base k) (of_length k before) w in
      (
        full_builds old r.lengths f.ranged f.few f.full,
        decode_symbol-tables old r.lengths f.ranged f.full f.few before k after split v fits
            (omega (arith, bounds, apart, first)) (omega (arith, bounds, apart, first)),
      )
