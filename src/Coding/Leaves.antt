-- ===== src/Coding/Leaves.antt =====
-- src/encode.c, assign_codes(): the leaves in their order, and the lengths that they are given.
use lbzip.Shared.{
  ℕ, zero, suc, ◌+◌, ◌-◌, ◌*◌, ◌/◌, ◌%◌, ◌^◌, ◌≤◌, ◌<◌, ◌≡◌, refl, ◌∙◌, List, [], ◌∷◌, ◌++◌, map,
  ◌==◌, some, if◌then◌else◌, arith, ap, subst, length,
}
use mathlib.Core.Option.{some-injective}
use lbzip.Shared.Bits.{bit_or-add}
use lbzip.Prefix.{update}
use lbzip.Prefix.Sums.{of_length}
use lbzip.Coding.{Given, give, leaf_symbol, label, labels, listed}

label_symbol : (leaf f : ℕ) → leaf ≤ 258 → leaf_symbol (label leaf f) ≡ leaf
unfolding leaf_symbol label
label_symbol leaf f le =
    let high : f * 2 ^ 32 % 2 ^ 64 ≡ f % 2 ^ 32 * 2 ^ 32 = omega arith in
    let middle : f % 2 ^ 32 * 2 ^ 32 + 0x10000 ≡ (f % 2 ^ 32 * 2 ^ 16 + 1) * 2 ^ 16 = omega arith in
    rw
      (
        high,
        bit_or-add 32 (f % 2 ^ 32) 0x10000 (omega arith),
        middle,
        bit_or-add 16 (f % 2 ^ 32 * 2 ^ 16 + 1) (258 - leaf) (omega arith),
      )
      (omega arith)

abbrev pub upto : ℕ → ℕ → List ℕ
upto n i = listed n i (λ j. j)

pub labels-upto :
    (i : ℕ) (frequency : List ℕ)
    → i + length frequency ≤ 258
    → map leaf_symbol (labels i frequency) ≡ upto (length frequency) i
unfolding labels listed
labels-upto i [] le = refl
labels-upto i (f ∷ frequency) le =
    rw (label_symbol i f (omega arith), labels-upto (suc i) frequency (omega arith)) refl

pub map-upto : (f : ℕ → ℕ) (n i : ℕ) → map f (upto n i) ≡ listed n i f
unfolding listed
map-upto f zero i = refl
map-upto f (suc n) i = ap (◌∷◌ (f i)) (map-upto f n (suc i))

-- Each number is in the list once at most, and those before its beginning are not.
upto-once : (n i x : ℕ) → (of_length x (upto n i) ≤ 1) × (x < i → of_length x (upto n i) ≡ 0)
unfolding listed
upto-once zero i x = (omega arith, λ lt. refl)
upto-once (suc n) i x =
    let rest = upto-once n (suc i) x in
    (ground (arith, rest.0, rest.1), λ lt. ground (arith, rest.1))

abbrev pub Distinct : List ℕ → Type 0
Distinct xs = (x : ℕ) → of_length x xs ≤ 1

pub upto-Distinct : (n i : ℕ) → Distinct (upto n i)
upto-Distinct n i x = (upto-once n i x).0

abbrev pub symbols : List ℕ → List ℕ
symbols = map leaf_symbol

abbrev pub lengths_of : (ℕ → ℕ) → List ℕ → List ℕ
lengths_of f = map (λ w. f (leaf_symbol w))

-- the leaves of `left` that were taken, and what they were given
pub record Gave (n d : ℕ) (left : List ℕ) (f : ℕ → ℕ) (g : Given) : Type 0 where
  pub used : List ℕ
  pub taken : left ≡ used ++ g.left
  pub all :
      Distinct (symbols used)
      → (k : ℕ) → of_length k (lengths_of g.length used) ≡ (if k == d then n else 0)
  pub kept : (s : ℕ) → of_length s (symbols used) ≡ 0 → g.length s ≡ f s

-- The first leaf has its length, and the others are not that leaf.
first_given :
    (n d w : ℕ) (left : List ℕ) (f : ℕ → ℕ) (g : Given)
    → Gave n d left (update f (leaf_symbol w) d) g
    → Gave (suc n) d (w ∷ left) f g
first_given n d w left f g rest = record {
  used = w ∷ rest.used;
  taken = ap (◌∷◌ w) rest.taken;
  all = λ distinct k.
      let alone : of_length (leaf_symbol w) (symbols rest.used) ≡ 0 =
        ground (arith, distinct (leaf_symbol w)) in
      let given : g.length (leaf_symbol w) ≡ d = rest.kept (leaf_symbol w) alone ∙ ground arith in
      rw given (ground (arith, rest.all (λ x. omega (arith, distinct x)) k));
  kept = λ s none_of. rest.kept s (omega (arith, none_of)) ∙ ground arith;
}

pub give-Gave :
    (n d : ℕ) (left : List ℕ) (f : ℕ → ℕ) (cost : ℕ) (g : Given)
    → give n d left f cost ≡ some g
    → Gave n d left f g
unfolding give
give-Gave zero d left f cost g e =
    let same = some-injective _ _ e in
    subst (Gave zero d left f) same (record {
      used = [];
      taken = refl;
      all = λ distinct k. ground arith;
      kept = λ s none_of. refl;
    })
give-Gave (suc n) d [] f cost g e = absurd (cc)
give-Gave (suc n) d (w ∷ left) f cost g e =
    first_given n d w left f g
      (give-Gave n d left (update f (leaf_symbol w) d) ((cost + w / 2 ^ 32 * d) % 2 ^ 32) g e)
