-- ===== src/Coding/Groups.antt =====
-- src/encode.c, find_best_tree(), and the packing of the code lengths in generate_prefix_code().
use lbzip.Shared.{
  ℕ, zero, suc, ◌+◌, ◌-◌, ◌*◌, ◌/◌, ◌%◌, ◌^◌, ◌≤◌, ◌<◌, ◌≡◌, ◌∙◌, List, [], ◌∷◌, ltb, true, false,
  if◌then◌else◌, arith, ap, Bool-cases, ◌⊎◌, inl, inr, length, subst,
}
use mathlib.Core.Path.{fun_ext}
use lbzip.Shared.Bags.{total}

-- the code lengths of a symbol in six trees
unfoldable pub len_pack : (ℕ → ℕ → ℕ) → ℕ → ℕ
len_pack lens v =
    (lens 0 v
      + lens 1 v * 2 ^ 10
      + lens 2 v * 2 ^ 20
      + lens 3 v * 2 ^ 30
      + lens 4 v * 2 ^ 40
      + lens 5 v * 2 ^ 50)
    % 2 ^ 64

-- the packed costs of a group
unfoldable pub group_cost : (ℕ → ℕ) → List ℕ → ℕ → ℕ
group_cost pack [] cp = cp
group_cost pack (v ∷ gs) cp = group_cost pack gs ((cp + pack v) % 2 ^ 64)

-- the other trees, from `t` on: `bc` is the best cost, of the tree `bt`
unfoldable pub best_of : ℕ → ℕ → ℕ → ℕ → ℕ → ℕ
best_of zero t cp bc bt = bt
best_of (suc rounds) t cp bc bt =
    let c = cp / 2 ^ 10 % 2 ^ 10 in
    best_of rounds (suc t) (cp / 2 ^ 10) (if ltb c bc then c else bc) (if ltb c bc then t else bt)

unfoldable pub find_best_tree : List ℕ → ℕ → (ℕ → ℕ) → ℕ
find_best_tree gs nt pack = let cp = group_cost pack gs 0 in best_of (nt - 1) 1 cp (cp % 2 ^ 10) 0

-- costs of ten bits, from that of the tree `t` on, as many as `n`
packed : ℕ → ℕ → (ℕ → ℕ) → ℕ
packed zero t cost = 0
packed (suc n) t cost = cost t + 2 ^ 10 * packed n (suc t) cost

module _ (lens : ℕ → ℕ → ℕ) (short : (t v : ℕ) → lens t v ≤ 20) where
  one_more :
      (v : ℕ) (c : ℕ → ℕ)
      → ((t : ℕ) → c t + 20 ≤ 1000)
      → (packed 6 0 c + len_pack lens v) % 2 ^ 64 ≡ packed 6 0 (λ t. c t + lens t v)
  unfolding packed len_pack
  one_more v c room = omega (
    arith,
    room 0,
    room 1,
    room 2,
    room 3,
    room 4,
    room 5,
    short 0 v,
    short 1 v,
    short 2 v,
    short 3 v,
    short 4 v,
    short 5 v,
  )

  group_cost-packed :
      (gs : List ℕ) (c : ℕ → ℕ)
      → ((t : ℕ) → c t + 20 * length gs ≤ 1000)
      → group_cost (len_pack lens) gs (packed 6 0 c) ≡ packed 6 0 (λ t. c t + total (lens t) gs)
  unfolding group_cost packed
  group_cost-packed [] c room = omega arith
  group_cost-packed (v ∷ gs) c room =
      ap (group_cost (len_pack lens) gs) (one_more v c (λ t. omega (arith, room t)))
      ∙ group_cost-packed gs (λ t. c t + lens t v) (λ t. omega (arith, room t, short t v))
      ∙ omega arith

zero_plus : (n : ℕ) → 0 + n ≡ n
zero_plus n = omega arith

total_bound : (f : ℕ → ℕ) → ((v : ℕ) → f v ≤ 20) → (gs : List ℕ) → total f gs ≤ 20 * length gs
total_bound f short [] = omega arith
total_bound f short (v ∷ gs) = omega (arith, short v, total_bound f short gs)

total_small :
    (f : ℕ → ℕ) → ((v : ℕ) → f v ≤ 20) → (gs : List ℕ) → length gs ≤ 50 → total f gs < 2 ^ 10
total_small f short gs few = omega (arith, total_bound f short gs)

-- the tree `bt` is the first of those of the least cost, among those below `t`
pub record IsBest (cost : ℕ → ℕ) (t bt : ℕ) : Type 0 where
  pub among : bt < t
  pub least : (u : ℕ) → u < t → cost bt ≤ cost u
  pub first : (u : ℕ) → u < bt → cost bt < cost u

nothing_more : (n : ℕ) → n ≡ n + 0
nothing_more n = omega arith

-- The next tree is better, or is not.
last_or_earlier : (u t : ℕ) → u < suc t → (t ≡ u) ⊎ (u < t)
last_or_earlier u t lt = omega arith

only : (cost : ℕ → ℕ) (u : ℕ) → u < 1 → cost 0 ≤ cost u
only cost u lt = elim (last_or_earlier u 0 lt) [
  | inl e ↦ omega (arith, ap cost e)
  | inr none_left ↦ elim none_left [ ]
]

module _ (cost : ℕ → ℕ) (t bt : ℕ) (best : IsBest cost (suc t) bt) where
  better : ltb (cost (suc t)) (cost bt) ≡ true → IsBest cost (suc (suc t)) (suc t)
  better less = record {
    among = omega arith;
    least = λ u lt. elim (last_or_earlier u (suc t) lt) [
      | inl e ↦ omega (arith, ap cost e)
      | inr earlier ↦ ground (arith, best.least u earlier)
    ];
    first = λ u lt. ground (arith, best.least u lt);
  }

  no_better : ltb (cost (suc t)) (cost bt) ≡ false → IsBest cost (suc (suc t)) bt
  no_better not_less = record {
    among = omega (arith, best.among);
    least = λ u lt. elim (last_or_earlier u (suc t) lt) [
      | inl e ↦ subst (λ i. cost bt ≤ cost i) e (ground arith)
      | inr earlier ↦ best.least u earlier
    ];
    first = best.first;
  }

best_of-IsBest :
    (cost : ℕ → ℕ) (n rounds t bt : ℕ)
    → ((u : ℕ) → cost u < 2 ^ 10)
    → rounds ≤ n
    → IsBest cost (suc t) bt
    → IsBest cost (suc t + rounds) (best_of rounds (suc t) (packed (suc n) t cost) (cost bt) bt)
unfolding best_of
best_of-IsBest cost n zero t bt small le best =
    subst (λ i. IsBest cost i bt) (nothing_more (suc t)) best
best_of-IsBest cost zero (suc rounds) t bt small le best = elim le [ ]
best_of-IsBest cost (suc n) (suc rounds) t bt small le best =
    let rest : packed (suc (suc n)) t cost / 2 ^ 10 ≡ packed (suc n) (suc t) cost =
      unfold packed in omega (arith, small t) in
    let next : packed (suc n) (suc t) cost % 2 ^ 10 ≡ cost (suc t) =
      unfold packed in omega (arith, small (suc t)) in
    let count : suc (suc t) + rounds ≡ suc t + suc rounds = omega arith in
    rw (rest, next)
      (elim (Bool-cases (ltb (cost (suc t)) (cost bt))) [
        | inl less ↦ rw less (
            subst
              (λ i.
                IsBest cost i (
                  best_of rounds (suc (suc t)) (packed (suc n) (suc t) cost) (cost (suc t))
                    (suc t)))
              count
              (best_of-IsBest cost n rounds (suc t) (suc t) small (omega arith)
                (better cost t bt best less)))
        | inr not_less ↦ rw not_less (
            subst
              (λ i.
                IsBest cost i
                  (best_of rounds (suc (suc t)) (packed (suc n) (suc t) cost) (cost bt) bt))
              count
              (best_of-IsBest cost n rounds (suc t) bt small (omega arith)
                (no_better cost t bt best not_less)))
      ])

module _ (lens : ℕ → ℕ → ℕ) (short : (t v : ℕ) → lens t v ≤ 20) where
  -- The tree that is found is the first of those trees, out of at most six, that code the group of at
  -- most 50 symbols in the fewest bits, where no code is longer than 20 bits.
  pub find_best_tree-IsBest :
      (gs : List ℕ) (nt : ℕ)
      → length gs ≤ 50
      → 0 < nt
      → nt ≤ 6
      → IsBest (λ t. total (lens t) gs) nt (find_best_tree gs nt (len_pack lens))
  unfolding find_best_tree packed
  find_best_tree-IsBest gs nt few pos most =
      let cost = λ (t : ℕ). total (lens t) gs in
      let small = λ (t : ℕ). total_small (lens t) (short t) gs few in
      let start : group_cost (len_pack lens) gs 0 ≡ packed 6 0 cost =
        group_cost-packed lens short gs (λ t. 0) (λ t. omega arith)
        ∙ ap (packed 6 0) (fun_ext (λ t. zero_plus (total (lens t) gs))) in
      let first : packed 6 0 cost % 2 ^ 10 ≡ cost 0 = unfold packed in omega (arith, small 0) in
      let all : 1 + (nt - 1) ≡ nt = omega arith in
      rw (start, first)
        (subst (λ i. IsBest cost i (best_of (nt - 1) 1 (packed 6 0 cost) (cost 0) 0)) all
          (best_of-IsBest cost 5 (nt - 1) 0 0 small (omega arith) (record {
            among = omega arith;
            least = λ u lt. only cost u lt;
            first = λ u lt. elim lt [ ];
          })))
