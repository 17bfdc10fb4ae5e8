-- ===== src/Prefix/Base.antt =====
-- src/decode.c, make_tree(): the counts of the lengths, Kraft's sum and the bases.
use lbzip.Shared.{
  ℕ, zero, suc, ◌+◌, ◌-◌, ◌*◌, ◌%◌, ◌^◌, ◌≤◌, ◌<◌, ◌≡◌, refl, ◌∙◌, List, [], ◌∷◌, false, ◌==◌, ltb,
  if◌then◌else◌, arith, ap, ==→eq, Bool-cases, ◌⊎◌, inl, inr, length, subst,
}
use lbzip.Prefix.{update, tally, kraft, bases, raise}
use lbzip.Prefix.Sums.{
  sum_below, sum_below-suc, sum_below_mono, of_length, width, width_64, width_20, width_pos,
}

pub tally_lem : (ls : List ℕ) (c : ℕ → ℕ) (k : ℕ) → tally ls c k ≡ c k + of_length k ls
unfolding tally
tally_lem [] c k = omega arith
tally_lem (l ∷ ls) c k = ground (arith, tally_lem ls (update c l (c l + 1)) k)

pub of_length-le : (ls : List ℕ) (k : ℕ) → of_length k ls ≤ length ls
of_length-le [] k = omega arith
of_length-le (l ∷ ls) k = ground (arith, of_length-le ls k)

-- the code space below the length `k`
abbrev pub space : (ℕ → ℕ) → ℕ → ℕ
space c = sum_below (λ j. c j * width j)

product_bound : (a b : ℕ) → a ≤ 258 → b ≤ 2 ^ 20 → a * b ≤ 258 * 2 ^ 20
product_bound a b p q = grind arith

pub space_bound :
    (c : ℕ → ℕ) → ((j : ℕ) → c j ≤ 258) → (k : ℕ) → k ≤ 21 → space c k ≤ k * (258 * 2 ^ 20)
space_bound c few zero le = unfold sum_below in omega arith
space_bound c few (suc k) le = omega (
  arith,
  sum_below-suc (λ j. c j * width j) k,
  space_bound c few k (omega arith),
  product_bound (c k) (width k) (few k) (width_20 k),
)

-- a round of the sum
next_space :
    (c : ℕ → ℕ) (k : ℕ)
    → ((j : ℕ) → c j ≤ 258)
    → k ≤ 20
    → (space c k + c k * 2 ^ (20 - k) % 2 ^ 64) % 2 ^ 64 ≡ space c (suc k)
next_space c k few le = rw (sum_below-suc (λ j. c j * width j) k) (
    unfold width in
    omega (
      arith,
      space_bound c few k (omega arith),
      product_bound (c k) (width k) (few k) (width_20 k),
    ))

pub kraft_lem :
    (rounds k : ℕ) (c : ℕ → ℕ)
    → ((j : ℕ) → c j ≤ 258)
    → k + rounds ≡ 21
    → kraft rounds k c (space c k) ≡ space c 21
unfolding kraft
kraft_lem zero k c few e = ap (space c) (omega arith)
kraft_lem (suc rounds) k c few e =
    rw (next_space c k few (omega arith)) (kraft_lem rounds (suc k) c few (omega arith))

bases-old :
    (rounds k : ℕ) (c : ℕ → ℕ) (sofar : ℕ) (b : ℕ → ℕ) (j : ℕ)
    → j < k
    → bases rounds k c sofar b j ≡ b j
unfolding bases
bases-old zero k c sofar b j lt = refl
bases-old (suc rounds) k c sofar b j lt = ground (
  arith,
  bases-old rounds (suc k) c ((sofar + c k * 2 ^ (64 - k) % 2 ^ 64) % 2 ^ 64) (update b k sofar) j,
)

pub scaled : (a w : ℕ) → a * (w * 2 ^ 44) ≡ a * w * 2 ^ 44
scaled a w = grind arith

pub first_or_later : (k j : ℕ) → k ≤ j → (k ≡ j) ⊎ (suc k ≤ j)
first_or_later k j le = omega arith

-- a round of the sum of the bases
next_base :
    (c : ℕ → ℕ) (k : ℕ)
    → k ≤ 20
    → (space c k * 2 ^ 44 % 2 ^ 64 + c k * 2 ^ (64 - k) % 2 ^ 64) % 2 ^ 64
      ≡ space c (suc k) * 2 ^ 44 % 2 ^ 64
next_base c k le =
    rw (sum_below-suc (λ j. c j * width j) k, width_64 k le) (omega (arith, scaled (c k) (width k)))

pub bases_lem :
    (rounds k : ℕ) (c : ℕ → ℕ) (b : ℕ → ℕ) (j : ℕ)
    → k + rounds ≡ 21
    → k ≤ j
    → j ≤ 20
    → bases rounds k c (space c k * 2 ^ 44 % 2 ^ 64) b j ≡ space c j * 2 ^ 44 % 2 ^ 64
unfolding bases
bases_lem zero k c b j e from to = absurd (omega arith)
bases_lem (suc rounds) k c b j e from to =
    rw (next_base c k (omega arith)) (elim (first_or_later k j from) [
      | inl at ↦
          bases-old rounds (suc k) c (space c (suc k) * 2 ^ 44 % 2 ^ 64)
            (update b k (space c k * 2 ^ 44 % 2 ^ 64)) j (omega arith)
          ∙ subst (λ i. update b k (space c k * 2 ^ 44 % 2 ^ 64) i ≡ space c i * 2 ^ 44 % 2 ^ 64) at
              (ground arith)
      | inr later ↦
          bases_lem rounds (suc k) c (update b k (space c k * 2 ^ 44 % 2 ^ 64)) j (omega arith)
            later to
    ])

-- the base that a code space stands for, the whole space included
abbrev pub level : ℕ → ℕ
level f = if ltb f (2 ^ 20) then f * 2 ^ 44 else 2 ^ 64 - 1

order : (j k : ℕ) → (j ≤ k) ⊎ (k < j)
order j k = omega arith

product_pos : (a w : ℕ) → (a == 0) ≡ false → 0 < w → 0 < a * w
product_pos a w some_left pos = grind arith

module _ (c : ℕ → ℕ) where
  empty_top : (k : ℕ) → c k ≡ 0 → space c (suc k) ≡ 2 ^ 20 → space c k ≡ 2 ^ 20
  empty_top k gone top =
      omega (arith, sum_below-suc (λ j. c j * width j) k, ap (λ (t : ℕ). t * width k) gone)

  module _ (b : ℕ → ℕ) (k j : ℕ) where
    kept :
        j ≤ k
        → b j ≡ space c j * 2 ^ 44 % 2 ^ 64
        → update b (suc k) (2 ^ 64 - 1) j ≡ space c j * 2 ^ 44 % 2 ^ 64
    kept le e = ground arith

    raised :
        space c (suc k) ≡ 2 ^ 20
        → k < j
        → (suc k < j → b j ≡ level (space c j))
        → update b (suc k) (2 ^ 64 - 1) j ≡ level (space c j)
    raised top lt old = elim (first_or_later (suc k) j lt) [
      | inl at ↦ subst (λ i. update b (suc k) (2 ^ 64 - 1) i ≡ level (space c i)) at (ground arith)
      | inr later ↦ ground (arith, old later)
    ]

  -- A code of the length `k` leaves less than the whole space below it.
  below_top :
      (j k : ℕ)
      → k ≤ 20
      → j ≤ k
      → (c k == 0) ≡ false
      → space c (suc k) ≡ 2 ^ 20
      → space c j * 2 ^ 44 % 2 ^ 64 ≡ level (space c j)
  below_top j k le lower some_left top = ground (
    arith,
    sum_below-suc (λ j. c j * width j) k,
    sum_below_mono (λ j. c j * width j) j k lower,
    product_pos (c k) (width k) some_left (width_pos k le),
  )

pub raise_lem :
    (k : ℕ) (c b : ℕ → ℕ)
    → k ≤ 21
    → space c k ≡ 2 ^ 20
    → ((j : ℕ) → k < j → j ≤ 21 → b j ≡ level (space c j))
    → ((j : ℕ) → 0 < j → j ≤ k → j ≤ 20 → b j ≡ space c j * 2 ^ 44 % 2 ^ 64)
    → (j : ℕ) → 0 < j
    → j ≤ 21
    → raise k c b j ≡ level (space c j)
unfolding raise
raise_lem zero c b le top above below j pos to = absurd (unfold sum_below in omega arith)
raise_lem (suc k) c b le top above below j pos to = elim (Bool-cases (c k == 0)) [
  | inl gone ↦ rw gone (
      raise_lem k c (update b (suc k) (2 ^ 64 - 1)) (omega arith)
        (empty_top c k (==→eq _ _ gone) top)
        (λ i lo hi. raised c b k i top lo (λ next. above i next hi))
        (λ i some_i lo hi. kept c b k i lo (below i some_i (omega arith) hi)) j pos to)
  | inr some_left ↦ rw some_left (elim (order j k) [
    | inl lower ↦
        kept c b k j lower (below j pos (omega arith) (omega arith))
        ∙ below_top c j k (omega arith) lower some_left top
    | inr higher ↦ raised c b k j top higher (λ lt. above j lt to)
  ])
]
