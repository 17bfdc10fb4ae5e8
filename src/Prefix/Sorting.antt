-- ===== src/Prefix/Sorting.antt =====
-- src/decode.c, make_tree(): the counts as indices, and the counting sort.
use lbzip.Shared.{
  ℕ, zero, suc, ◌+◌, ◌≤◌, ◌<◌, ◌≡◌, refl, ◌∙◌, List, [], ◌∷◌, ◌++◌, arith, ap, ◌⊎◌, inl, inr,
  length, subst,
}
use lbzip.Shared.Bags.{All}
use lbzip.Prefix.{update, indices, sort, symbol, restore}
use lbzip.Prefix.Sums.{sum_below, sum_below-suc, of_length}
use lbzip.Prefix.Base.{first_or_later}

pub indices-old : (rounds k cum : ℕ) (c : ℕ → ℕ) (j : ℕ) → j < k → indices rounds k cum c j ≡ c j
unfolding indices
indices-old zero k cum c j lt = refl
indices-old (suc rounds) k cum c j lt =
    ground (arith, indices-old rounds (suc k) (cum + c k) (update c k cum) j)

other : (c : ℕ → ℕ) (k v i : ℕ) → suc k ≤ i → update c k v i ≡ c i
other c k v i lt = ground arith

pub indices_lem :
    (counts : ℕ → ℕ) (rounds k : ℕ) (c : ℕ → ℕ) (j : ℕ)
    → ((i : ℕ) → k ≤ i → c i ≡ counts i)
    → k ≤ j
    → j < k + rounds
    → indices rounds k (sum_below counts k) c j ≡ sum_below counts j
unfolding indices
indices_lem counts zero k c j same from to = absurd (omega arith)
indices_lem counts (suc rounds) k c j same from to =
    rw (same k (omega arith), ← sum_below-suc counts k)
      (elim (first_or_later k j from) [
        | inl at ↦
            indices-old rounds (suc k) (sum_below counts (suc k)) (update c k (sum_below counts k))
              j (omega arith)
            ∙ subst (λ i. update c k (sum_below counts k) i ≡ sum_below counts i) at (ground arith)
        | inr later ↦
            indices_lem counts rounds (suc k) (update c k (sum_below counts k)) j
              (λ i lo. other c k (sum_below counts k) i lo ∙ same i (omega arith)) later
              (omega arith)
      ])

restore-above : (k : ℕ) (c : ℕ → ℕ) (j : ℕ) → k < j → restore k c j ≡ c j
unfolding restore
restore-above zero c j lt = refl
restore-above (suc k) c j lt = ground (arith, restore-above k (update c (suc k) (c k)) j)

earlier : (c : ℕ → ℕ) (k j : ℕ) → j < suc k → update c (suc k) (c k) j ≡ c j
earlier c k j lt = ground arith

pub sort-count :
    (n s : ℕ) (ls : List ℕ) (c p : ℕ → ℕ) (k : ℕ) → (sort n s ls c p).0 k ≡ c k + of_length k ls
unfolding sort
sort-count n s [] c p k = omega arith
sort-count n s (l ∷ ls) c p k =
    ground (arith, sort-count n (suc s) ls (update c l (c l + 1)) (update p (c l) (symbol n s)) k)

-- the place `q` is not one of those that the symbols of the length `k` take
abbrev Free : List ℕ → (ℕ → ℕ) → ℕ → Type 0
Free ls c q = (k : ℕ) → k ≤ 20 → (q < c k) ⊎ (c k + of_length k ls ≤ q)

-- the places of a length end before those of a longer one
abbrev pub Apart : List ℕ → (ℕ → ℕ) → Type 0
Apart ls c = (i j : ℕ) → i < j → j ≤ 20 → c i + of_length i ls ≤ c j

abbrev pub Short : List ℕ → Type 0
Short = All (λ l. l ≤ 20)

sort-keeps :
    (n s : ℕ) (ls : List ℕ) (c p : ℕ → ℕ) (q : ℕ)
    → Short ls
    → Free ls c q
    → (sort n s ls c p).1 q ≡ p q
unfolding sort
sort-keeps n s [] c p q short free = refl
sort-keeps n s (l ∷ ls) c p q short free =
    sort-keeps n (suc s) ls (update c l (c l + 1)) (update p (c l) (symbol n s)) q short.1
      (λ k le. ground (arith, free k le))
    ∙ ground (arith, free l short.0)

lower_or_same : (i k : ℕ) → (i < k) ⊎ (i ≡ k) ⊎ (k < i)
lower_or_same i k = omega arith

after_write :
    (k : ℕ) (after : List ℕ) (c : ℕ → ℕ) (i : ℕ)
    → i ≤ 20
    → k ≤ 20
    → Apart (k ∷ after) c
    → (c k + 0 < update c k (c k + 1) i) ⊎ (update c k (c k + 1) i + of_length i after ≤ c k + 0)
after_write k after c i le short apart = elim (lower_or_same i k) [
  | inl lt ↦ ground (arith, apart i k lt short)
  | inr (inl e) ↦ ground arith
  | inr (inr gt) ↦ ground (arith, apart k i gt le)
]

pub sort-places :
    (n s : ℕ) (before : List ℕ) (k : ℕ) (after : List ℕ) (c p : ℕ → ℕ)
    → Short (before ++ k ∷ after)
    → Apart (before ++ k ∷ after) c
    → (sort n s (before ++ k ∷ after) c p).1 (c k + of_length k before)
      ≡ symbol n (s + length before)
unfolding sort
sort-places n s [] k after c p short apart =
    sort-keeps n (suc s) after (update c k (c k + 1)) (update p (c k) (symbol n s)) (c k + 0)
      short.1 (λ i le. after_write k after c i le short.0 apart)
    ∙ ground arith
sort-places n s (x ∷ before) k after c p short apart =
    let written = update p (c x) (symbol n s) in
    let place : c k + of_length k (x ∷ before) ≡ update c x (c x + 1) k + of_length k before =
      ground arith in
    let named : suc s + length before ≡ s + length (x ∷ before) = omega arith in
    ap (sort n (suc s) (before ++ k ∷ after) (update c x (c x + 1)) written).1 place
    ∙ sort-places n (suc s) before k after (update c x (c x + 1)) written short.1
        (λ i j lt le. ground (arith, apart i j lt le))
    ∙ ap (symbol n) named

pub restore_lem : (k : ℕ) (c : ℕ → ℕ) (j : ℕ) → suc j ≤ k → restore k c (suc j) ≡ c j
unfolding restore
restore_lem zero c j le = absurd (omega arith)
restore_lem (suc k) c j le = elim (first_or_later (suc j) (suc k) le) [
  | inl at ↦
      restore-above k (update c (suc k) (c k)) (suc j) (omega arith)
      ∙ subst (λ i. update c (suc k) (c k) (suc j) ≡ c i) {x = k} (omega arith) (ground arith)
  | inr lower ↦ restore_lem k (update c (suc k) (c k)) j (omega arith) ∙ earlier c k j (omega arith)
]
