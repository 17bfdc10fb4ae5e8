-- ===== src/Prefix/Search.antt =====
-- src/decode.c, make_tree() and retrieve(): the search for the length of a code by the bases.
use lbzip.Shared.{
  ℕ, zero, suc, ◌+◌, ◌-◌, ◌*◌, ◌%◌, ◌^◌, ◌≤◌, ◌<◌, ◌≡◌, refl, sym, ◌∙◌, true, ltb, arith, ◌⊎◌, inl,
  inr, subst, get_or,
}
use lbzip.Prefix.{incomplete, climb}
use lbzip.Prefix.Base.{first_or_later}

pub climb_found :
    (fuel : ℕ) (b : ℕ → ℕ) (v k k' : ℕ)
    → k' ≤ k
    → k ≤ k' + fuel
    → ((j : ℕ) → k' ≤ j → j < k → b (j + 1) ≤ v)
    → v < b (k + 1)
    → climb fuel b v k' ≡ k
unfolding climb
climb_found zero b v k k' lo hi below above = omega arith
climb_found (suc fuel) b v k k' lo hi below above = elim (first_or_later k' k lo) [
  | inl at ↦ ground arith
  | inr later ↦ ground (
    arith,
    below k',
    climb_found fuel b v k (k' + 1) (omega arith) (omega arith) (λ j l. below j (omega arith)),
  )
]

-- Where the search stops, it has not begun, or the base has been reached.
climb_reached :
    (fuel : ℕ) (b : ℕ → ℕ) (v k : ℕ)
    → k ≤ climb fuel b v k
      × climb fuel b v k ≤ k + fuel
      × ((climb fuel b v k ≡ k) ⊎ (b (climb fuel b v k) ≤ v))
unfolding climb
climb_reached zero b v k = (omega arith, omega arith, inl refl)
climb_reached (suc fuel) b v k = ground (arith, climb_reached fuel b v (k + 1))

-- the search has stopped at its beginning, or at a base that has been reached
abbrev pub Reached : (ℕ → ℕ) → ℕ → ℕ → ℕ → Type 0
Reached b v k k' = (k' ≡ k) ⊎ (b k' ≤ v)

further :
    (b : ℕ → ℕ) {v v' k k₁ k₂ : ℕ}
    → v ≤ v'
    → Reached b v k k₁
    → Reached b v' k₁ k₂
    → Reached b v' k k₂
further b le (inl e) (inl e') = inl (e' ∙ e)
further b {v' = v'} le (inr h) (inl e') = inr (subst (λ i. b i ≤ v') (sym e') (omega arith))
further b le _ (inr h) = inr h

-- a round later, where the sum has not overflown
next_round :
    (rounds k sofar : ℕ) (b : ℕ → ℕ) (i : ℕ)
    → sofar + suc rounds * 2 ^ 54 ≤ 2 ^ 64
    → suc i < suc rounds
    → (sofar + 2 ^ 54 + rounds * 2 ^ 54 ≤ 2 ^ 64
        → (k ≤ get_or (incomplete rounds k (sofar + 2 ^ 54) b) i 0)
          × Reached b
              (sofar + 2 ^ 54 + i * 2 ^ 54)
              k
              (get_or (incomplete rounds k (sofar + 2 ^ 54) b) i 0))
    → (k ≤ get_or (incomplete rounds k ((sofar + 2 ^ 54) % 2 ^ 64) b) i 0)
      × Reached b
          (sofar + suc i * 2 ^ 54)
          k
          (get_or (incomplete rounds k ((sofar + 2 ^ 54) % 2 ^ 64) b) i 0)
next_round rounds k sofar b i fits lt later =
    let sum : (sofar + 2 ^ 54) % 2 ^ 64 ≡ sofar + 2 ^ 54 = omega arith in
    let place : sofar + suc i * 2 ^ 54 ≡ sofar + 2 ^ 54 + i * 2 ^ 54 = omega arith in
    rw (sum, place) (later (omega arith))

pub incomplete_at :
    (rounds k sofar : ℕ) (b : ℕ → ℕ) (i : ℕ)
    → sofar + rounds * 2 ^ 54 ≤ 2 ^ 64
    → i < rounds
    → (k ≤ get_or (incomplete rounds k sofar b) i 0)
      × Reached b (sofar + i * 2 ^ 54) k (get_or (incomplete rounds k sofar b) i 0)
unfolding incomplete
incomplete_at zero k sofar b i fits lt = elim lt [ ]
incomplete_at (suc rounds) k sofar b zero fits lt =
    let stops = climb_reached 20 b sofar k in
    let still : sofar ≤ sofar + 0 * 2 ^ 54 = omega arith in
    (stops.0, further b still stops.2 (inl refl))
incomplete_at (suc rounds) k sofar b (suc i) fits lt =
    let stops = climb_reached 20 b sofar k in
    let rest = next_round rounds (climb 20 b sofar k) sofar b i fits lt (λ fits'.
      incomplete_at rounds (climb 20 b sofar k) (sofar + 2 ^ 54) b i fits' (omega arith)) in
    (omega (arith, stops.0, rest.0), further b (omega arith) stops.2 rest.1)

-- The search does not pass the last base, which is greater than any window.
climb-top : (fuel : ℕ) (b : ℕ → ℕ) (v k : ℕ) → k ≤ 20 → v < b 21 → climb fuel b v k ≤ 20
unfolding climb
climb-top zero b v k le top = le
climb-top (suc fuel) b v k le top = elim (first_or_later k 20 le) [
  | inl at ↦
      let last : ltb v (b (k + 1)) ≡ true =
        subst (λ i. ltb v (b (i + 1)) ≡ true) (sym at) (ground arith) in
      ground arith
  | inr earlier ↦ ground (arith, climb-top fuel b v (k + 1))
]

pub incomplete-top :
    (rounds k sofar : ℕ) (b : ℕ → ℕ) (i : ℕ)
    → sofar + rounds * 2 ^ 54 ≤ 2 ^ 64
    → k ≤ 20
    → b 21 ≡ 2 ^ 64 - 1
    → get_or (incomplete rounds k sofar b) i 0 ≤ 20
unfolding incomplete
incomplete-top zero k sofar b i fits le top = omega arith
incomplete-top (suc rounds) k sofar b zero fits le top = climb-top 20 b sofar k le (omega arith)
incomplete-top (suc rounds) k sofar b (suc i) fits le top =
    incomplete-top rounds (climb 20 b sofar k) ((sofar + 2 ^ 54) % 2 ^ 64) b i (omega arith)
      (climb-top 20 b sofar k le (omega arith)) top
