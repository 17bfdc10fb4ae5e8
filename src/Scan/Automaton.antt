-- ===== src/Scan/Automaton.antt =====
-- src/scantab.h: the automaton of the scanner, against the pattern that it looks for.
use lbzip.Shared.{
  ℕ, zero, suc, ◌-◌, ◌/◌, ◌%◌, ◌^◌, ◌≤◌, ◌<◌, ◌≡◌, refl, ap, Bool, true, false, ◌&&◌, ◌||◌, not,
  List, [], ◌∷◌, arith, leb, leb→le, ==→eq, &&→both, ◌==◌, length, Bool-cases, inl, inr,
}
use lbzip.Shared.Table.{holds_below, holds_below_at}
use lbzip.Scan.{mini_step}
use lbzip.Scan.Tables.{accept}

-- the 48 bits of the magic number, the first `k` of them from the last to the first
unfoldable pub pattern_rev : ℕ → List ℕ
pattern_rev zero = []
pattern_rev (suc k) = (0x314159265359 / 2 ^ (47 - k) % 2) ∷ pattern_rev k

unfoldable pub starts_with : List ℕ → List ℕ → Bool
starts_with [] ys = true
starts_with (x ∷ xs) [] = false
starts_with (x ∷ xs) (y ∷ ys) = x == y && starts_with xs ys

-- The bits seen so far, the last one first, end in the first `k` bits of the pattern.
abbrev pub EndsIn : ℕ → List ℕ → Type 0
EndsIn k h = starts_with (pattern_rev k) h ≡ true

-- `s` is the length of the longest beginning of the pattern in which the bits end.
pub record Tracks (s : ℕ) (h : List ℕ) : Type 0 where
  pub partial : EndsIn s h
  pub longest : (k : ℕ) → k ≤ 48 → EndsIn k h → k ≤ s

sound_table :
    holds_below 48 (λ s. holds_below 2 (λ b.
      leb (mini_step s b) 48 && starts_with (pattern_rev (mini_step s b)) (b ∷ pattern_rev s)))
    ≡ true
unfolding holds_below mini_step starts_with pattern_rev
sound_table = refl

longest_table :
    holds_below 48 (λ s. holds_below 2 (λ b.
      holds_below 49
        (λ k. not (starts_with (pattern_rev k) (b ∷ pattern_rev s)) || leb k (mini_step s b))))
    ≡ true
unfolding holds_below mini_step starts_with pattern_rev
longest_table = refl

step_table :
    (s b : ℕ)
    → s < 48
    → b < 2
    → (mini_step s b ≤ 48) × (starts_with (pattern_rev (mini_step s b)) (b ∷ pattern_rev s) ≡ true)
step_table s b p q =
    let both = &&→both _ _ (holds_below_at 2 _ b (holds_below_at 48 _ s sound_table p) q) in
    (leb→le _ _ both.0, both.1)

pub mini_step-le : (s b : ℕ) → s < 48 → b < 2 → mini_step s b ≤ 48
mini_step-le s b p q = (step_table s b p q).0

longest_step :
    (s b k : ℕ)
    → s < 48
    → b < 2
    → k ≤ 48
    → starts_with (pattern_rev k) (b ∷ pattern_rev s) ≡ true
    → k ≤ mini_step s b
longest_step s b k p q r h =
    let holds =
      holds_below_at 49 _ k (holds_below_at 2 _ b (holds_below_at 48 _ s longest_table p) q)
        (omega arith) in
    ground arith

starts_with_trans :
    (xs ys zs : List ℕ)
    → starts_with xs ys ≡ true
    → starts_with ys zs ≡ true
    → starts_with xs zs ≡ true
unfolding starts_with
starts_with_trans [] ys zs p q = refl
starts_with_trans (x ∷ xs) [] zs p q = cc
starts_with_trans (x ∷ xs) (y ∷ ys) [] p q = cc
starts_with_trans (x ∷ xs) (y ∷ ys) (z ∷ zs) p q = ground (arith, starts_with_trans xs ys zs)

-- Of two beginnings of one list the shorter one is a beginning of the longer one.
starts_with-compare :
    (xs ys zs : List ℕ)
    → starts_with xs zs ≡ true
    → starts_with ys zs ≡ true
    → length xs ≤ length ys
    → starts_with xs ys ≡ true
unfolding starts_with
starts_with-compare [] ys zs p q h = refl
starts_with-compare (x ∷ xs) [] zs p q h = absurd (omega arith)
starts_with-compare (x ∷ xs) (y ∷ ys) [] p q h = cc
starts_with-compare (x ∷ xs) (y ∷ ys) (z ∷ zs) p q h = ground (arith, starts_with-compare xs ys zs)

length-pattern : (k : ℕ) → length (pattern_rev k) ≡ k
unfolding pattern_rev
length-pattern zero = refl
length-pattern (suc k) = ap suc (length-pattern k)

-- A step of the automaton on a bit keeps track of the bits seen.
pub mini_step-Tracks :
    (s b : ℕ) (h : List ℕ)
    → s < 48
    → b < 2
    → Tracks s h
    → Tracks (mini_step s b) (b ∷ h) × (mini_step s b ≤ 48)
unfolding starts_with pattern_rev
mini_step-Tracks s b h p q t =
    let (bound, sound) = step_table s b p q in
    (
      record {
        partial =
            starts_with_trans (pattern_rev (mini_step s b)) (b ∷ pattern_rev s) (b ∷ h) sound
              (ground (arith, t.partial));
        longest = longest;
      },
      bound,
    )
  where
    longest : (k : ℕ) → k ≤ 48 → EndsIn k (b ∷ h) → k ≤ mini_step s b
    longest zero r e = omega arith
    longest (suc k) r e =
        let both =
          &&→both (0x314159265359 / 2 ^ (47 - k) % 2 == b) (starts_with (pattern_rev k) h) e in
        let within =
          starts_with-compare (pattern_rev k) (pattern_rev s) h both.1 t.partial
            (omega (arith, length-pattern k, length-pattern s, t.longest k (omega arith) both.1)) in
        longest_step s b (suc k) p q r (ground (arith, both.0, within))

pub Tracks-start : Tracks 0 []
unfolding starts_with pattern_rev
Tracks-start = record { partial = refl; longest = longest }
  where
    longest : (k : ℕ) → k ≤ 48 → EndsIn k [] → k ≤ 0
    longest zero r e = omega arith
    longest (suc k) r e = cc

-- In the accepting state, and in no other, the last 48 bits are the magic number.
pub Tracks-accept :
    (s : ℕ) (h : List ℕ) → Tracks s h → s ≤ 48 → (s == accept) ≡ starts_with (pattern_rev 48) h
Tracks-accept s h t le = elim (Bool-cases (starts_with (pattern_rev 48) h)) [
  | inl e ↦ rw e (ground (arith, t.longest 48 (omega arith) e))
  | inr e ↦ rw e (elim (Bool-cases (s == accept)) [
    | inl full ↦
        let is_full : s ≡ 48 = ==→eq s 48 full in
        cc (ap (λ (k : ℕ). starts_with (pattern_rev k) h) is_full, t.partial)
    | inr part ↦ part
  ])
]
