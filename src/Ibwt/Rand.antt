-- ===== src/Ibwt/Rand.antt =====
-- src/decode.c, decode(): the bytes of a randomised block are changed, and the list is formed again.
use lbzip.Shared.{
  ℕ, zero, suc, ◌+◌, ◌*◌, ◌/◌, ◌%◌, ◌^◌, ◌≤◌, ◌<◌, bit_xor, List, [], ◌∷◌, ◌≡◌, refl, sym, subst,
  ap, ap₂, ◌∙◌, true, false, Bool-cases, ◌-◌, ◌==◌, if◌then◌else◌, ◌⊎◌, ltb, leb, leb→le, get_or,
  set, length, inl, inr, arith,
}
use lbzip.Shared.Writes.{get_or-other, get_or-set, length-set}
use lbzip.Shared.Bits.{bit_xor-one}
use lbzip.Ibwt.Original.{unrandomized}
use lbzip.Shared.Table.{holds_below, holds_below_at}
use lbzip.Emit.Steps.{walk}
use lbzip.Ibwt.RandTable.{rand_table}
use lbzip.Ibwt.{flip, reform, rand_thresh}

positive_table : holds_below 512 (λ i. leb 2 (get_or rand_table i 0)) ≡ true
unfolding holds_below rand_table
positive_table = refl

positive : (i : ℕ) → 2 ≤ get_or rand_table ((i + 1) % 2 ^ 9) 0
positive i =
    leb→le 2 (get_or rand_table ((i + 1) % 2 ^ 9) 0)
      (holds_below_at 512 _ ((i + 1) % 2 ^ 9) positive_table (omega arith))

-- the low bytes of the entries from `i` on, `a` of them
unfoldable pub low_bytes : List ℕ → ℕ → ℕ → List ℕ
low_bytes t i zero = []
low_bytes t i (suc a) = (get_or t i 0 % 2 ^ 8) ∷ low_bytes t (suc i) a

reform_entry :
    (n i k : ℕ) (tt : List ℕ)
    → k < n
    → k < length tt
    → i + n < 2 ^ 24
    → get_or (reform n i tt) k 0 ≡ (i + k + 1) * 2 ^ 8 + get_or tt k 0 % 2 ^ 8
unfolding reform
reform_entry zero i k tt p q s = absurd (omega arith)
reform_entry (suc n) i k [] p q s = absurd (omega arith)
reform_entry (suc n) i zero (x ∷ tt) p q s = omega arith
reform_entry (suc n) i (suc k) (x ∷ tt) p q s =
    reform_entry n (i + 1) k tt (omega arith) (omega arith) (omega arith)
    ∙ ap (λ (j : ℕ). j * 2 ^ 8 + get_or tt k 0 % 2 ^ 8) (omega arith)

pub walk-reform :
    (size i p a : ℕ) (tt : List ℕ)
    → p / 2 ^ 8 ≡ i
    → i + a ≤ size
    → size ≤ length tt
    → size < 2 ^ 24
    → walk (reform size 0 tt) p a ≡ low_bytes tt i a
unfolding walk low_bytes
walk-reform size i p zero tt e le fits small = refl
walk-reform size i p (suc a) tt e le fits small =
    let entry : get_or (reform size 0 tt) (p / 2 ^ 8) 0 ≡ (i + 1) * 2 ^ 8 + get_or tt i 0 % 2 ^ 8 =
      rw e (
        reform_entry size 0 i tt (omega arith) (omega arith) (omega arith)
        ∙ ap (λ (j : ℕ). j * 2 ^ 8 + get_or tt i 0 % 2 ^ 8) (omega arith)) in
    ap₂ ◌∷◌ (ap (λ q. q % 2 ^ 8) entry ∙ omega arith) (
      walk-reform size (suc i) (get_or (reform size 0 tt) (p / 2 ^ 8) 0) a tt (omega (arith, entry))
        (omega arith) fits small)

pub length-flip : (n size i j : ℕ) (tt : List ℕ) → length (flip n size i j tt) ≡ length tt
unfolding flip
length-flip zero size i j tt = refl
length-flip (suc n) size i j tt = elim (Bool-cases (ltb j size)) [
  | inl less ↦ rw less (length-flip n size _ _ _ ∙ length-set tt j _)
  | inr done ↦ rw done refl
]

-- the entries before the first that is changed
flip-below :
    (n size i j : ℕ) (tt : List ℕ) (a : ℕ) → a < j → get_or (flip n size i j tt) a 0 ≡ get_or tt a 0
unfolding flip
flip-below zero size i j tt a lt = refl
flip-below (suc n) size i j tt a lt = elim (Bool-cases (ltb j size)) [
  | inl less ↦ rw less (
      flip-below n size _ _ _ a (omega (arith, positive i)) ∙ get_or-other tt j _ a 0 (omega arith))
  | inr done ↦ rw done refl
]

low_bytes-set : (tt : List ℕ) (j v a n : ℕ) → j < a → low_bytes (set tt j v) a n ≡ low_bytes tt a n
unfolding low_bytes
low_bytes-set tt j v a zero lt = refl
low_bytes-set tt j v a (suc n) lt =
    ap₂ (λ (x : ℕ) xs. x % 2 ^ 8 ∷ xs) (get_or-other tt j v a 0 (omega arith))
      (low_bytes-set tt j v (suc a) n (omega arith))

-- The counter starts again at 0.
starts_again :
    (pos n : ℕ) (xs : List ℕ)
    → get_or rand_table pos 0 ≡ suc n
    → unrandomized 0 pos xs ≡ unrandomized (suc n) (if pos == 511 then 0 else pos + 1) xs
unfolding unrandomized
starts_again pos n [] e = refl
starts_again pos n (x ∷ xs) e = let back : suc n - 1 ≡ n = omega arith in rw (e, back) refl

-- After a byte that is changed the counter goes through 0.
past_change :
    (pos n : ℕ) (xs : List ℕ)
    → get_or rand_table pos 0 ≡ suc (suc n)
    → unrandomized 1 pos xs
      ≡ unrandomized (suc (suc (suc n))) (if pos == 511 then 0 else pos + 1) xs
unfolding unrandomized
past_change pos n [] e = refl
past_change pos n (x ∷ xs) e =
    let far : (suc (suc n) == 1) ≡ false = ground arith in
    rw far (ap (λ ys. x ∷ ys) (starts_again pos (suc n) xs e))

-- the place in the table that the counter comes to after the one at `i`
abbrev after_place : ℕ → ℕ
after_place i = (i + 1) % 2 ^ 9

wraps :
    (i : ℕ) → (if after_place i == 511 then 0 else after_place i + 1) ≡ after_place (after_place i)
wraps i = ground arith

changed_byte : (x : ℕ) → bit_xor x 1 % 2 ^ 8 ≡ bit_xor (x % 2 ^ 8) 1
changed_byte x = omega (arith, bit_xor-one x, bit_xor-one (x % 2 ^ 8))

at_or_before : (a j : ℕ) → a ≤ j → (a ≡ j) ⊎ (a < j)
at_or_before a j le = omega arith

two_more : (i : ℕ) → (n : ℕ) × (get_or rand_table ((i + 1) % 2 ^ 9) 0 ≡ suc (suc n))
two_more i = (get_or rand_table ((i + 1) % 2 ^ 9) 0 - 2, omega (arith, positive i))

flip_changes :
    (m size i j : ℕ) (tt : List ℕ)
    → ltb j size ≡ true
    → flip (suc m) size i j tt
      ≡ flip m size
          (after_place i)
          (j + get_or rand_table (after_place i) 0)
          (set tt j (bit_xor (get_or tt j 0) 1))
unfolding flip
flip_changes m size i j tt less = rw less refl

-- From the byte at `a` on, of which the one at `j` is to be changed next, the loop changes what the
-- counter tells.
flip-from :
    (n m size i j a : ℕ) (tt : List ℕ)
    → a ≤ j
    → a + n ≡ size
    → size ≤ j + m
    → size ≤ length tt
    → low_bytes (flip m size i j tt) a n
      ≡ unrandomized (suc (suc (j - a))) (after_place i) (low_bytes tt a n)
unfolding low_bytes unrandomized
flip-from zero m size i j a tt le end enough fits = refl
flip-from (suc n) m size i j a tt le end enough fits = elim (at_or_before a j le) [
  | inr lt ↦
      let k : suc (j - a) ≡ suc (suc (j - suc a)) = omega arith in
      let not_yet : (suc (suc (j - suc a)) == 1) ≡ false = ground arith in
      rw (k, not_yet)
        (ap₂ (λ (x : ℕ) xs. x % 2 ^ 8 ∷ xs) (flip-below m size i j tt a lt)
          (flip-from n m size i j (suc a) tt lt (omega arith) enough fits))
  | inl here ↦
      let (m', more) : (m' : ℕ) × (m ≡ suc m') = (m - 1, omega arith) in
      let inside : ltb j size ≡ true = ground arith in
      let (t, two) = two_more i in
      let now : suc (j - a) ≡ 1 = omega arith in
      let v = bit_xor (get_or tt j 0) 1 in
      let next = j + get_or rand_table ((i + 1) % 2 ^ 9) 0 in
      let left : suc (suc (next - suc a)) ≡ suc (suc (suc t)) = omega arith in
      let rest =
        flip-from n m' size ((i + 1) % 2 ^ 9) next (suc a) (set tt j v) (omega arith) (omega arith)
          (omega arith) (omega (arith, length-set tt j v)) in
      let bytes = low_bytes tt (suc a) n in
      let pos = after_place i in
      let step : flip m size i j tt ≡ flip m' size pos next (set tt j v) =
        ap (λ k. flip k size i j tt) more ∙ flip_changes m' size i j tt inside in
      let head : get_or (flip m' size pos next (set tt j v)) a 0 ≡ bit_xor (get_or tt a 0) 1 =
        flip-below m' size pos next (set tt j v) a (omega (arith, here, two))
        ∙ subst (λ b. get_or (set tt j v) b 0 ≡ bit_xor (get_or tt b 0) 1) (sym here)
            (get_or-set tt j v 0 (omega arith)) in
      ap (λ ys. low_bytes ys a (suc n)) step
      ∙ rw now (
          ap₂ (λ (x : ℕ) (xs : List ℕ). x ∷ xs)
            (ap (λ (x : ℕ). x % 2 ^ 8) head ∙ changed_byte (get_or tt a 0))
            (rest
              ∙ ap (unrandomized (suc (suc (next - suc a))) (after_place pos))
                  (low_bytes-set tt j v (suc a) n (omega arith))
              ∙ ap (λ k. unrandomized k (after_place pos) bytes) left
              ∙ sym (
                  past_change pos t bytes two
                  ∙ ap (λ q. unrandomized (suc (suc (suc t))) q bytes) (wraps i))))
]

-- The loop changes the bytes that the format tells.
pub flip-unrandomized :
    (size : ℕ) (tt : List ℕ)
    → size ≤ length tt
    → low_bytes (flip size size 0 rand_thresh tt) 0 size ≡ unrandomized 0 0 (low_bytes tt 0 size)
unfolding rand_table
flip-unrandomized size tt fits =
    flip-from size size size 0 rand_thresh 0 tt (omega arith) (omega arith) (omega arith) fits
    ∙ sym (starts_again 0 618 (low_bytes tt 0 size) refl)
