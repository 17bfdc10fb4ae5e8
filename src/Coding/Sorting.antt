-- ===== src/Coding/Sorting.antt =====
-- src/encode.c, sort_alphabet().
use lbzip.Shared.{ℕ, ◌≤◌, refl, List, [], ◌∷◌, ◌++◌, ltb, arith, Bool-cases, inl, inr}
use mathlib.Core.List.{Permᴰ}
use mathlib.Core.List.Permᴰ
use lbzip.Shared.Bags.{All, All-perm}
use lbzip.Coding.Merging.{shift_down, sort_onto, back_to_front, sort_alphabet}

shift_down-perm : (t : ℕ) (before : List ℕ) → Permᴰ (shift_down t before) (t ∷ before)
unfolding shift_down
shift_down-perm t [] = Permᴰ.refl (t ∷ [])
shift_down-perm t (b ∷ before) = elim (Bool-cases (ltb b t)) [
  | inl less ↦
      rw less (Permᴰ.trans (Permᴰ.cons refl (shift_down-perm t before)) (Permᴰ.swap refl refl))
  | inr not_less ↦ rw not_less (Permᴰ.refl (t ∷ b ∷ before))
]

sort_onto-perm : (before rest : List ℕ) → Permᴰ (sort_onto before rest) (rest ++ before)
unfolding sort_onto
sort_onto-perm before [] = Permᴰ.refl before
sort_onto-perm before (t ∷ rest) =
    Permᴰ.trans (sort_onto-perm (shift_down t before) rest)
      (Permᴰ.trans (Permᴰ.append_left rest (shift_down-perm t before)) (Permᴰ.middle t rest before))

back_to_front-perm : (xs done : List ℕ) → Permᴰ (back_to_front xs done) (xs ++ done)
unfolding back_to_front
back_to_front-perm [] done = Permᴰ.refl done
back_to_front-perm (x ∷ xs) done =
    Permᴰ.trans (back_to_front-perm xs (x ∷ done)) (Permᴰ.middle x xs done)

pub sort_alphabet-perm : (xs : List ℕ) → Permᴰ (sort_alphabet xs) xs
unfolding sort_alphabet
sort_alphabet-perm xs = Permᴰ.trans (back_to_front-perm (sort_onto [] xs) []) (
    Permᴰ.trans (Permᴰ.append-nil (sort_onto [] xs))
      (Permᴰ.trans (sort_onto-perm [] xs) (Permᴰ.append-nil xs)))

-- each element is no greater than those behind it
abbrev Ascending : List ℕ → Type 0
Ascending [] = Unit
Ascending (x ∷ xs) = All (λ y. x ≤ y) xs × Ascending xs

-- each element is no less than those behind it
abbrev pub Descending : List ℕ → Type 0
Descending [] = Unit
Descending (x ∷ xs) = All (λ y. y ≤ x) xs × Descending xs

All-map : (P Q : ℕ → Type 0) → ((x : ℕ) → P x → Q x) → (xs : List ℕ) → All P xs → All Q xs
All-map P Q f [] all = tt
All-map P Q f (x ∷ xs) all = (f x all.0, All-map P Q f xs all.1)

shift_down-Ascending :
    (t : ℕ) (before : List ℕ) → Ascending before → Ascending (shift_down t before)
unfolding shift_down
shift_down-Ascending t [] sorted = (tt, tt)
shift_down-Ascending t (b ∷ before) sorted = elim (Bool-cases (ltb b t)) [
  | inl less ↦ rw less (
    All-perm (λ y. b ≤ y) (Permᴰ.symm (shift_down-perm t before)) (ground arith, sorted.0),
    shift_down-Ascending t before sorted.1,
  )
  | inr not_less ↦
      let le : t ≤ b = ground arith in
      rw not_less (
        (le, All-map (λ y. b ≤ y) (λ y. t ≤ y) (λ y h. omega (arith, le, h)) before sorted.0),
        sorted,
      )
]

sort_onto-Ascending : (before rest : List ℕ) → Ascending before → Ascending (sort_onto before rest)
unfolding sort_onto
sort_onto-Ascending before [] sorted = sorted
sort_onto-Ascending before (t ∷ rest) sorted =
    sort_onto-Ascending (shift_down t before) rest (shift_down-Ascending t before sorted)

with_first :
    (x : ℕ) (done xs : List ℕ)
    → All (λ y. x ≤ y) xs
    → All (λ z. All (λ y. y ≤ z) done) xs
    → All (λ z. All (λ y. y ≤ z) (x ∷ done)) xs
with_first x done [] first all = tt
with_first x done (z ∷ xs) first all = ((first.0, all.0), with_first x done xs first.1 all.1)

All-nothing : (xs : List ℕ) → All (λ z. All (λ y. y ≤ z) []) xs
All-nothing [] = tt
All-nothing (x ∷ xs) = (tt, All-nothing xs)

back_to_front-Descending :
    (xs done : List ℕ)
    → Ascending xs
    → Descending done
    → All (λ x. All (λ y. y ≤ x) done) xs
    → Descending (back_to_front xs done)
unfolding back_to_front
back_to_front-Descending [] done up down above = down
back_to_front-Descending (x ∷ xs) done up down above =
    back_to_front-Descending xs (x ∷ done) up.1 (above.0, down) (with_first x done xs up.0 above.1)

-- The weights are put in descending order.
pub sort_alphabet-sorts :
    (xs : List ℕ) → Permᴰ (sort_alphabet xs) xs × Descending (sort_alphabet xs)
unfolding sort_alphabet
sort_alphabet-sorts xs = (
  sort_alphabet-perm xs,
  back_to_front-Descending (sort_onto [] xs) [] (sort_onto-Ascending [] xs tt) tt
      (All-nothing (sort_onto [] xs)),
)
