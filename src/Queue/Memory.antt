-- ===== src/Queue/Memory.antt =====
-- src/process.c, src/process.h: the array behind a queue of the scheduler, as a function of the
-- index, and the bag of what its first places hold.
use lbzip.Shared.{
  ℕ, zero, suc, ◌<◌, ◌≤◌, ◌≢◌, List, [], ◌∷◌, ◌≡◌, refl, sym, ap, ap₂, ◌∙◌, inl, inr, subst,
  Bool-cases, false, ◌==◌, ==→eq, if◌then◌else◌, arith,
}
use mathlib.Core.List.{Permᴰ}
use mathlib.Core.List.Permᴰ

pub suc-ne_zero : (k : ℕ) → (suc k == 0) ≡ false
suc-ne_zero k = ground arith

module _ {A : Type 0} where
  -- `root[j] = x`
  unfoldable pub put : (ℕ → A) → ℕ → A → ℕ → A
  put f j x i = if i == j then x else f i

  pub put_at : (f : ℕ → A) (j : ℕ) (x : A) → put f j x j ≡ x
  unfolding put
  put_at f j x = ground arith

  pub put_off : (f : ℕ → A) (j : ℕ) (x : A) (i : ℕ) → i ≢ j → put f j x i ≡ f i
  unfolding put
  put_off f j x i h = ground arith

  -- `root[0]` to `root[n - 1]`, the last one first
  unfoldable pub first : (ℕ → A) → ℕ → List A
  first f zero = []
  first f (suc n) = f n ∷ first f n

  pub Perm_of_eq : {xs ys : List A} → xs ≡ ys → Permᴰ xs ys
  Perm_of_eq {xs} e = subst (Permᴰ xs) e (Permᴰ.refl xs)

  pub first_ext : (f g : ℕ → A) (n : ℕ) → ((i : ℕ) → i < n → f i ≡ g i) → first f n ≡ first g n
  unfolding first
  first_ext f g zero h = refl
  first_ext f g (suc n) h =
      ap₂ (λ x xs. x ∷ xs) (h n (omega arith)) (first_ext f g n (λ i p. h i (omega arith)))

  pub first-put_beyond :
      (f : ℕ → A) (j : ℕ) (x : A) (n : ℕ) → n ≤ j → first (put f j x) n ≡ first f n
  first-put_beyond f j x n h =
      first_ext (put f j x) f n (λ i p. put_off f j x i (λ e. omega (arith, e)))

  -- Two values change places, one of them outside of the array.
  pub first-put_exchange :
      (f : ℕ → A) (j : ℕ) (x y : A) (n : ℕ)
      → j < n
      → Permᴰ (x ∷ first (put f j y) n) (y ∷ first (put f j x) n)
  unfolding first
  first-put_exchange f j x y zero h = elim h [ ]
  first-put_exchange f j x y (suc n) h = elim (Bool-cases (n == j)) [
    | inl same ↦
        let e = ==→eq n j same in
        let at = λ (z : A). ap (put f j z) e ∙ put_at f j z in
        let below = λ (z : A). first-put_beyond f j z n (omega (arith, e)) in
        Permᴰ.trans (Perm_of_eq (λ i. x ∷ at y i ∷ below y i)) (
          Permᴰ.trans (Permᴰ.swap refl refl) (Perm_of_eq (λ i. y ∷ sym (at x) i ∷ sym (below x) i)))
    | inr other ↦
        let off : n ≢ j = ground arith in
        let at = λ (z : A). put_off f j z n off in
        Permᴰ.trans (Perm_of_eq (λ i. x ∷ at y i ∷ first (put f j y) n)) (
          Permᴰ.trans (Permᴰ.swap refl refl) (
            Permᴰ.trans (Permᴰ.cons refl (first-put_exchange f j x y n (ground arith))) (
              Permᴰ.trans (Permᴰ.swap refl refl)
                (Perm_of_eq (λ i. y ∷ sym (at x) i ∷ first (put f j x) n)))))
  ]

  pub put_self : (f : ℕ → A) (k i : ℕ) → f i ≡ put f k (f k) i
  unfolding put
  put_self f k i = ground (arith, λ (e : i ≡ k). ap f e)

  pub put_under : (f : ℕ → A) (n k i : ℕ) (x y : A) → i < n → put (put f n y) k x i ≡ put f k x i
  unfolding put
  put_under f n k i x y h = ground arith

  -- The hole moves from one place to another, as the loops of the heap move it.
  pub first-put_move :
      (f : ℕ → A) (j k : ℕ) (x : A) (n : ℕ)
      → j < n
      → k < n
      → j ≢ k
      → Permᴰ (first (put (put f j (f k)) k x) n) (first (put f j x) n)
  unfolding first
  first-put_move f j k x zero hj hk apart = elim hj [ ]
  first-put_move f j k x (suc n) hj hk apart = elim (Bool-cases (n == j)) [
    | inl top ↦
        let e = ==→eq n j top in
        let lower : k < n = omega (arith, e, λ (p : k ≡ j). apart (sym p)) in
        let head : put (put f j (f k)) k x n ≡ f k =
          put_off (put f j (f k)) k x n (omega arith) ∙ ap (put f j (f k)) e ∙ put_at f j (f k) in
        let tail : first (put (put f j (f k)) k x) n ≡ first (put f k x) n =
          first_ext _ _ n (λ i p. put_under f j k i x (f k) (omega (arith, e))) in
        let head' : x ≡ put f j x n = sym (ap (put f j x) e ∙ put_at f j x) in
        let tail' : first (put f k (f k)) n ≡ first (put f j x) n =
          first_ext _ _ n
            (λ i p. sym (put_self f k i) ∙ sym (put_off f j x i (omega (arith, e)))) in
        Permᴰ.trans (Perm_of_eq (λ i. head i ∷ tail i)) (
          Permᴰ.trans (first-put_exchange f k (f k) x n lower)
            (Perm_of_eq (λ i. head' i ∷ tail' i)))
    | inr not_j ↦ elim (Bool-cases (n == k)) [
      | inl top ↦
          let e = ==→eq n k top in
          let lower : j < n = omega (arith, e, apart) in
          let head : put (put f j (f k)) k x n ≡ x =
            ap (put (put f j (f k)) k x) e ∙ put_at _ k x in
          let tail : first (put (put f j (f k)) k x) n ≡ first (put f j (f k)) n =
            first-put_beyond _ k x n (omega (arith, e)) in
          let head' : f k ≡ put f j x n = ap f (sym e) ∙ sym (put_off f j x n (omega arith)) in
          Permᴰ.trans (Perm_of_eq (λ i. head i ∷ tail i)) (
            Permᴰ.trans (first-put_exchange f j x (f k) n lower)
              (Perm_of_eq (λ i. head' i ∷ first (put f j x) n)))
      | inr not_k ↦
          let off_j : n ≢ j = ground arith in
          let off_k : n ≢ k = ground arith in
          let head : put (put f j (f k)) k x n ≡ put f j x n =
            put_off _ k x n off_k ∙ put_off f j (f k) n off_j ∙ sym (put_off f j x n off_j) in
          Permᴰ.cons head (first-put_move f j k x n (omega arith) (omega arith) apart)
    ]
  ]
