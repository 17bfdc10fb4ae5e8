-- ===== src/Shared/Bags.antt =====
-- Lists whose order does not matter: what holds of all or of some of their elements.
use mathlib.Core.Logic.{◌⊎◌, inl, inr}
use mathlib.Core.Path.{◌≡◌, refl, ap, ap₂, subst, ◌∙◌}
use mathlib.Core.List.{List, [], ◌∷◌, ◌++◌, Permᴰ}
use mathlib.Core.Bool.{Bool, true, false}
use Prim.Native.Nat.{ℕ, suc, ◌+◌, ◌<◌, ◌≤◌}
use native.Mathlib.Omega.{arith}
use lbzip.Shared.Tests.{Bool-cases}
use lbzip.Shared.Lists.{length, length-append}

abbrev pub one_if : Bool → ℕ
one_if true = 1
one_if false = 0

pub one_if_bounds : (b : Bool) → one_if b ≤ 1
one_if_bounds true = omega arith
one_if_bounds false = omega arith

module _ {ℓ} {A : Type ℓ} where
  abbrev pub All : (A → Type 0) → List A → Type 0
  All P [] = Unit
  All P (x ∷ xs) = P x × All P xs

  abbrev pub Any : (A → Type 0) → List A → Type 0
  Any P [] = ⊥
  Any P (x ∷ xs) = P x ⊎ Any P xs

  pub length-perm : {xs ys : List A} → Permᴰ xs ys → length xs ≡ length ys
  length-perm Permᴰ.nil = refl
  length-perm (Permᴰ.cons e p) = ap suc (length-perm p)
  length-perm (Permᴰ.swap e f) = refl
  length-perm (Permᴰ.trans p q) = length-perm p ∙ length-perm q

  pub All-perm : (P : A → Type 0) {xs ys : List A} → Permᴰ xs ys → All P xs → All P ys
  All-perm P Permᴰ.nil h = h
  All-perm P (Permᴰ.cons e p) h = (subst P e h.0, All-perm P p h.1)
  All-perm P (Permᴰ.swap e f) h = (subst P f h.1.0, (subst P e h.0, h.1.1))
  All-perm P (Permᴰ.trans p q) h = All-perm P q (All-perm P p h)

  pub Any-perm : (P : A → Type 0) {xs ys : List A} → Permᴰ xs ys → Any P xs → Any P ys
  Any-perm P Permᴰ.nil h = h
  Any-perm P (Permᴰ.cons e p) (inl h) = inl (subst P e h)
  Any-perm P (Permᴰ.cons e p) (inr h) = inr (Any-perm P p h)
  Any-perm P (Permᴰ.swap e f) (inl h) = inr (inl (subst P e h))
  Any-perm P (Permᴰ.swap e f) (inr (inl h)) = inl (subst P f h)
  Any-perm P (Permᴰ.swap e f) (inr (inr h)) = inr (inr h)
  Any-perm P (Permᴰ.trans p q) h = Any-perm P q (Any-perm P p h)

  pub All-append : (P : A → Type 0) (xs ys : List A) → All P xs → All P ys → All P (xs ++ ys)
  All-append P [] ys h k = k
  All-append P (x ∷ xs) ys h k = (h.0, All-append P xs ys h.1 k)

  -- An element is taken out of a list.
  pub All-middle :
      (P : A → Type 0) (before : List A) (x : A) (after : List A)
      → All P (before ++ x ∷ after)
      → P x × All P (before ++ after)
  All-middle P [] x after h = h
  All-middle P (y ∷ before) x after h =
      let rest = All-middle P before x after h.1 in (rest.0, (h.0, rest.1))

  pub length-middle :
      (before : List A) (x : A) (after : List A)
      → length (before ++ x ∷ after) ≡ suc (length (before ++ after))
  length-middle before x after =
      omega (arith, length-append before (x ∷ after), length-append before after)

  -- how many elements meet a test
  abbrev pub count_p : (A → Bool) → List A → ℕ
  count_p t [] = 0
  count_p t (x ∷ xs) = one_if (t x) + count_p t xs

  pub count_p-perm : (t : A → Bool) {xs ys : List A} → Permᴰ xs ys → count_p t xs ≡ count_p t ys
  count_p-perm t Permᴰ.nil = refl
  count_p-perm t (Permᴰ.cons e p) = ap₂ (λ m n. m + n) (ap (λ x. one_if (t x)) e) (count_p-perm t p)
  count_p-perm t (Permᴰ.swap {a} {b} {l = l} e f) =
      omega (arith, ap (λ x. one_if (t x)) e, ap (λ x. one_if (t x)) f)
  count_p-perm t (Permᴰ.trans p q) = count_p-perm t p ∙ count_p-perm t q

  pub count_p-append :
      (t : A → Bool) (xs ys : List A) → count_p t (xs ++ ys) ≡ count_p t xs + count_p t ys
  count_p-append t [] ys = omega arith
  count_p-append t (x ∷ xs) ys = omega (arith, count_p-append t xs ys)

  pub count_p-middle :
      (t : A → Bool) (before : List A) (x : A) (after : List A)
      → count_p t (before ++ x ∷ after) ≡ one_if (t x) + count_p t (before ++ after)
  count_p-middle t before x after =
      omega (arith, count_p-append t before (x ∷ after), count_p-append t before after)

  -- an element that is counted
  pub count_p-Any : (t : A → Bool) (xs : List A) → 0 < count_p t xs → Any (λ x. t x ≡ true) xs
  count_p-Any t [] h = elim h [ ]
  count_p-Any t (x ∷ xs) h = elim (Bool-cases (t x)) [
    | inl e ↦ inl e
    | inr e ↦ inr (count_p-Any t xs (omega (arith, ap one_if e)))
  ]

  pub Any-count_p : (t : A → Bool) (xs : List A) → Any (λ x. t x ≡ true) xs → 0 < count_p t xs
  Any-count_p t [] h = elim h [ ]
  Any-count_p t (x ∷ xs) (inl e) = omega (arith, ap one_if e)
  Any-count_p t (x ∷ xs) (inr e) = omega (arith, Any-count_p t xs e)

  pub count_p-le-length : (t : A → Bool) (xs : List A) → count_p t xs ≤ length xs
  count_p-le-length t [] = omega arith
  count_p-le-length t (x ∷ xs) = omega (arith, count_p-le-length t xs, one_if_bounds (t x))

  -- one that is counted, among others of which something holds
  pub found :
      (t : A → Bool) (P : A → Type 0) (xs : List A)
      → 0 < count_p t xs
      → All P xs
      → (x : A) × (t x ≡ true) × P x
  found t P [] h all = elim h [ ]
  found t P (x ∷ xs) h all = elim (Bool-cases (t x)) [
    | inl e ↦ (x, e, all.0)
    | inr e ↦ found t P xs (omega (arith, ap one_if e)) all.1
  ]

  pub count_p_mono :
      (t u : A → Bool) (xs : List A)
      → ((x : A) → t x ≡ true → u x ≡ true)
      → count_p t xs ≤ count_p u xs
  count_p_mono t u [] h = omega arith
  count_p_mono t u (x ∷ xs) h = elim (Bool-cases (t x)) [
    | inl e ↦ omega (arith, ap one_if e, ap one_if (h x e), count_p_mono t u xs h)
    | inr e ↦ omega (arith, ap one_if e, count_p_mono t u xs h)
  ]

  -- a sum over the elements
  abbrev pub total : (A → ℕ) → List A → ℕ
  total f [] = 0
  total f (x ∷ xs) = f x + total f xs

  pub total-perm : (f : A → ℕ) {xs ys : List A} → Permᴰ xs ys → total f xs ≡ total f ys
  total-perm f Permᴰ.nil = refl
  total-perm f (Permᴰ.cons e p) = ap₂ (λ m n. m + n) (ap f e) (total-perm f p)
  total-perm f (Permᴰ.swap e g) = omega (arith, ap f e, ap f g)
  total-perm f (Permᴰ.trans p q) = total-perm f p ∙ total-perm f q

  pub total-append : (f : A → ℕ) (xs ys : List A) → total f (xs ++ ys) ≡ total f xs + total f ys
  total-append f [] ys = omega arith
  total-append f (x ∷ xs) ys = omega (arith, total-append f xs ys)

  pub total-middle :
      (f : A → ℕ) (before : List A) (x : A) (after : List A)
      → total f (before ++ x ∷ after) ≡ f x + total f (before ++ after)
  total-middle f before x after =
      omega (arith, total-append f before (x ∷ after), total-append f before after)
