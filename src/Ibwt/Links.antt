-- ===== src/Ibwt/Links.antt =====
-- src/decode.c, decode(): the counts as indices, and the loop that links the nodes.
use lbzip.Shared.{
  ℕ, zero, suc, ◌+◌, ◌*◌, ◌/◌, ◌%◌, ◌^◌, ◌≤◌, ◌<◌, ◌≡◌, refl, sym, ◌∙◌, ap, List, [], ◌∷◌, ◌==◌,
  if◌then◌else◌, get_or, set, length, arith, ◌⊎◌, inl, inr, subst,
}
use lbzip.Shared.Writes.{get_or-other, get_or-set, length-set}
use lbzip.Prefix.Sums.{sum_below, sum_below-suc, sum_below_mono}
use lbzip.Ibwt.{cumulate, link}
use lbzip.Ibwt.Original.{seen}
use lbzip.Ibwt.Columns.{one_byte}

pub same_or_other : (u v : ℕ) → (u ≡ v) ⊎ ¬ (u ≡ v)
same_or_other u v = omega arith

sum_shift :
    (f : ℕ) (fs : List ℕ) (k : ℕ)
    → sum_below (λ v. get_or (f ∷ fs) v 0) (suc k) ≡ f + sum_below (λ v. get_or fs v 0) k
unfolding sum_below
sum_shift f fs zero = omega arith
sum_shift f fs (suc k) = omega (arith, sum_shift f fs k)

sum_next :
    (cum f : ℕ) (fs : List ℕ)
    → cum + sum_below (λ v. get_or (f ∷ fs) v 0) (length (f ∷ fs)) < 2 ^ 32
    → (cum + f) % 2 ^ 32 ≡ cum + f
sum_next cum f fs fits = omega (arith, sum_shift f fs (length fs))

-- The sum of the counts, where it fits
pub cumulate-sum :
    (cum : ℕ) (fs : List ℕ)
    → cum + sum_below (λ v. get_or fs v 0) (length fs) < 2 ^ 32
    → (cumulate cum fs).1 ≡ cum + sum_below (λ v. get_or fs v 0) (length fs)
unfolding cumulate
cumulate-sum cum [] fits = unfold sum_below in omega arith
cumulate-sum cum (f ∷ fs) fits =
    let total = sum_shift f fs (length fs) in
    rw (sum_next cum f fs fits)
      (cumulate-sum (cum + f) fs (omega (arith, total)) ∙ omega (arith, total))

pub length-cumulate : (cum : ℕ) (fs : List ℕ) → length (cumulate cum fs).0 ≡ length fs
unfolding cumulate
length-cumulate cum [] = refl
length-cumulate cum (f ∷ fs) = ap suc (length-cumulate ((cum + f) % 2 ^ 32) fs)

-- Each count becomes the sum of those before.
pub cumulate-each :
    (cum : ℕ) (fs : List ℕ) (u : ℕ)
    → cum + sum_below (λ v. get_or fs v 0) (length fs) < 2 ^ 32
    → u < length fs
    → get_or (cumulate cum fs).0 u 0 ≡ cum + sum_below (λ v. get_or fs v 0) u
unfolding cumulate
cumulate-each cum [] u fits lt = absurd (omega arith)
cumulate-each cum (f ∷ fs) zero fits lt = unfold sum_below in omega (arith, sum_next cum f fs fits)
cumulate-each cum (f ∷ fs) (suc u) fits lt =
    let total = sum_shift f fs (length fs) in
    rw (sum_next cum f fs fits) (
      cumulate-each (cum + f) fs u (omega (arith, total)) (omega arith)
      ∙ omega (arith, sum_shift f fs u))

-- After `i` nodes of `tt₀`, where the byte `u` starts at the sum of the counts `f` below `u`: its first
-- places have been linked to its first nodes, and the others not yet.
pub record Linked (tt₀ : List ℕ) (f : ℕ → ℕ) (size i : ℕ) (ftab tt : List ℕ) : Type 0 where
  pub all_bytes : length ftab ≡ 256
  pub fits : size ≤ length tt
  pub index : (u : ℕ) → u < 256 → get_or ftab u 0 ≡ sum_below f u + seen tt₀ u i
  pub low : (j : ℕ) → j < size → get_or tt j 0 % 2 ^ 8 ≡ get_or tt₀ j 0
  pub linked :
      (u j : ℕ)
      → u < 256
      → sum_below f u ≤ j
      → j < sum_below f u + seen tt₀ u i
      → (get_or tt j 0 / 2 ^ 8 < i)
        × (get_or tt₀ (get_or tt j 0 / 2 ^ 8) 0 ≡ u)
        × (sum_below f u + seen tt₀ u (get_or tt j 0 / 2 ^ 8) ≡ j)
  pub free :
      (u j : ℕ)
      → u < 256
      → sum_below f u + seen tt₀ u i ≤ j
      → j < sum_below f (suc u)
      → get_or tt j 0 < 2 ^ 8

module _ (tt₀ : List ℕ) (f : ℕ → ℕ) (size : ℕ) (small : size < 2 ^ 24)
    (bytes : (j : ℕ) → j < size → get_or tt₀ j 0 < 256)
    (counted : (u : ℕ) → u < 256 → f u ≡ seen tt₀ u size) (whole : sum_below f 256 ≡ size) where
  seen-suc : (u i : ℕ) → seen tt₀ u (suc i) ≡ seen tt₀ u i + (if get_or tt₀ i 0 == u then 1 else 0)
  seen-suc u i = sum_below-suc (λ j. if get_or tt₀ j 0 == u then 1 else 0) i

  seen_most : (u i : ℕ) → u < 256 → i ≤ size → sum_below f u + seen tt₀ u i ≤ sum_below f (suc u)
  seen_most u i lt le = omega (
    arith,
    sum_below-suc f u,
    counted u lt,
    sum_below_mono (λ j. if get_or tt₀ j 0 == u then 1 else 0) i size le,
  )

  -- Another node is linked: the next of its byte `uc`, at the place `at`.
  module _ (i : ℕ) (ftab tt : List ℕ) (uc at v : ℕ) (lt : i < size)
      (l : Linked tt₀ f size i ftab tt) (named : get_or tt₀ i 0 ≡ uc)
      (found : get_or ftab uc 0 ≡ at) (value : v ≡ get_or tt at 0 + i * 2 ^ 8) where
    is_byte : uc < 256
    is_byte = omega (arith, bytes i lt)

    one_more : seen tt₀ uc (suc i) ≡ suc (seen tt₀ uc i)
    one_more = ground (arith, seen-suc uc i)

    no_more : (u : ℕ) → ¬ (u ≡ uc) → seen tt₀ u (suc i) ≡ seen tt₀ u i
    no_more u ne = ground (arith, seen-suc u i)

    at_place : at ≡ sum_below f uc + seen tt₀ uc i
    at_place = sym found ∙ l.index uc is_byte

    at_end : at < sum_below f (suc uc)
    at_end = omega (arith, at_place, one_more, seen_most uc (suc i) is_byte lt)

    inside : at < size
    inside =
        omega
          (arith, at_end, whole, is_byte, sum_below_mono f (suc uc) 256 (omega (arith, is_byte)))

    was_free : get_or tt at 0 < 2 ^ 8
    was_free = l.free uc at is_byte (omega (arith, at_place)) at_end

    at_byte : (u j : ℕ) → j ≡ at → sum_below f u ≤ j → j < sum_below f (suc u) → u ≡ uc
    at_byte u j e lo hi = one_byte f u uc j lo hi (omega (arith, at_place)) (omega (arith, at_end))

    step_index :
        (u : ℕ) → u < 256 → get_or (set ftab uc (suc at)) u 0 ≡ sum_below f u + seen tt₀ u (suc i)
    step_index u is = elim (same_or_other u uc) [
      | inl e ↦ rw e (
          get_or-set ftab uc (suc at) 0 (omega (arith, is_byte, l.all_bytes))
          ∙ omega (arith, at_place, one_more))
      | inr ne ↦
          get_or-other ftab uc (suc at) u 0 ne
          ∙ l.index u is
          ∙ ap (λ (n : ℕ). sum_below f u + n) (sym (no_more u ne))
    ]

    written : (j : ℕ) → j ≡ at → get_or (set tt at v) j 0 ≡ v
    written j e = rw e (get_or-set tt at v 0 (omega (arith, inside, l.fits)))

    step_linked :
        (u j : ℕ)
        → u < 256
        → sum_below f u ≤ j
        → j < sum_below f u + seen tt₀ u (suc i)
        → (get_or (set tt at v) j 0 / 2 ^ 8 < suc i)
          × (get_or tt₀ (get_or (set tt at v) j 0 / 2 ^ 8) 0 ≡ u)
          × (sum_below f u + seen tt₀ u (get_or (set tt at v) j 0 / 2 ^ 8) ≡ j)
    step_linked u j is lo hi = elim (same_or_other j at) [
      | inl e ↦
          let byte : u ≡ uc = at_byte u j e lo (omega (arith, seen_most u (suc i) is lt)) in
          let node : get_or (set tt at v) j 0 / 2 ^ 8 ≡ i =
            omega (arith, written j e, value, was_free) in
          rw (node, byte) (omega arith, named, omega (arith, at_place))
      | inr ne ↦
          let before : j < sum_below f u + seen tt₀ u i = elim (same_or_other u uc) [
            | inl e ↦
                subst (λ w. j < sum_below f w + seen tt₀ w i) (sym e)
                  (omega (
                    arith,
                    at_place,
                    one_more,
                    subst (λ w. j < sum_below f w + seen tt₀ w (suc i)) e hi,
                  ))
            | inr other ↦ omega (arith, no_more u other)
          ] in
          let (lower, byte, place) = l.linked u j is lo before in
          rw (get_or-other tt at v j 0 ne) (omega (arith, lower), byte, place)
    ]

    step_free :
        (u j : ℕ)
        → u < 256
        → sum_below f u + seen tt₀ u (suc i) ≤ j
        → j < sum_below f (suc u)
        → get_or (set tt at v) j 0 < 2 ^ 8
    step_free u j is lo hi = elim (same_or_other j at) [
      | inl e ↦
          let byte = at_byte u j e (omega arith) hi in
          absurd (
            omega (
              arith,
              at_place,
              one_more,
              subst (λ w. sum_below f w + seen tt₀ w (suc i) ≤ j) byte lo,
            ))
      | inr ne ↦ rw (get_or-other tt at v j 0 ne) (l.free u j is (omega (arith, seen-suc u i)) hi)
    ]

    step_low : (j : ℕ) → j < size → get_or (set tt at v) j 0 % 2 ^ 8 ≡ get_or tt₀ j 0
    step_low j hi = elim (same_or_other j at) [
      | inl e ↦ omega (arith, written j e, value, l.low j hi, ap (λ w. get_or tt w 0) e)
      | inr ne ↦ ap (λ (x : ℕ). x % 2 ^ 8) (get_or-other tt at v j 0 ne) ∙ l.low j hi
    ]

    step-Linked : Linked tt₀ f size (suc i) (set ftab uc (suc at)) (set tt at v)
    step-Linked = record {
      all_bytes = length-set ftab uc (suc at) ∙ l.all_bytes;
      fits = omega (arith, length-set tt at v, l.fits);
      index = step_index;
      low = step_low;
      linked = step_linked;
      free = step_free;
    }

  none_seen : (u : ℕ) → seen tt₀ u 0 ≡ 0
  unfolding sum_below
  none_seen u = refl

  before_end : (u j : ℕ) → u < 256 → j < sum_below f (suc u) → j < size
  before_end u j is lt = omega (arith, whole, sum_below_mono f (suc u) 256 is)

  -- Nothing has been linked.
  pub start-Linked :
      (ftab : List ℕ)
      → length ftab ≡ 256
      → size ≤ length tt₀
      → ((u : ℕ) → u < 256 → get_or ftab u 0 ≡ sum_below f u)
      → Linked tt₀ f size 0 ftab tt₀
  start-Linked ftab long fits each = record {
    all_bytes = long;
    fits = fits;
    index = λ u is. omega (arith, each u is, none_seen u);
    low = λ j lt. omega (arith, bytes j lt);
    linked = λ u j is lo hi. absurd (omega (arith, none_seen u));
    free = λ u j is lo hi. bytes j (before_end u j is hi);
  }

  -- The loop links all nodes.
  pub link-Linked :
      (n i : ℕ) (ftab tt : List ℕ)
      → i + n ≡ size
      → Linked tt₀ f size i ftab tt
      → Linked tt₀ f size size (link n i ftab tt).0 (link n i ftab tt).1
  unfolding link
  link-Linked zero i ftab tt e l = subst (λ k. Linked tt₀ f size k ftab tt) (omega arith) l
  link-Linked (suc n) i ftab tt e l =
      let uc = get_or tt i 0 % 2 ^ 8 in
      let at = get_or ftab uc 0 in
      let lt : i < size = omega arith in
      let named = sym (l.low i lt) in
      let free = was_free i ftab tt uc at (get_or tt at 0 + i * 2 ^ 8) lt l named refl refl in
      link-Linked n (suc i) (set ftab uc (suc at))
        (set tt at ((get_or tt at 0 + i * 2 ^ 8) % 2 ^ 32)) (omega arith)
        (step-Linked i ftab tt uc at ((get_or tt at 0 + i * 2 ^ 8) % 2 ^ 32) lt l named refl
          (omega (arith, free)))
