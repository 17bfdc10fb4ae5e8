-- ===== src/Retrieve/Tables.antt =====
-- src/decode.c: the tables of retrieve() against codes read bit by bit.
use lbzip.Shared.{
  ℕ, zero, suc, ◌+◌, ◌-◌, ◌<◌, List, [], ◌∷◌, ◌≡◌, refl, sym, ap, ◌∙◌, Bool, true, false, ◌||◌, not,
  ◌==◌, ltb, ==→eq, if◌then◌else◌, get_or,
}
use lbzip.Shared.BitList.{bits}
use lbzip.Shared.Table.{holds_below, holds_below_at}
use lbzip.Common.{err_selector, err_delta}
use lbzip.Retrieve.{
  table, delta_width, delta_change, Step, fail, took, selector_step, length_step, min_code_length,
  max_code_length,
}

-- the bits of a unary number: ones, and the zero that ends them
unfoldable pub unary : List ℕ → ℕ
unary [] = 1
unary (zero ∷ bs) = 1
unary (suc b ∷ bs) = suc (unary bs)

-- A delta code: 0 ends it, 10 adds one and 11 takes one away. The results are the bits read, the
-- change plus 3, and whether the end was among the bits.
unfoldable pub deltas : List ℕ → ℕ → ℕ → ℕ × (ℕ × Bool)
deltas (zero ∷ bs) n d = (suc n, (d, true))
deltas (suc b ∷ zero ∷ bs) n d = deltas bs (n + 2) (d + 1)
deltas (suc b ∷ suc c ∷ bs) n d = deltas bs (n + 2) (d - 1)
deltas bs n d = (n, (d, false))

table_windows : holds_below 64 (λ w. get_or table w 0 == unary (bits 6 w)) ≡ true
unfolding holds_below table unary bits
table_windows = refl

width_windows : holds_below 64 (λ w. get_or delta_width w 0 == (deltas (bits 6 w) 0 3).0) ≡ true
unfolding holds_below delta_width deltas bits
width_windows = refl

change_windows : holds_below 64 (λ w. get_or delta_change w 0 == (deltas (bits 6 w) 0 3).1.0) ≡ true
unfolding holds_below delta_change deltas bits
change_windows = refl

abbrev same : Bool → Bool → Bool
same true b = b
same false b = not b

end_windows :
    holds_below 64 (λ w. same (not (get_or delta_width w 0 == 6)) (deltas (bits 6 w) 0 3).1.1)
    ≡ true
unfolding holds_below delta_width deltas bits
end_windows = refl

same→eq : (a b : Bool) → same a b ≡ true → a ≡ b
same→eq true true h = refl
same→eq true false h = sym h
same→eq false true h = h
same→eq false false h = refl

-- The selector that a window of six bits gives is the number of ones before the first zero, and
-- the bits taken end with that zero; it is an error if there is no tree of that number.
pub selector_step-unary :
    (num_trees w : ℕ)
    → w < 64
    → selector_step num_trees w ≡ (
        if ltb num_trees (unary (bits 6 w))
        then fail err_selector
        else took (unary (bits 6 w) - 1) (unary (bits 6 w)) true)
unfolding selector_step
selector_step-unary num_trees w lt =
    ap (λ k. if ltb num_trees k then fail err_selector else took (k - 1) k true)
      (==→eq (get_or table w 0) (unary (bits 6 w)) (holds_below_at 64 _ w table_windows lt))

-- A round of the loop for a code length takes the delta codes in a window of six bits, up to the
-- end or to three of them, as one reads them bit by bit: the length changes by their sum, the bits
-- taken are theirs, and the length is final if the end is among them. It is an error if the new
-- length is not from 1 to 20.
pub length_step-deltas :
    (len w : ℕ)
    → w < 64
    → length_step len w ≡ (
        let d = deltas (bits 6 w) 0 3 in
        if ltb (len + d.1.0) (3 + min_code_length) || ltb (3 + max_code_length) (len + d.1.0)
        then fail err_delta
        else took (len + d.1.0 - 3) d.0 d.1.1)
unfolding length_step
length_step-deltas len w lt =
    let wide : get_or delta_width w 0 ≡ (deltas (bits 6 w) 0 3).0 =
      ==→eq _ _ (holds_below_at 64 _ w width_windows lt) in
    let change : get_or delta_change w 0 ≡ (deltas (bits 6 w) 0 3).1.0 =
      ==→eq _ _ (holds_below_at 64 _ w change_windows lt) in
    let end : not (get_or delta_width w 0 == 6) ≡ (deltas (bits 6 w) 0 3).1.1 =
      same→eq _ _ (holds_below_at 64 _ w end_windows lt) in
    let result : ℕ → ℕ → Bool → Step = λ c k b.
      if ltb (len + c) (3 + min_code_length) || ltb (3 + max_code_length) (len + c)
      then fail err_delta
      else took (len + c - 3) k b in
    ap (λ b. result (get_or delta_change w 0) (get_or delta_width w 0) b) end
    ∙ ap (λ c. result c (get_or delta_width w 0) (deltas (bits 6 w) 0 3).1.1) change
    ∙ ap (λ k. result (deltas (bits 6 w) 0 3).1.0 k (deltas (bits 6 w) 0 3).1.1) wide
