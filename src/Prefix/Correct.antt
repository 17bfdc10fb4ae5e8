-- ===== src/Prefix/Correct.antt =====
-- src/decode.c: a code is looked up in the tables that make_tree() builds.
use lbzip.Shared.{
  ℕ, suc, ◌+◌, ◌-◌, ◌*◌, ◌/◌, ◌%◌, ◌^◌, ◌≤◌, ◌<◌, ◌≡◌, refl, ◌∙◌, List, ◌∷◌, ◌++◌, true, false, leb,
  arith, ap, ◌⊎◌, inl, inr, length, get_or,
}
use lbzip.Prefix.{Tree, tables, decode_symbol, symbol, climb}
use lbzip.Prefix.Sums.{sum_below_mono, of_length, width, width_64, width_pos}
use lbzip.Prefix.Base.{space, scaled}
use lbzip.Prefix.Search.{climb_found, Reached}
use lbzip.Prefix.Tables.{InRange, counts, base_at, count_at, perm_at, in_range}
use lbzip.Prefix.Entries.{ends, short_entry, long_entry}

quotient : (x r m : ℕ) → r * m ≤ x → x < r * m + m → x / m ≡ r
quotient x r m lo hi = grind arith

order : (j k : ℕ) → (j ≤ k) ⊎ (k < j)
order j k = omega arith

module _ (old : Tree) (ls : List ℕ) (ok : InRange ls) (full : space (counts ls) 21 ≡ 2 ^ 20)
    (few : length ls ≤ 258) (before : List ℕ) (k : ℕ) (after : List ℕ)
    (split : before ++ k ∷ after ≡ ls) (v : ℕ) (fits : v < 2 ^ 64 - 1)
    (from : (space (counts ls) k + of_length k before * width k) * 2 ^ 44 ≤ v)
    (to : v < (space (counts ls) k + of_length k before * width k + width k) * 2 ^ 44) where
  below_code : (j : ℕ) → 0 < j → j ≤ k → (tables old ls).base j ≡ space (counts ls) j * 2 ^ 44
  below_code j pos le =
      let range = in_range old ls ok full before k after split in
      base_at old ls ok full j pos (omega (arith, range.1))
      ∙ ground (
        arith,
        ends old ls ok full few before k after split v fits from to,
        width_pos k range.1,
        sum_below_mono (λ j. counts ls j * width j) j k le,
      )

  above_code : v < (tables old ls).base (k + 1)
  above_code =
      let range = in_range old ls ok full before k after split in
      let next : k + 1 ≡ suc k = omega arith in
      rw (next, base_at old ls ok full (suc k) (omega arith) (omega (arith, range.1)))
        (ground (arith, ends old ls ok full few before k after split v fits from to))

  reached : (j : ℕ) → 0 < j → j ≤ k → (tables old ls).base j ≤ v
  reached j pos le =
      omega (arith, below_code j pos le, sum_below_mono (λ j. counts ls j * width j) j k le, from)

  -- Beyond the length of the code, no base has been reached.
  not_beyond : (k' : ℕ) → k < k' → k' ≤ 20 → 10 < k → Reached (tables old ls).base v 11 k' → ⊥
  not_beyond k' more most gt (inl e) = omega arith
  not_beyond k' more most gt (inr le) =
      let next : k + 1 ≡ suc k = omega arith in
      let above = above_code in
      let here = base_at old ls ok full (suc k) (omega arith) (omega arith) in
      let there = base_at old ls ok full k' (omega arith) (omega arith) in
      ground (
        arith,
        ap (tables old ls).base next,
        here,
        there,
        above,
        sum_below_mono (λ j. counts ls j * width j) (suc k) k' more,
      )

  found :
      (k' : ℕ)
      → 11 ≤ k'
      → Reached (tables old ls).base v 11 k'
      → k' ≤ 20
      → 10 < k
      → climb 20 (tables old ls).base v k' ≡ k
  found k' least stopped most gt =
      let no_further : k' ≤ k = elim (order k' k) [
        | inl le ↦ le
        | inr more ↦ absurd (not_beyond k' more most gt stopped)
      ] in
      let range = in_range old ls ok full before k after split in
      climb_found 20 (tables old ls).base v k k' no_further (omega (arith, range.1))
        (λ j lo lt. reached (j + 1) (omega arith) (omega arith)) above_code

  -- how far the window is from the base of its length
  place : (v + 2 ^ 64 - (tables old ls).base k) % 2 ^ 64 / 2 ^ (64 - k) ≡ of_length k before
  place =
      let range = in_range old ls ok full before k after split in
      let here = below_code k range.0 (omega arith) in
      rw (width_64 k range.1) (
        quotient ((v + 2 ^ 64 - (tables old ls).base k) % 2 ^ 64) (of_length k before)
          (width k * 2 ^ 44)
          (omega (arith, here, from, fits, scaled (of_length k before) (width k)))
          (omega (arith, here, from, to, fits, scaled (of_length k before) (width k))))

  pub decode_symbol-tables :
      decode_symbol (tables old ls) v ≡ (symbol (length ls) (length before), k)
  unfolding decode_symbol
  decode_symbol-tables =
      let x = get_or (tables old ls).start (v / 2 ^ 54) 0 in
      let s = symbol (length ls) (length before) in
      let range = in_range old ls ok full before k after split in
      elim (order k 10) [
        | inl le ↦
            let remainder : (s * 2 ^ 5 + k) % 2 ^ 5 ≡ k = omega arith in
            let whole : (s * 2 ^ 5 + k) / 2 ^ 5 ≡ s = omega arith in
            let test : leb k 10 ≡ true = ground arith in
            rw
              (
                short_entry old ls ok full few before k after split v fits from to le,
                remainder,
                whole,
                test,
              )
              refl
        | inr gt ↦
            let entry' = long_entry old ls ok full few before k after split v fits from to gt in
            let remainder : x % 2 ^ 5 ≡ x = omega (arith, entry'.2) in
            let test : leb x 10 ≡ false = ground (arith, entry'.0) in
            rw (remainder, test, found x entry'.0 entry'.1 entry'.2 gt, place)
              (ap (λ t. (t, k))
                (ap (λ i. (tables old ls).perm (i + of_length k before))
                    (count_at old ls ok full k range.0 range.1)
                  ∙ perm_at old ls ok full before k after split))
      ]
