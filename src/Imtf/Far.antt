-- ===== src/Imtf/Far.antt =====
-- src/decode.c, mtf_one(): a place behind the first row.
use lbzip.Shared.{
  ℕ, zero, suc, ◌+◌, ◌-◌, ◌*◌, ◌/◌, ◌%◌, ◌≤◌, ◌<◌, ◌≡◌, refl, ◌∙◌, ltb, leb, if◌then◌else◌, arith,
  ap, inl, inr, subst, ◌&&◌, ◌==◌,
}
use lbzip.Prefix.{update}
use lbzip.Imtf.{Lists, move_up, shift_rows, mtf_far}
use lbzip.Imtf.Rows.{move_up_lem, Gaps, Shifted, shift_rows-Shifted}
use lbzip.Imtf.Whole.{IsOrdered, Moved, plus_zero, side, spread, by_rows}

first_room : (s : Lists) → IsOrdered s → 0 < s.row 0 → (r : ℕ) → r ≤ 15 → 0 < s.row r
first_room s o room zero le = room
first_room s o room (suc r) le = omega (arith, spread s o 0 (suc r) (omega arith) le)

module _ (s : Lists) (c : ℕ) (t₀ : Lists) (o : IsOrdered s) (room : 0 < s.row 0) (lt : c < 256)
    (sh : Shifted
      (c / 16)
      (record s { slide = move_up (c % 16) (s.row (c / 16)) s.slide })
      t₀) where
  abbrev x : ℕ
  x = s.slide (s.row (c / 16) + c % 16)

  abbrev t : Lists
  t = record t₀ { slide = update t₀.slide (t₀.row 0) x }

  t-IsOrdered : IsOrdered t
  t-IsOrdered = record {
    apart = λ r lt.
        ground
          (arith, sh.rows r, sh.rows (suc r), o.apart r lt, first_room s o room r (omega arith));
    within = ground (arith, sh.rows 15, o.within);
  }

  -- The first place is written last, and no other.
  elsewhere : (r j : ℕ) → r ≤ 15 → 0 < r * 16 + j → t.slide (t.row r + j) ≡ t₀.slide (t₀.row r + j)
  elsewhere zero j le pos = ground arith
  elsewhere (suc r) j le pos = ground (arith, spread t t-IsOrdered 0 (suc r) (omega arith) le)

  -- The elements of the row of `c` are moved along it, and no others.
  along :
      (r j : ℕ)
      → r ≤ 15
      → j < 16
      → move_up (c % 16) (s.row (c / 16)) s.slide (s.row r + j) ≡ (
          if r == c / 16 && ltb 0 j && leb j (c % 16)
          then s.slide (s.row r + j - 1)
          else s.slide (s.row r + j))
  along r j le within = elim (side r (c / 16)) [
    | inl before ↦ ground (
      arith,
      move_up_lem (c % 16) (s.row (c / 16)) s.slide (s.row r + j),
      spread s o r (c / 16) before (omega arith),
    )
    | inr (inl same) ↦
        subst
          (λ i. move_up (c % 16) (s.row i) s.slide (s.row r + j) ≡ (
            if r == i && ltb 0 j && leb j (c % 16)
            then s.slide (s.row r + j - 1)
            else s.slide (s.row r + j)))
          same (ground (arith, move_up_lem (c % 16) (s.row r) s.slide (s.row r + j)))
    | inr (inr behind) ↦ ground (
      arith,
      move_up_lem (c % 16) (s.row (c / 16)) s.slide (s.row r + j),
      spread s o (c / 16) r behind le,
    )
  ]

  unmoved : (r : ℕ) → c / 16 ≤ r → t₀.row r ≡ s.row r
  unmoved r le = ground (arith, sh.rows r)

  inner_row :
      (r j : ℕ)
      → r ≤ 15
      → j < 15
      → r * 16 + suc j ≤ c
      → t₀.slide (t₀.row r + suc j) ≡ s.slide (s.row r + j)
  inner_row r j hi within le = elim (side r (c / 16)) [
    | inl before ↦ sh.inner r j before within ∙ along r j hi (omega arith) ∙ ground arith
    | inr (inl same) ↦
        let back : s.row r + suc j - 1 ≡ s.row r + j = omega arith in
        ap (λ a. t₀.slide (a + suc j)) (unmoved r (omega arith))
        ∙ sh.same r (suc j) hi (omega arith) (omega arith)
        ∙ along r (suc j) hi (omega arith)
        ∙ rw back (ground arith)
    | inr (inr behind) ↦ absurd (omega arith)
  ]

  shifted-Moved : Moved s c x t
  shifted-Moved = record {
    found = refl;
    ordered = t-IsOrdered;
    moved =
        by_rows s t c (ground arith)
          (λ r j hi within le. elsewhere r (suc j) hi (omega arith) ∙ inner_row r j hi within le)
          (λ r le.
            elsewhere (suc r) 0 (omega arith) (omega arith)
            ∙ ap t₀.slide (plus_zero (t₀.row (suc r)))
            ∙ sh.across r (omega arith)
            ∙ along r 15 (omega arith) (omega arith)
            ∙ ground arith)
          (λ r j hi within gt.
            elsewhere r j hi (omega arith)
            ∙ ap (λ a. t₀.slide (a + j)) (unmoved r (omega arith))
            ∙ sh.same r j hi within (omega arith)
            ∙ along r j hi within
            ∙ ground arith);
  }

-- The general case, with room before the first row.
pub far-Moved :
    (s : Lists) (c : ℕ)
    → IsOrdered s
    → 0 < s.row 0
    → c < 256
    → Moved s c (mtf_far s c).0 (mtf_far s c).1
unfolding mtf_far
far-Moved s c o room small =
    let lno = c / 16 in
    let s₀ : Lists = record s { slide = move_up (c % 16) (s.row lno) s.slide } in
    let gaps : Gaps lno s₀ = record {
      apart = λ r lt. ground (arith, o.apart r lt);
      room = λ r lt. first_room s o room r (omega arith);
    } in
    let sh = shift_rows-Shifted lno s₀ (omega arith) gaps in
    shifted-Moved s c (shift_rows lno s₀) o room small sh
