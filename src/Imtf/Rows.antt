-- ===== src/Imtf/Rows.antt =====
-- src/decode.c, mtf_one(): elements move along a row, and from a row to the next.
use lbzip.Shared.{
  ℕ, zero, suc, ◌+◌, ◌-◌, ◌*◌, ◌≤◌, ◌<◌, ◌≡◌, refl, sym, ◌∙◌, ◌==◌, ltb, leb, if◌then◌else◌, arith,
  ap, ◌⊎◌, inl, inr, subst, ◌&&◌,
}
use native.Mathlib.Decide.{dec_lt}
use lbzip.Prefix.{update}
use lbzip.Imtf.{Lists, move_up, shift_rows}

last_or_before : (r r' : ℕ) → r < suc r' → (r' ≡ r) ⊎ (r < r')
last_or_before r r' lt = omega arith

own_or_later : (l r j : ℕ) → l * 16 < r * 16 + j → j < 16 → ((l ≡ r) × (0 < j)) ⊎ (l < r)
own_or_later l r j behind within = elim (dec_lt l r) [
  | yes lt ↦ inr lt
  | no ge ↦ inl (omega (arith, ge), omega (arith, ge))
]

pub move_up_lem :
    (n base : ℕ) (f : ℕ → ℕ) (a : ℕ)
    → move_up n base f a ≡ (if ltb base a && leb a (base + n) then f (a - 1) else f a)
unfolding move_up
move_up_lem zero base f a = ground arith
move_up_lem (suc n) base f a =
    ground (arith, move_up_lem n base (update f (base + suc n) (f (base + n))) a)

-- The rows follow each other; that before `lno` may reach one element into it, which is free.
pub record Gaps (lno : ℕ) (s : Lists) : Type 0 where
  pub apart : (r : ℕ) → r < 15 → s.row r + 16 ≤ s.row (suc r) + (if suc r == lno then 1 else 0)
  pub room : (r : ℕ) → r < lno → 0 < s.row r

-- what the rows before `lno`, and the others, have after the shift
pub record Shifted (lno : ℕ) (s t : Lists) : Type 0 where
  pub rows : (r : ℕ) → t.row r ≡ (if ltb r lno then s.row r - 1 else s.row r)
  pub inner : (r j : ℕ) → r < lno → j < 15 → t.slide (t.row r + suc j) ≡ s.slide (s.row r + j)
  pub across : (r : ℕ) → r < lno → t.slide (t.row (suc r)) ≡ s.slide (s.row r + 15)
  pub same :
      (r j : ℕ)
      → r ≤ 15
      → j < 16
      → lno * 16 < r * 16 + j
      → t.slide (s.row r + j) ≡ s.slide (s.row r + j)

spread :
    (lno : ℕ) (s : Lists) → Gaps lno s → (r r' : ℕ) → r < r' → r' ≤ 15 → s.row r + 15 ≤ s.row r'
spread lno s gaps r zero lt le = elim lt [ ]
spread lno s gaps r (suc r') lt le = elim (last_or_before r r' lt) [
  | inl e ↦ subst (λ i. s.row i + 15 ≤ s.row (suc r')) e (ground (arith, gaps.apart r'))
  | inr before ↦ ground (arith, gaps.apart r', spread lno s gaps r r' before (omega arith))
]

-- one row
abbrev shift_row : ℕ → Lists → Lists
shift_row lno s = record {
  row = update s.row lno (s.row lno - 1);
  slide = update s.slide (s.row (suc lno)) (s.slide (s.row lno - 1 + 16));
}

shift_row-Gaps :
    (lno : ℕ) (s : Lists) → suc lno ≤ 15 → Gaps (suc lno) s → Gaps lno (shift_row lno s)
shift_row-Gaps lno s le gaps = record {
  apart = λ r lt. ground (arith, gaps.apart r lt, gaps.room lno);
  room = λ r lt. ground (arith, gaps.room r);
}

module _ (lno : ℕ) (s : Lists) (t : Lists) where
  -- the row that was shifted last
  own_row :
      (j : ℕ)
      → Gaps (suc lno) s
      → suc lno ≤ 15
      → Shifted lno (shift_row lno s) t
      → j < 15
      → t.slide (t.row lno + suc j) ≡ s.slide (s.row lno + j)
  own_row j gaps le rest within =
      let placed : t.row lno ≡ update s.row lno (s.row lno - 1) lno =
        ground (arith, rest.rows lno) in
      ap (λ a. t.slide (a + suc j)) placed
      ∙ rest.same lno (suc j) (omega arith) (omega arith) (omega arith)
      ∙ ground (arith, gaps.apart lno, gaps.room lno)

  next_row :
      Gaps (suc lno) s
      → suc lno ≤ 15
      → Shifted lno (shift_row lno s) t
      → t.slide (t.row (suc lno)) ≡ s.slide (s.row lno + 15)
  next_row gaps le rest =
      let placed : t.row (suc lno) ≡ update s.row lno (s.row lno - 1) (suc lno) + 0 =
        ground (arith, rest.rows (suc lno)) in
      let last : s.row lno - 1 + 16 ≡ s.row lno + 15 = omega (arith, gaps.room lno) in
      ap t.slide placed
      ∙ rest.same (suc lno) 0 (omega arith) (omega arith) (omega arith)
      ∙ rw last (ground arith)

behind_row :
    (lno : ℕ) (s : Lists) (r j : ℕ)
    → Gaps (suc lno) s
    → suc lno ≤ 15
    → r ≤ 15
    → suc lno * 16 < r * 16 + j
    → j < 16
    → update s.slide (s.row (suc lno)) (s.slide (s.row lno - 1 + 16)) (s.row r + j)
      ≡ s.slide (s.row r + j)
behind_row lno s r j gaps le lt behind within = elim (own_or_later (suc lno) r j behind within) [
  | inl own ↦ ground (arith, ap s.row own.0, own.1)
  | inr later ↦ ground (arith, spread (suc lno) s gaps (suc lno) r later lt)
]

pub shift_rows-Shifted :
    (lno : ℕ) (s : Lists) → lno ≤ 15 → Gaps lno s → Shifted lno s (shift_rows lno s)
unfolding shift_rows
shift_rows-Shifted zero s le gaps = record {
  rows = λ r. ground arith;
  inner = λ r j lt within. elim lt [ ];
  across = λ r lt. elim lt [ ];
  same = λ r j lt within behind. refl;
}
shift_rows-Shifted (suc lno) s le gaps =
    let rest =
      shift_rows-Shifted lno (shift_row lno s) (omega arith) (shift_row-Gaps lno s le gaps) in
    record {
      rows = λ r. ground (arith, rest.rows r);
      inner = λ r j lt within. elim (last_or_before r lno lt) [
        | inl e ↦
            subst
              (λ i.
                (shift_rows lno (shift_row lno s)).slide
                  ((shift_rows lno (shift_row lno s)).row i + suc j)
                ≡ s.slide (s.row i + j))
              e (own_row lno s (shift_rows lno (shift_row lno s)) j gaps le rest within)
        | inr before ↦
            rest.inner r j before within ∙ ground (arith, spread (suc lno) s gaps r (suc lno) lt le)
      ];
      across = λ r lt. elim (last_or_before r lno lt) [
        | inl e ↦
            subst
              (λ i.
                (shift_rows lno (shift_row lno s)).slide
                  ((shift_rows lno (shift_row lno s)).row (suc i))
                ≡ s.slide (s.row i + 15))
              e (next_row lno s (shift_rows lno (shift_row lno s)) gaps le rest)
        | inr before ↦
            rest.across r before
            ∙ ground (
              arith,
              spread (suc lno) s gaps r lno before (omega arith),
              gaps.apart lno,
              gaps.room lno,
            )
      ];
      same = λ r j lt within behind.
          let kept : update s.row lno (s.row lno - 1) r ≡ s.row r = ground arith in
          ap (λ a. (shift_rows lno (shift_row lno s)).slide (a + j)) (sym kept)
          ∙ rest.same r j lt within (omega arith)
          ∙ ap (λ a. update s.slide (s.row (suc lno)) (s.slide (s.row lno - 1 + 16)) (a + j)) kept
          ∙ behind_row lno s r j gaps le lt behind within;
    }
