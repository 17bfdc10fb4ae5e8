-- ===== src/Imtf/Whole.antt =====
-- src/decode.c, mtf_one(): the list that the rows are together, and its change.
use lbzip.Shared.{
  ℕ, zero, suc, ◌+◌, ◌-◌, ◌*◌, ◌/◌, ◌%◌, ◌≤◌, ◌<◌, ◌≡◌, refl, sym, ap₂, ◌∙◌, leb, if◌then◌else◌,
  arith, ap, ◌⊎◌, inl, inr, subst, false, ◌==◌, Bool-cases, ==→eq, some,
}
use lbzip.Imtf.{Lists, rebuild}
use lbzip.Imtf.Rebuild.{rebuild-Rebuilt}

-- the element at the index `i`
abbrev pub at : Lists → ℕ → ℕ
at s i = s.slide (s.row (i / 16) + i % 16)

-- The rows follow each other in the pool.
pub record IsOrdered (s : Lists) : Type 0 where
  pub apart : (r : ℕ) → r < 15 → s.row r + 16 ≤ s.row (suc r)
  pub within : s.row 15 + 16 ≤ 8192

-- the element at `c` has been moved to the front
pub record Moved (s : Lists) (c x : ℕ) (t : Lists) : Type 0 where
  pub found : x ≡ at s c
  pub ordered : IsOrdered t
  pub moved :
      (i : ℕ)
      → i < 256
      → at t i ≡ (if i == 0 then at s c else if leb i c then at s (i - 1) else at s i)

pub plus_zero : (a : ℕ) → a + 0 ≡ a
plus_zero a = omega arith

pub side : (r q : ℕ) → (r < q) ⊎ (r ≡ q) ⊎ (q < r)
side r q = omega arith

pub last_or_before : (r r' : ℕ) → r < suc r' → (r' ≡ r) ⊎ (r < r')
last_or_before r r' lt = omega arith

pub spread : (s : Lists) → IsOrdered s → (r r' : ℕ) → r < r' → r' ≤ 15 → s.row r + 16 ≤ s.row r'
spread s o r zero lt le = elim lt [ ]
spread s o r (suc r') lt le = elim (last_or_before r r' lt) [
  | inl e ↦ subst (λ i. s.row i + 16 ≤ s.row (suc r')) e (o.apart r' (omega arith))
  | inr before ↦ ground (arith, o.apart r', spread s o r r' before (omega arith))
]

last_end : (s : Lists) → IsOrdered s → (r : ℕ) → r < 16 → s.row r + 16 ≤ 8192
last_end s o r lt = elim (last_or_before r 15 lt) [
  | inl e ↦ subst (λ i. s.row i + 16 ≤ 8192) e o.within
  | inr before ↦ omega (arith, spread s o r 15 before (omega arith), o.within)
]

-- The pool is built again: the same list, with room before it.
pub rebuild-same :
    (s : Lists)
    → IsOrdered s
    → (t : Lists) × (rebuild 16 8192 s ≡ some t)
      × IsOrdered t
      × (0 < t.row 0)
      × ((i : ℕ) → i < 256 → at t i ≡ at s i)
rebuild-same s o =
    let (t, run, b) = rebuild-Rebuilt 16 s (omega arith) (record {
      apart = λ r r' lt hi. spread s o r r' lt (omega arith);
      before = λ r lt. last_end s o r lt;
    }) in
    (
      t,
      run,
      record {
        apart = λ r lt. ground (arith, b.rows r, b.rows (suc r));
        within = ground (arith, b.rows 15);
      },
      ground (arith, b.rows 0),
      λ i lt.
          let placed : t.row (i / 16) ≡ 7936 + 16 * (i / 16) = ground (arith, b.rows (i / 16)) in
          ap (λ a. t.slide (a + i % 16)) placed
          ∙ b.kept (i / 16) (i % 16) (omega arith) (omega arith),
    )

pub at_place : (s : Lists) (i r j : ℕ) → i / 16 ≡ r → i % 16 ≡ j → at s i ≡ s.slide (s.row r + j)
at_place s i r j e f = ap₂ (λ r j. s.slide (s.row r + j)) e f

-- a list by its rows
module _ (s t : Lists) (c : ℕ) where
  pub by_rows :
      t.slide (t.row 0) ≡ at s c
      → ((r j : ℕ)
          → r ≤ 15
          → j < 15
          → r * 16 + suc j ≤ c
          → t.slide (t.row r + suc j) ≡ s.slide (s.row r + j))
      → ((r : ℕ) → suc r * 16 ≤ c → t.slide (t.row (suc r) + 0) ≡ s.slide (s.row r + 15))
      → ((r j : ℕ)
          → r ≤ 15
          → j < 16
          → c < r * 16 + j
          → t.slide (t.row r + j) ≡ s.slide (s.row r + j))
      → (i : ℕ) → i < 256
      → at t i ≡ (if i == 0 then at s c else if leb i c then at s (i - 1) else at s i)
  by_rows head inner across rest zero lt = ap t.slide (plus_zero (t.row 0)) ∙ head
  by_rows head inner across rest (suc i) lt = elim (Bool-cases (leb (suc i) c)) [
    | inl le ↦
        let before : suc i - 1 ≡ i = omega arith in
        let later : (suc i == 0) ≡ false = ground arith in
        rw (later, le, before)
          (elim (Bool-cases (i % 16 == 15)) [
            | inl last ↦
                let row : suc i / 16 ≡ suc (i / 16) = ground arith in
                let start : suc i % 16 ≡ 0 = ground arith in
                let end : i % 16 ≡ 15 = ==→eq _ _ last in
                at_place t (suc i) (suc (i / 16)) 0 row start
                ∙ across (i / 16) (ground arith)
                ∙ sym (at_place s i (i / 16) 15 refl end)
            | inr inside ↦
                let row : suc i / 16 ≡ i / 16 = ground arith in
                let next : suc i % 16 ≡ suc (i % 16) = ground arith in
                at_place t (suc i) (i / 16) (suc (i % 16)) row next
                ∙ inner (i / 16) (i % 16) (omega arith) (ground arith) (ground arith)
          ])
    | inr gt ↦
        let later : (suc i == 0) ≡ false = ground arith in
        rw (later, gt) (rest (suc i / 16) (suc i % 16) (omega arith) (omega arith) (ground arith))
  ]
