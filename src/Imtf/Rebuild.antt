-- ===== src/Imtf/Rebuild.antt =====
-- src/decode.c, mtf_one(): the rows are put at the end of the pool again.
use lbzip.Shared.{
  ℕ, zero, suc, ◌+◌, ◌-◌, ◌*◌, ◌≤◌, ◌<◌, ◌≡◌, refl, ◌∙◌, ltb, leb, if◌then◌else◌, arith, ap, ◌⊎◌,
  inl, inr, subst, ◌&&◌, some, true,
}
use lbzip.Prefix.{update}
use lbzip.Imtf.{Lists, copy_down, rebuild}

-- one element more
copied :
    (n bb kk : ℕ) (f : ℕ → ℕ) (a : ℕ)
    → suc n ≤ bb
    → bb ≤ kk
    → (if leb (kk - 1 - n) a && ltb a (kk - 1)
        then update f (kk - 1) (f (bb - 1)) (a + (bb - 1) - (kk - 1))
        else update f (kk - 1) (f (bb - 1)) a)
      ≡ (if leb (kk - suc n) a && ltb a kk then f (a + bb - kk) else f a)
copied n bb kk f a lo hi = ground arith

copy_down_lem :
    (n bb kk : ℕ) (f : ℕ → ℕ) (a : ℕ)
    → n ≤ bb
    → bb ≤ kk
    → copy_down n bb kk f a ≡ (if leb (kk - n) a && ltb a kk then f (a + bb - kk) else f a)
unfolding copy_down
copy_down_lem zero bb kk f a lo hi = ground arith
copy_down_lem (suc n) bb kk f a lo hi =
    copy_down_lem n (bb - 1) (kk - 1) (update f (kk - 1) (f (bb - 1))) a (omega arith) (omega arith)
    ∙ copied n bb kk f a lo hi

-- the rows below `rr` follow each other, and end before `kk`
pub record Below (rr kk : ℕ) (s : Lists) : Type 0 where
  pub apart : (r r' : ℕ) → r < r' → r' < rr → s.row r + 16 ≤ s.row r'
  pub before : (r : ℕ) → r < rr → s.row r + 16 ≤ kk

pub record Rebuilt (rr : ℕ) (s t : Lists) : Type 0 where
  pub rows : (r : ℕ) → t.row r ≡ (if ltb r rr then 7936 + 16 * r else s.row r)
  pub kept : (r j : ℕ) → r < rr → j < 16 → t.slide (7936 + 16 * r + j) ≡ s.slide (s.row r + j)
  pub behind : (a : ℕ) → 7936 + 16 * rr ≤ a → t.slide a ≡ s.slide a

last_or_before : (r r' : ℕ) → r < suc r' → (r' ≡ r) ⊎ (r < r')
last_or_before r r' lt = omega arith

abbrev one_row : ℕ → Lists → Lists
one_row rr s = record {
  row = update s.row rr (7936 + 16 * suc rr - 16);
  slide = copy_down 16 (s.row rr + 16) (7936 + 16 * suc rr) s.slide;
}

with_row :
    (rr : ℕ) (s t : Lists)
    → Below (suc rr) (7936 + 16 * suc rr) s
    → Rebuilt rr (one_row rr s) t
    → Rebuilt (suc rr) s t
with_row rr s t below rest = record {
  rows = λ r. ground (arith, rest.rows r);
  kept = λ r j lt within. elim (last_or_before r rr lt) [
    | inl e ↦
        subst (λ i. t.slide (7936 + 16 * i + j) ≡ s.slide (s.row i + j)) e
          (rest.behind (7936 + 16 * rr + j) (omega arith)
            ∙ copy_down_lem 16 (s.row rr + 16) (7936 + 16 * suc rr) s.slide (7936 + 16 * rr + j)
                (omega arith) (below.before rr (omega arith))
            ∙ ground arith)
    | inr before ↦
        rest.kept r j before within
        ∙ ap (copy_down 16 (s.row rr + 16) (7936 + 16 * suc rr) s.slide) (ground arith)
        ∙ copy_down_lem 16 (s.row rr + 16) (7936 + 16 * suc rr) s.slide (s.row r + j) (omega arith)
            (below.before rr (omega arith))
        ∙ ground (arith, below.apart r rr before, below.before rr)
  ];
  behind = λ a le.
      rest.behind a (omega arith)
      ∙ copy_down_lem 16 (s.row rr + 16) (7936 + 16 * suc rr) s.slide a (omega arith)
          (below.before rr (omega arith))
      ∙ ground arith;
}

-- No assertion fails, and the rows are at the end of the pool.
pub rebuild-Rebuilt :
    (rr : ℕ) (s : Lists)
    → rr ≤ 16
    → Below rr (7936 + 16 * rr) s
    → (t : Lists) × (rebuild rr (7936 + 16 * rr) s ≡ some t) × Rebuilt rr s t
unfolding rebuild
rebuild-Rebuilt zero s le below = (
  s,
  refl,
  record { rows = λ r. ground arith; kept = λ r j lt within. elim lt [ ]; behind = λ a le. refl },
)
rebuild-Rebuilt (suc rr) s le below =
    let kk : 7936 + 16 * suc rr - 16 ≡ 7936 + 16 * rr = omega arith in
    let inside : leb (s.row rr + 16) 8192 ≡ true = ground (arith, below.before rr (omega arith)) in
    let (t, run, rest) = rebuild-Rebuilt rr (one_row rr s) (omega arith) (record {
      apart = λ r r' lt hi. ground (arith, below.apart r r' lt);
      before = λ r lt. ground (arith, below.apart r rr lt, below.before rr);
    }) in
    (t, rw inside (ap (λ k. rebuild rr k (one_row rr s)) kk ∙ run), with_row rr s t below rest)
