-- ===== src/Imtf/Correct.antt =====
-- src/decode.c, mtf_one(): the rows, read one after the other, are a list.
use lbzip.Shared.{
  ℕ, zero, suc, ◌+◌, ◌-◌, ◌*◌, ◌≤◌, ◌<◌, ◌≡◌, sym, ◌∙◌, ltb, arith, inl, inr, subst, ◌==◌,
  Bool-cases, ltb→lt, refl, some,
}
use lbzip.Prefix.{update}
use lbzip.Imtf.{Lists, move_up, mtf_far, mtf_near, mtf_one}
use lbzip.Imtf.Rows.{move_up_lem}
use lbzip.Imtf.Whole.{at, IsOrdered, Moved, spread, rebuild-same, at_place, by_rows}
use lbzip.Imtf.Far.{far-Moved}

near_rest :
    (s : Lists) (c : ℕ)
    → IsOrdered s
    → c < 16
    → (r j : ℕ) → r ≤ 15
    → j < 16
    → c < r * 16 + j
    → update (move_up c (s.row 0) s.slide) (s.row 0) (s.slide (s.row 0 + c)) (s.row r + j)
      ≡ s.slide (s.row r + j)
near_rest s c o lt zero j hi within gt =
    ground (arith, move_up_lem c (s.row 0) s.slide (s.row 0 + j))
near_rest s c o lt (suc r) j hi within gt = ground (
  arith,
  move_up_lem c (s.row 0) s.slide (s.row (suc r) + j),
  spread s o 0 (suc r) (omega arith) hi,
)

-- The first row holds the place.
near-Moved :
    (s : Lists) (c : ℕ)
    → IsOrdered s
    → c < 16
    → Moved s c (s.slide (s.row 0 + c)) (record s {
      slide = update (move_up c (s.row 0) s.slide) (s.row 0) (s.slide (s.row 0 + c));
    })
near-Moved s c o lt =
    let found = sym (at_place s c 0 c (omega arith) (omega arith)) in
    let moved_up = λ (a : ℕ). move_up_lem c (s.row 0) s.slide a in
    record {
      found = found;
      ordered = record { apart = o.apart; within = o.within };
      moved =
          by_rows s
            (record s {
              slide = update (move_up c (s.row 0) s.slide) (s.row 0) (s.slide (s.row 0 + c));
            })
            c (ground (arith, found))
            (λ r j hi within le.
              let top : 0 ≡ r = omega arith in
              subst
                (λ i.
                  update (move_up c (s.row 0) s.slide) (s.row 0) (s.slide (s.row 0 + c))
                    (s.row i + suc j)
                  ≡ s.slide (s.row i + j))
                top (ground (arith, moved_up (s.row 0 + suc j))))
            (λ r le. absurd (omega arith))
            (λ r j hi within gt. near_rest s c o lt r j hi within gt);
    }

Moved-same :
    (s s' : Lists) (c x : ℕ) (t : Lists)
    → ((i : ℕ) → i < 256 → at s' i ≡ at s i)
    → c < 256
    → Moved s' c x t
    → Moved s c x t
Moved-same s s' c x t same small m = record {
  found = m.found ∙ same c small;
  ordered = m.ordered;
  moved =
      λ i lt. m.moved i lt ∙ ground (arith, same c small, same (i - 1) (omega arith), same i lt);
}

-- On rows that follow each other in the pool, for an index from 1 to 255, mtf_one() does not abort: no
-- assertion fails, and the switch has the case. It returns the element at that index of the list that
-- the rows are together, and leaves rows that follow each other. Their list has that element at the
-- front, those before it one place on, and the others where they were. This is so whether the index is
-- in the first row, and whether the pool had to be built again.
pub mtf_one-Moved :
    (s : Lists) (c : ℕ)
    → IsOrdered s
    → 0 < c
    → c < 256
    → (r : ℕ × Lists) × (mtf_one s c ≡ some r) × Moved s c r.0 r.1
unfolding mtf_one mtf_near
mtf_one-Moved s zero o pos small = absurd (omega arith)
mtf_one-Moved s (suc n) o pos small = elim (Bool-cases (ltb (suc n) 16)) [
  | inl near ↦ (_, rw near refl, near-Moved s (suc n) o (ltb→lt _ _ near))
  | inr far ↦ elim (Bool-cases (s.row 0 == 0)) [
    | inl bottom ↦
        let (t, run, ordered, room, same) = rebuild-same s o in
        (
          mtf_far t (suc n),
          rw (far, bottom, run) refl,
          Moved-same s t (suc n) _ _ same small (far-Moved t (suc n) ordered room small),
        )
    | inr above ↦
        (mtf_far s (suc n), rw (far, above) refl, far-Moved s (suc n) o (ground arith) small)
  ]
]
