-- ===== src/Mtf/Invariant.antt =====
-- src/encode.c, do_mtf(): what each byte keeps true of the symbols and the list.
use lbzip.Shared.{
  ℕ, suc, ◌+◌, ◌*◌, ◌<◌, List, [], ◌∷◌, ◌++◌, append_assoc, append-nil, ◌≡◌, refl, sym, ap, ap₂,
  ◌∙◌, subst, Option, none, some, Bool, true, false, Bool-cases, ◌==◌, replicate, replicate-snoc,
  get_or, ◌||◌, inl, inr, arith,
}
use lbzip.Collect.Invariant.{contains}
use lbzip.Mtf.{Locals, put_symbol, run, displace, moved, mtf_order, mtf}
use lbzip.Mtf.Front.{
  remove, unmtf, run_digits, Shows, Found, displace-Found, NoDigit, unmtf-run_digits,
  run_loop-digits, run_loop_kept,
}

rest_of : (a b : Bool) → a ≡ false → (a || b) ≡ true → b ≡ true
rest_of a b e h = ground arith

other_first : (c u : ℕ) (b : Bool) → (c == u) ≡ false → ((u == c) || b) ≡ true → b ≡ true
other_first c u b e h = ground arith

-- Every byte is in the list.
abbrev pub Has : Locals → Type 0
Has l = (c : ℕ) → c < 256 → contains c (l.u ∷ l.order) ≡ true

-- what the symbols written so far stand for, followed by symbols that do not go on with a run
run-Shows :
    (initial : List ℕ) (l : Locals) (done ts : List ℕ)
    → Shows initial l done
    → NoDigit ts
    → unmtf initial 1 ((run l).mtfv ++ ts) ≡ done ++ unmtf (l.u ∷ l.order) 1 ts
unfolding run Shows
run-Shows initial l done ts h last =
    let front = l.u ∷ l.order in
    let weight : 1 * l.k ≡ l.k = omega arith in
    ap (λ xs. unmtf initial 1 (xs ++ ts)) (run_loop-digits l.k l.k l)
    ∙ ap (unmtf initial 1) (append_assoc l.mtfv (run_digits l.k l.k) ts)
    ∙ h.1.1 (run_digits l.k l.k ++ ts)
    ∙ ap (◌++◌ h.0) (unmtf-run_digits l.k l.k 1 l.u l.order ts (omega arith) last)
    ∙ ap (λ n. h.0 ++ (replicate n l.u ++ unmtf front 1 ts)) weight
    ∙ sym (append_assoc h.0 (replicate l.k l.u) (unmtf front 1 ts))
    ∙ ap (λ xs. xs ++ unmtf front 1 ts) (sym h.1.0)

-- Another byte like the last makes the run longer.
pub longer-Shows :
    (initial : List ℕ) (l : Locals) (done : List ℕ)
    → Shows initial l done
    → Shows initial (record l { k = suc l.k }) (done ++ l.u ∷ [])
unfolding Shows
longer-Shows initial l done h = (
  h.0,
  (
    ap (λ xs. xs ++ l.u ∷ []) h.1.0
        ∙ append_assoc h.0 (replicate l.k l.u) (l.u ∷ [])
        ∙ ap (◌++◌ h.0) (replicate-snoc l.k l.u),
    h.1.1,
  ),
)

symbol_front :
    (u c n : ℕ) (order ys ts : List ℕ)
    → get_or order n 0 ≡ c
    → remove n order ≡ ys
    → unmtf (u ∷ order) 1 ((n + 2) ∷ ts) ≡ c ∷ unmtf (c ∷ u ∷ ys) 1 ts
unfolding unmtf remove
symbol_front u c n order ys ts e f =
    let two : n + 2 ≡ suc (suc n) = omega arith in
    ap (λ t. unmtf (u ∷ order) 1 (t ∷ ts)) two ∙ ap₂ (λ y zs. y ∷ unmtf (y ∷ u ∷ zs) 1 ts) e f

symbol_NoDigit : (n : ℕ) (ts : List ℕ) → NoDigit ((n + 2) ∷ ts)
unfolding unmtf
symbol_NoDigit n ts front w = let two : n + 2 ≡ suc (suc n) = omega arith in rw two refl

-- The run has been written; `done` is what the symbols stand for.
unfoldable pub Flushed : List ℕ → Locals → List ℕ → Type 0
Flushed initial l done =
    (l.k ≡ 0)
    × ((ts : List ℕ)
        → NoDigit ts
        → unmtf initial 1 (l.mtfv ++ ts) ≡ done ++ unmtf (l.u ∷ l.order) 1 ts)

pub run-Flushed :
    (initial : List ℕ) (l : Locals) (done : List ℕ)
    → Shows initial l done
    → Flushed initial (run l) done
unfolding Flushed run
run-Flushed initial l done h =
    let kept = run_loop_kept l.k l.k l in
    (
      kept.1.1,
      λ ts last.
          run-Shows initial l done ts h last
          ∙ ap₂ (λ u order. done ++ unmtf (u ∷ order) 1 ts) (sym kept.0) (sym kept.1.0),
    )

-- the state after the values have been moved
abbrev after : ℕ → Locals → List ℕ × ℕ → Locals
after c l r = put_symbol (r.1 + 2) (record l { u = c; order = l.u ∷ r.0 })

after-Shows :
    (initial : List ℕ) (l : Locals) (done : List ℕ) (c : ℕ) (r : List ℕ × ℕ)
    → Flushed initial l done
    → Found c l.order (some r)
    → Shows initial (after c l r) (done ++ c ∷ [])
unfolding Flushed Shows put_symbol Found
after-Shows initial l done c r h f = (
  done ++ c ∷ [],
  (
    sym (append-nil (done ++ c ∷ [])) ∙ ap (λ n. (done ++ c ∷ []) ++ replicate n c) (sym h.0),
    λ ts.
        ap (unmtf initial 1) (append_assoc l.mtfv ((r.1 + 2) ∷ []) ts)
        ∙ h.1 ((r.1 + 2) ∷ ts) (symbol_NoDigit r.1 ts)
        ∙ ap (◌++◌ done) (symbol_front l.u c r.1 l.order r.0 ts f.0 f.1.0)
        ∙ sym (append_assoc done (c ∷ []) (unmtf (c ∷ l.u ∷ r.0) 1 ts)),
  ),
)

after-Has :
    (l : Locals) (c : ℕ) (r : List ℕ × ℕ) → Has l → Found c l.order (some r) → Has (after c l r)
unfolding put_symbol Found contains
after-Has l c r has f x lt = elim (Bool-cases (c == x)) [
  | inl same ↦ rw same refl
  | inr other ↦ rw other (elim (Bool-cases (l.u == x)) [
    | inl first ↦ rw first refl
    | inr later ↦ rw later (f.1.1 x (rest_of (l.u == x) _ later (has x lt)) other)
  ])
]

-- the loop has an outcome that is right
unfoldable pub Shown : List ℕ → List ℕ → Option Locals → Type 0
Shown initial done none = ⊥
Shown initial done (some l) = unmtf initial 1 l.mtfv ≡ done

-- A step keeps the invariant.
unfoldable pub Kept : List ℕ → List ℕ → Option Locals → Type 0
Kept initial done none = ⊥
Kept initial done (some l) = Has l × Shows initial l done

moved-Kept :
    (initial : List ℕ) (l : Locals) (done : List ℕ) (c : ℕ) (r : Option (List ℕ × ℕ))
    → Flushed initial l done
    → Has l
    → contains c l.order ≡ true
    → Found c l.order r
    → Kept initial (done ++ c ∷ []) (moved c l r)
unfolding Kept Found
moved-Kept initial l done c none h has there f = absurd (ground arith)
moved-Kept initial l done c (some r) h has there f =
    (after-Has l c r has f, after-Shows initial l done c r h f)

mtf_order-Kept :
    (initial : List ℕ) (l : Locals) (done : List ℕ) (c : ℕ) (order : List ℕ)
    → l.order ≡ order
    → Flushed initial l done
    → Has l
    → contains c l.order ≡ true
    → Kept initial (done ++ c ∷ []) (mtf_order c l order)
unfolding contains mtf_order displace
mtf_order-Kept initial l done c [] e h has there =
    absurd (ground (arith, ap (contains c) (sym e) ∙ there))
mtf_order-Kept initial l done c (t ∷ order) e h has there =
    moved-Kept initial l done c (displace c t order) h has there
      (subst (λ xs. Found c xs (displace c t order)) (sym e) (displace-Found c t order))

pub mtf-Kept :
    (initial : List ℕ) (l : Locals) (done : List ℕ) (c : ℕ)
    → Flushed initial l done
    → Has l
    → c < 256
    → (c == l.u) ≡ false
    → Kept initial (done ++ c ∷ []) (mtf c l)
unfolding mtf contains
mtf-Kept initial l done c h has lt other =
    mtf_order-Kept initial l done c l.order refl h has (other_first c l.u _ other (has c lt))

pub run-Has : (l : Locals) → Has l → Has (run l)
unfolding run
run-Has l has c lt =
    let kept = run_loop_kept l.k l.k l in
    ap₂ (λ u order. contains c (u ∷ order)) kept.0 kept.1.0 ∙ has c lt

pub run-Shown :
    (initial : List ℕ) (l : Locals) (done : List ℕ)
    → Shows initial l done
    → Shown initial done (some (run l))
unfolding Shown unmtf
run-Shown initial l done h =
    ap (unmtf initial 1) (sym (append-nil (run l).mtfv))
    ∙ run-Shows initial l done [] h (λ front w. refl)
    ∙ append-nil done
