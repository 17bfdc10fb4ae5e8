-- ===== src/Selectors/Correct.antt =====
-- src/encode.c, encode(): the selectors that have been moved to the front can be told again.
use lbzip.Shared.{
  ℕ, suc, ◌≤◌, ◌<◌, ◌≡◌, refl, ap, ap₂, ◌∙◌, List, [], ◌∷◌, Bool, true, Option, some, ltb, ◌&&◌,
  ◌==◌, ◌+◌, ◌++◌, length, false, get_or, map, arith,
}
use mathlib.Core.Option
use lbzip.Shared.Bags.{All, total}
use lbzip.Selectors.{Mapping, max_trees, select, select_loop, select_all, placed}
use lbzip.Selectors.Step.{pack, is_order, to_front, select-IsRound}

-- the selectors that places stand for, where `front` lists the trees
unfoldable pub unselect : List ℕ → List ℕ → List ℕ
unselect front [] = []
unselect front (j ∷ js) = get_or front j 0 ∷ unselect (to_front j front) js

abbrev pub Chosen : List ℕ → List ℕ → Option (List ℕ × ℕ) → Type 0
Chosen front chosen o =
    (js : List ℕ) × (o ≡ some (js, total suc js))
    × (unselect front js ≡ chosen)
    × All (λ j. j < 6) js

-- Each selector is one of six, and stands for a tree that there is.
abbrev pub Known : Mapping → List ℕ → Type 0
Known m = All (λ c. (c < max_trees) × (m.tmap_old2new c < m.num_trees))

known_test :
    (m : Mapping) (c i : ℕ)
    → m.tmap_old2new c < m.num_trees
    → i < m.num_selectors
    → (ltb (m.tmap_old2new c) m.num_trees && ltb i m.num_selectors) ≡ true
known_test m c i low before = ground arith

select_loop-Chosen :
    (builtin : Bool) (m : Mapping) (i : ℕ) (front sp after : List ℕ)
    → is_order front ≡ true
    → m.num_trees ≤ max_trees
    → i + length sp ≤ m.num_selectors
    → Known m sp
    → Chosen front
        (map m.tmap_old2new sp)
        (select_loop builtin m i (pack front) (sp ++ max_trees ∷ after))
unfolding select_loop unselect
select_loop-Chosen builtin m i front [] after o h room all = ([], refl, refl, tt)
select_loop-Chosen builtin m i front (c ∷ sp) after o h room ((one_of, low), all) =
    let r = select-IsRound builtin front (m.tmap_old2new c) o (omega arith) in
    let s = select builtin (pack front) (m.tmap_old2new c) in
    let (js, run, told, below) =
      select_loop-Chosen builtin m (suc i) (to_front s.1 front) sp after r.order h (omega arith)
        all in
    let goes_on : (c == max_trees) ≡ false = ground arith in
    (
      s.1 ∷ js,
      rw (goes_on, known_test m c i low (omega arith))
          (ap (Option.map (placed s.1))
              (ap (λ p. select_loop builtin m (suc i) p (sp ++ max_trees ∷ after)) r.packed ∙ run)
            ∙ ap (λ n. some (s.1 ∷ js, n)) (omega arith)),
      ap₂ (λ x xs. x ∷ xs) r.place told,
      (r.below, below),
    )

-- Where the selectors before MAX_TREES are no more than there is room for, each stands for one of at
-- most six trees, and the first for tree 0, no assertion fails, and the places that the loop writes,
-- below six, tell the trees of the selectors again: each is the place of its tree in the list of trees,
-- which the tree then leaves for the front. Their cost is one more than each place. This is so with the
-- builtin function of the compiler and without it.
pub select_all-Chosen :
    (builtin : Bool) (m : Mapping) (c : ℕ) (sp after : List ℕ)
    → m.num_trees ≤ max_trees
    → suc (length sp) ≤ m.num_selectors
    → Known m (c ∷ sp)
    → m.tmap_old2new c ≡ 0
    → Chosen
        (0 ∷ 1 ∷ 2 ∷ 3 ∷ 4 ∷ 5 ∷ [])
        (map m.tmap_old2new (c ∷ sp))
        (select_all builtin m (c ∷ sp ++ max_trees ∷ after))
unfolding select_all pack
select_all-Chosen builtin m c sp after h room known first =
    let test : (ltb c max_trees && (m.tmap_old2new c == 0)) ≡ true = ground (arith, known.0.0) in
    rw test (
      select_loop-Chosen builtin m 0 (0 ∷ 1 ∷ 2 ∷ 3 ∷ 4 ∷ 5 ∷ []) (c ∷ sp) after refl h
        (omega arith) known)
