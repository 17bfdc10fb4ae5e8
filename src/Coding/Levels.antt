-- ===== src/Coding/Levels.antt =====
-- src/encode.c, assign_codes(): the lengths and the first codes, depth by depth.
use lbzip.Shared.{
  ℕ, zero, suc, ◌+◌, ◌*◌, ◌%◌, ◌^◌, ◌≤◌, ◌<◌, ◌≡◌, refl, sym, ◌∙◌, List, [], ◌∷◌, ◌++◌, ◌==◌, ◌&&◌,
  ltb, leb, leb→le, some, if◌then◌else◌, arith, ap, ap₂, subst, Option-cases, inl, inr, length,
  append_assoc, get_or,
}
use mathlib.Core.Option.{some-injective}
use mathlib.Core.List.{map-append}
use native.Mathlib.Nat.{pow-suc}
use lbzip.Shared.Bags.{count_p-append}
use lbzip.Shared.Table.{holds_below, holds_below_at}
use lbzip.Prefix.{update}
use lbzip.Prefix.Sums.{of_length, sum_below-suc, width, width-half}
use lbzip.Prefix.Base.{space, first_or_later}
use lbzip.Coding.{Given, give, leaf_symbol, avail_at, Coded, code_levels, next_level, number}
use lbzip.Coding.Leaves.{Distinct, symbols, lengths_of, Gave, give-Gave}

-- what is left alone elsewhere is the same here
lengths_same :
    (f g : ℕ → ℕ) (ws others : List ℕ)
    → ((s : ℕ) → of_length s (symbols others) ≡ 0 → f s ≡ g s)
    → Distinct (symbols ws ++ symbols others)
    → lengths_of f ws ≡ lengths_of g ws
lengths_same f g [] others same distinct = refl
lengths_same f g (w ∷ ws) others same distinct =
    let elsewhere : of_length (leaf_symbol w) (symbols others) ≡ 0 = ground (
      arith,
      distinct (leaf_symbol w),
      count_p-append (λ l. l == leaf_symbol w) (symbols ws) (symbols others),
    ) in
    ap₂ (λ x xs. x ∷ xs) (same (leaf_symbol w) elsewhere)
      (lengths_same f g ws others same (λ x. omega (arith, distinct x)))

-- the leaves that were taken from a depth on, for each depth as many as the tree has
pub record Levels (rounds d : ℕ) (row : ℕ → ℕ) (left : List ℕ) (f : ℕ → ℕ) (g : Given)
    : Type 0 where
  pub used : List ℕ
  pub taken : left ≡ used ++ g.left
  pub all :
      Distinct (symbols used)
      → (k : ℕ)
      → of_length k (lengths_of g.length used)
        ≡ (if leb d k && ltb k (d + rounds) then avail_at row k else 0)
  pub kept : (s : ℕ) → of_length s (symbols used) ≡ 0 → g.length s ≡ f s

both :
    (rounds d : ℕ) (row : ℕ → ℕ) (left : List ℕ) (f : ℕ → ℕ) (g g' : Given)
    → Gave (avail_at row d) d left f g
    → Levels rounds (suc d) row g.left g.length g'
    → Levels (suc rounds) d row left f g'
both rounds d row left f g g' here rest =
    let apart = map-append leaf_symbol here.used rest.used in
    record {
      used = here.used ++ rest.used;
      taken =
          here.taken
          ∙ ap (λ xs. here.used ++ xs) rest.taken
          ∙ sym (append_assoc here.used rest.used g'.left);
      all = λ distinct k.
          let together : Distinct (symbols here.used ++ symbols rest.used) =
            subst Distinct apart distinct in
          let split =
            λ (x : ℕ). count_p-append (λ l. l == x) (symbols here.used) (symbols rest.used) in
          rw
            (
              map-append (λ w. g'.length (leaf_symbol w)) here.used rest.used,
              lengths_same g'.length g.length here.used rest.used rest.kept together,
            )
            (ground (
              arith,
              count_p-append (λ l. l == k) (lengths_of g.length here.used)
                  (lengths_of g'.length rest.used),
              here.all (λ x. omega (arith, together x, split x)) k,
              rest.all (λ x. omega (arith, together x, split x)) k,
            ));
      kept = λ s none_of.
          let split = ap (of_length s) (sym apart) ∙ none_of in
          let parts = count_p-append (λ l. l == s) (symbols here.used) (symbols rest.used) in
          rest.kept s (omega (arith, split, parts)) ∙ here.kept s (omega (arith, split, parts));
    }

-- a round that succeeds
next_round :
    (rounds d : ℕ) (row : ℕ → ℕ) (c c' : Coded)
    → code_levels (suc rounds) d row c ≡ some c'
    → (g : Given) × (give (avail_at row d) d c.given.left c.given.length c.given.cost ≡ some g)
      × (code_levels rounds (suc d) row (next_level d (avail_at row d) c g) ≡ some c')
unfolding code_levels
next_round rounds d row c c' e =
    elim (Option-cases (give (avail_at row d) d c.given.left c.given.length c.given.cost)) [
      | inl failed ↦ absurd (cc (rw (failed, code_levels) at e))
      | inr (g, given) ↦ (g, given, rw (given, code_levels) at e)
    ]

pub code_levels-Levels :
    (rounds d : ℕ) (row : ℕ → ℕ) (c c' : Coded)
    → code_levels rounds d row c ≡ some c'
    → Levels rounds d row c.given.left c.given.length c'.given
unfolding code_levels
code_levels-Levels zero d row c c' e =
    subst (λ c'. Levels zero d row c.given.left c.given.length c'.given) (some-injective _ _ e)
      (record {
        used = [];
        taken = refl;
        all = λ distinct k. ground arith;
        kept = λ s none_of. refl;
      })
code_levels-Levels (suc rounds) d row c c' e =
    let round = next_round rounds d row c c' e in
    both rounds d row c.given.left c.given.length round.0 c'.given
      (give-Gave (avail_at row d) d c.given.left c.given.length c.given.cost round.0 round.1)
      (code_levels-Levels rounds (suc d) row (next_level d (avail_at row d) c round.0) c' round.2)

-- The next code is twice as many as there are codes up to the depth `d`, in its units.
abbrev pub Doubled : (ℕ → ℕ) → ℕ → ℕ → Type 0
Doubled counts d next = (m : ℕ) × (next ≡ 2 * m) × (m * width d ≡ space counts (suc d))

double : (m w : ℕ) → 2 * m * w ≡ m * (2 * w)
double m w = grind arith

pub distribute : (a b w : ℕ) → (a + b) * w ≡ a * w + b * w
distribute a b w = grind arith

pow_20 : (d : ℕ) → d ≤ 20 → 2 ^ d ≤ 2 ^ 20
pow_20 d le =
    leb→le _ _
      (holds_below_at 21 (λ d. leb (2 ^ d) (2 ^ 20)) d (unfold holds_below in refl) (omega arith))

next-Doubled :
    (counts : ℕ → ℕ) (d next : ℕ)
    → d < 20
    → counts (suc d) ≤ 258
    → next + 516 ≤ 258 * 2 ^ suc d
    → Doubled counts d next
    → Doubled counts (suc d) ((next + counts (suc d)) * 2 % 2 ^ 32)
      × ((next + counts (suc d)) * 2 % 2 ^ 32 + 516 ≤ 258 * 2 ^ suc (suc d))
      × (next * width (suc d) ≡ space counts (suc d))
next-Doubled counts d next lt few below (m, e, sum) =
    let w = width (suc d) in
    let fits : (next + counts (suc d)) * 2 % 2 ^ 32 ≡ 2 * (next + counts (suc d)) =
      omega (arith, pow_20 (suc d) lt) in
    let base : next * w ≡ space counts (suc d) =
      omega (
        arith,
        sum,
        ap (λ (t : ℕ). t * w) e,
        double m w,
        ap (λ (t : ℕ). m * t) (width-half d lt),
      ) in
    (
      (
        next + counts (suc d),
        fits,
        omega (
          arith,
          base,
          distribute next (counts (suc d)) w,
          sum_below-suc (λ j. counts j * width j) (suc d),
        ),
      ),
      omega (arith, fits, pow-suc 2 (suc d)),
      base,
    )

pub code_levels-codes :
    (counts : ℕ → ℕ) (rounds d : ℕ) (row : ℕ → ℕ) (c c' : Coded)
    → code_levels rounds (suc d) row c ≡ some c'
    → d + rounds ≤ 20
    → ((k : ℕ) → d < k → k ≤ d + rounds → (avail_at row k ≡ counts k) × (counts k ≤ 258))
    → c.next_code + 516 ≤ 258 * 2 ^ suc d
    → Doubled counts d c.next_code
    → Doubled counts (d + rounds) c'.next_code
      × ((k : ℕ) → k ≤ d → c'.base_code k ≡ c.base_code k)
      × ((k : ℕ) → d < k → k ≤ d + rounds → c'.base_code k * width k ≡ space counts k)
unfolding code_levels
code_levels-codes counts zero d row c c' e fits same below doubled =
    let last : d ≡ d + 0 = omega arith in
    subst
      (λ c'.
        Doubled counts (d + 0) c'.next_code
        × ((k : ℕ) → k ≤ d → c'.base_code k ≡ c.base_code k)
        × ((k : ℕ) → d < k → k ≤ d + 0 → c'.base_code k * width k ≡ space counts k))
      (some-injective _ _ e)
      (
        subst (λ i. Doubled counts i c.next_code) last doubled,
        λ k le. refl,
        λ k gt le. absurd (omega arith),
      )
code_levels-codes counts (suc rounds) d row c c' e fits same below doubled =
    let (g, given, later) = next_round rounds (suc d) row c c' e in
    let here = same (suc d) (omega arith) (omega arith) in
    let next = next-Doubled counts d c.next_code (omega arith) here.1 below doubled in
    let added : (c.next_code + avail_at row (suc d)) * 2 % 2 ^ 32
        ≡ (c.next_code + counts (suc d)) * 2 % 2 ^ 32 =
      ap (λ (t : ℕ). (c.next_code + t) * 2 % 2 ^ 32) here.0 in
    let rest =
      code_levels-codes counts rounds (suc d) row (next_level (suc d) (avail_at row (suc d)) c g) c'
        later (omega arith) (λ k gt le. same k (omega arith) (omega arith))
        (omega (arith, added, next.1)) (subst (Doubled counts (suc d)) (sym added) next.0) in
    let last : suc d + rounds ≡ d + suc rounds = omega arith in
    (
      subst (λ i. Doubled counts i c'.next_code) last rest.0,
      λ k le. rest.1 k (omega arith) ∙ ground arith,
      λ k gt le. elim (first_or_later (suc d) k gt) [
        | inl at ↦
            subst (λ i. c'.base_code i * width i ≡ space counts i) at
              (ap (λ (t : ℕ). t * width (suc d)) (rest.1 (suc d) (omega arith) ∙ ground arith)
                ∙ next.2)
        | inr more ↦ rest.2 k more (omega arith)
      ],
    )

pub number_at :
    (before : List ℕ) (k : ℕ) (after : List ℕ) (base : ℕ → ℕ)
    → base k + of_length k before < 2 ^ 32
    → get_or (number (before ++ k ∷ after) base) (length before) 0 ≡ base k + of_length k before
unfolding number
number_at [] k after base fits = omega arith
number_at (x ∷ before) k after base fits =
    number_at before k after (update base x ((base x + 1) % 2 ^ 32)) (ground arith) ∙ ground arith
