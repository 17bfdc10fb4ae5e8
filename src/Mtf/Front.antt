-- ===== src/Mtf/Front.antt =====
-- src/encode.c, do_mtf(): a list whose first value is the last one seen, as a reference.
use lbzip.Shared.{
  ℕ, zero, suc, ◌+◌, ◌-◌, ◌*◌, ◌/◌, ◌%◌, ◌≤◌, ◌<◌, List, [], ◌∷◌, ◌++◌, append_assoc, append-nil,
  ◌≡◌, refl, sym, ap, ◌∙◌, Option, none, some, Bool, true, false, Bool-cases, ◌==◌, ==→eq,
  if◌then◌else◌, replicate, get_or, inl, inr, arith, ◌||◌,
}
use Prim.Native.Nat.add
use lbzip.Collect.Invariant.{contains}
use lbzip.Mtf.{Locals, put_symbol, run_loop, displace, later}

-- the list without the value at a place
unfoldable pub remove : ℕ → List ℕ → List ℕ
remove n [] = []
remove zero (x ∷ xs) = xs
remove (suc n) (x ∷ xs) = x ∷ remove n xs

-- What symbols stand for, where `front` lists the values, the last one seen first, and a digit of a
-- run weighs `w`. The digits 0 and 1 stand for one and two, times the weight, which doubles.
unfoldable pub unmtf : List ℕ → ℕ → List ℕ → List ℕ
unmtf front w [] = []
unmtf front w (zero ∷ ts) = replicate w (get_or front 0 0) ++ unmtf front (w * 2) ts
unmtf front w (suc zero ∷ ts) = replicate (w * 2) (get_or front 0 0) ++ unmtf front (w * 2) ts
unmtf front w (suc (suc n) ∷ ts) =
    let c = get_or front (suc n) 0 in c ∷ unmtf (c ∷ remove (suc n) front) 1 ts

-- The symbols written so far and the run not yet written stand for `done`.
unfoldable pub Shows : List ℕ → Locals → List ℕ → Type 0
Shows initial l done =
    (out : List ℕ) × ((done ≡ out ++ replicate l.k l.u)
      × ((ts : List ℕ) → unmtf initial 1 (l.mtfv ++ ts) ≡ out ++ unmtf (l.u ∷ l.order) 1 ts))

-- The value was found at the place `n`, and `ys` is the list without it; or it is not there.
unfoldable pub Found : ℕ → List ℕ → Option (List ℕ × ℕ) → Type 0
Found c front none = contains c front ≡ false
Found c front (some r) =
    (get_or front r.1 0 ≡ c)
    × ((remove r.1 front ≡ r.0)
        × ((x : ℕ) → contains x front ≡ true → (c == x) ≡ false → contains x r.0 ≡ true))

not_there : (c t : ℕ) (b : Bool) → (c == t) ≡ false → b ≡ false → ((t == c) || b) ≡ false
not_there c t b on h = ground arith

gone :
    (c t x : ℕ) (b : Bool) → (c == t) ≡ true → ((t == x) || b) ≡ true → (c == x) ≡ false → b ≡ true
gone c t x b here there other = ground arith

stays :
    (t x : ℕ) (a b : Bool) → ((t == x) || a) ≡ true → (a ≡ true → b ≡ true) → ((t == x) || b) ≡ true
stays t x true b there h = elim (Bool-cases (t == x)) [
  | inl same ↦ rw same refl
  | inr other ↦ rw (other, h refl) refl
]
stays t x false b there h = elim (Bool-cases (t == x)) [
  | inl same ↦ rw same refl
  | inr other ↦ absurd (ground arith)
]

later-Found :
    (c t : ℕ) (xs : List ℕ) (r : Option (List ℕ × ℕ))
    → (c == t) ≡ false
    → Found c xs r
    → Found c (t ∷ xs) (later t r)
unfolding Found remove contains
later-Found c t xs none on h = not_there c t (contains c xs) on h
later-Found c t xs (some r) on h = (
  h.0,
  (
    ap (◌∷◌ t) h.1.0,
    λ x there other. stays t x (contains x xs) (contains x r.0) there (λ b. h.1.1 x b other),
  ),
)

pub displace-Found : (c t : ℕ) (xs : List ℕ) → Found c (t ∷ xs) (displace c t xs)
unfolding displace Found remove contains
displace-Found c t [] = elim (Bool-cases (c == t)) [
  | inl here ↦
      rw here (sym (==→eq c t here), (refl, λ x there other. gone c t x false here there other))
  | inr on ↦ rw on (not_there c t false on refl)
]
displace-Found c t (x ∷ xs) = elim (Bool-cases (c == t)) [
  | inl here ↦
      rw here (sym (==→eq c t here), (refl, λ y there other. gone c t y _ here there other))
  | inr on ↦ rw on (later-Found c t (x ∷ xs) (displace c x xs) on (displace-Found c x xs))
]

-- the symbols of a run
unfoldable pub run_digits : ℕ → ℕ → List ℕ
run_digits zero k = []
run_digits (suc fuel) k = if k == 0 then [] else ((k - 1) % 2) ∷ run_digits fuel ((k - 1) / 2)

-- symbols that do not go on with a run
abbrev pub NoDigit : List ℕ → Type 0
NoDigit ts = (front : List ℕ) (w : ℕ) → unmtf front w ts ≡ unmtf front 1 ts

replicate-split : (n k x : ℕ) → replicate (n + k) x ≡ replicate n x ++ replicate k x
replicate-split zero k x = rw add.zero refl
replicate-split (suc n) k x = rw add.suc (ap (◌∷◌ x) (replicate-split n k x))

unmtf_digit :
    (d w u : ℕ) (order ts : List ℕ)
    → d < 2
    → unmtf (u ∷ order) w (d ∷ ts) ≡ replicate (w * (d + 1)) u ++ unmtf (u ∷ order) (w * 2) ts
unfolding unmtf
unmtf_digit zero w u order ts lt =
    ap (λ n. replicate n u ++ unmtf (u ∷ order) (w * 2) ts) (omega arith)
unmtf_digit (suc zero) w u order ts lt =
    ap (λ n. replicate n u ++ unmtf (u ∷ order) (w * 2) ts) (omega arith)
unmtf_digit (suc (suc d)) w u order ts lt = absurd (omega arith)

no_run_left :
    (w k u : ℕ) (order ts : List ℕ)
    → k ≡ 0
    → NoDigit ts
    → unmtf (u ∷ order) w ts ≡ replicate (w * k) u ++ unmtf (u ∷ order) 1 ts
no_run_left w k u order ts e last =
    let nothing : w * k ≡ 0 = rw e (omega arith) in rw nothing (last (u ∷ order) w)

-- A run is written as a number, the lowest digit first.
pub unmtf-run_digits :
    (fuel k w : ℕ) (u : ℕ) (order ts : List ℕ)
    → k ≤ fuel
    → NoDigit ts
    → unmtf (u ∷ order) w (run_digits fuel k ++ ts) ≡ replicate (w * k) u ++ unmtf (u ∷ order) 1 ts
unfolding run_digits
unmtf-run_digits zero k w u order ts le last = no_run_left w k u order ts (omega arith) last
unmtf-run_digits (suc fuel) k w u order ts le last = elim (Bool-cases (k == 0)) [
  | inl empty ↦ rw empty (no_run_left w k u order ts (==→eq k 0 empty) last)
  | inr more ↦
      let d = (k - 1) % 2 in
      let m = (k - 1) / 2 in
      let digits : k ≡ d + 1 + 2 * m = ground arith in
      let parts : w * k ≡ w * (d + 1) + w * 2 * m = ap (λ (n : ℕ). w * n) digits ∙ omega arith in
      rw more (
        unmtf_digit d w u order (run_digits fuel m ++ ts) (omega arith)
        ∙ ap (◌++◌ (replicate (w * (d + 1)) u))
            (unmtf-run_digits fuel m (w * 2) u order ts (ground arith) last)
        ∙ sym (
            append_assoc (replicate (w * (d + 1)) u) (replicate (w * 2 * m) u)
              (unmtf (u ∷ order) 1 ts))
        ∙ ap (λ xs. xs ++ unmtf (u ∷ order) 1 ts)
            (sym (ap (λ n. replicate n u) parts ∙ replicate-split (w * (d + 1)) (w * 2 * m) u)))
]

-- RUN() writes the symbols of the run.
pub run_loop-digits :
    (fuel k : ℕ) (l : Locals) → (run_loop fuel k l).mtfv ≡ l.mtfv ++ run_digits fuel k
unfolding run_loop run_digits put_symbol
run_loop-digits zero k l = sym (append-nil l.mtfv)
run_loop-digits (suc fuel) k l = elim (Bool-cases (k == 0)) [
  | inl empty ↦ rw empty (sym (append-nil l.mtfv))
  | inr more ↦ rw more (
      run_loop-digits fuel ((k - 1) / 2) (put_symbol ((k - 1) % 2) l)
      ∙ append_assoc l.mtfv (((k - 1) % 2) ∷ []) (run_digits fuel ((k - 1) / 2)))
]

pub run_loop_kept :
    (fuel k : ℕ) (l : Locals)
    → ((run_loop fuel k l).u ≡ l.u)
      × (((run_loop fuel k l).order ≡ l.order) × ((run_loop fuel k l).k ≡ 0))
unfolding run_loop put_symbol
run_loop_kept zero k l = (refl, (refl, refl))
run_loop_kept (suc fuel) k l = elim (Bool-cases (k == 0)) [
  | inl empty ↦ rw empty (refl, (refl, refl))
  | inr more ↦ rw more (run_loop_kept fuel ((k - 1) / 2) (put_symbol ((k - 1) % 2) l))
]
