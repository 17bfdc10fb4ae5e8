-- ===== src/Mtf/Frequencies.antt =====
-- src/encode.c, do_mtf(): the frequencies of the symbols.
use lbzip.Shared.{
  ℕ, zero, suc, ◌+◌, ◌-◌, ◌/◌, ◌%◌, ◌≤◌, ◌<◌, List, [], ◌∷◌, ◌++◌, ◌≡◌, refl, sym, ap, ◌∙◌, Option,
  none, some, Bool, true, false, Bool-cases, ◌==◌, if◌then◌else◌, get_or, map, inl, inr, arith, leb,
}
use lbzip.Mtf.{
  Locals, put_symbol, run_loop, run, displace, moved, mtf_order, mtf, then_loop, mtf_loop,
  end_of_block, do_mtf,
}
use lbzip.Mtf.Correct.{Codes, do_mtf-Codes}

-- how often a symbol occurs
unfoldable pub occurrences : ℕ → List ℕ → ℕ
occurrences x [] = 0
occurrences x (t ∷ ts) = if t == x then suc (occurrences x ts) else occurrences x ts

abbrev Counted : ℕ → Locals → Type 0
Counted eob l = (x : ℕ) → x ≤ eob → l.mtffreq x ≡ occurrences x l.mtfv

unfoldable AllCounted : ℕ → Option Locals → Type 0
AllCounted eob none = 0 ≤ 0
AllCounted eob (some l) = Counted eob l

swap_if :
    (a b : Bool) (n : ℕ)
    → (if a then suc (if b then suc n else n) else (if b then suc n else n))
      ≡ (if b then suc (if a then suc n else n) else (if a then suc n else n))
swap_if true true n = refl
swap_if true false n = refl
swap_if false b n = refl

occurrences-snoc :
    (x t : ℕ) (ts : List ℕ)
    → occurrences x (ts ++ t ∷ []) ≡ (if t == x then suc (occurrences x ts) else occurrences x ts)
unfolding occurrences
occurrences-snoc x t [] = refl
occurrences-snoc x t (y ∷ ts) =
    ap (λ (n : ℕ). if y == x then suc n else n) (occurrences-snoc x t ts)
    ∙ swap_if (y == x) (t == x) (occurrences x ts)

put_symbol-Counted : (eob t : ℕ) (l : Locals) → Counted eob l → Counted eob (put_symbol t l)
unfolding put_symbol
put_symbol-Counted eob t l h x le =
    ap (λ (n : ℕ). if t == x then suc n else n) (h x le) ∙ sym (occurrences-snoc x t l.mtfv)

run_loop-Counted : (fuel k eob : ℕ) (l : Locals) → Counted eob l → Counted eob (run_loop fuel k l)
unfolding run_loop
run_loop-Counted zero k eob l h x le = h x le
run_loop-Counted (suc fuel) k eob l h x le = elim (Bool-cases (k == 0)) [
  | inl empty ↦ rw empty (h x le)
  | inr more ↦ rw more (
      run_loop-Counted fuel ((k - 1) / 2) eob (put_symbol ((k - 1) % 2) l)
        (put_symbol-Counted eob ((k - 1) % 2) l h) x le)
]

moved-AllCounted :
    (eob c : ℕ) (l : Locals) (r : Option (List ℕ × ℕ))
    → Counted eob l
    → AllCounted eob (moved c l r)
unfolding AllCounted
moved-AllCounted eob c l none h = omega arith
moved-AllCounted eob c l (some r) h =
    put_symbol-Counted eob (r.1 + 2) (record l { u = c; order = l.u ∷ r.0 }) h

mtf_order-AllCounted :
    (eob c : ℕ) (l : Locals) (order : List ℕ) → Counted eob l → AllCounted eob (mtf_order c l order)
unfolding mtf_order displace AllCounted
mtf_order-AllCounted eob c l [] h = omega arith
mtf_order-AllCounted eob c l (t ∷ order) h = moved-AllCounted eob c l (displace c t order) h

next-AllCounted :
    (eob c : ℕ) (l : Locals)
    → Counted eob l
    → AllCounted eob (if c == l.u then some (record l { k = suc l.k }) else mtf c (run l))
unfolding AllCounted mtf run
next-AllCounted eob c l h = elim (Bool-cases (c == l.u)) [
  | inl same ↦ rw same h
  | inr other ↦
      rw other (mtf_order-AllCounted eob c (run l) (run l).order (run_loop-Counted l.k l.k eob l h))
]

then_loop-AllCounted :
    (eob : ℕ) (loop : Locals → Option Locals) (next : Option Locals)
    → ((l : Locals) → Counted eob l → AllCounted eob (loop l))
    → AllCounted eob next
    → AllCounted eob (then_loop loop next)
unfolding AllCounted
then_loop-AllCounted eob loop none later h = omega arith
then_loop-AllCounted eob loop (some l) later h = later l h

mtf_loop-AllCounted :
    (eob : ℕ) (cmap bwt : List ℕ) (l : Locals)
    → Counted eob l
    → AllCounted eob (mtf_loop cmap bwt l)
unfolding mtf_loop AllCounted run
mtf_loop-AllCounted eob cmap [] l h = run_loop-Counted l.k l.k eob l h
mtf_loop-AllCounted eob cmap (x ∷ bwt) l h =
    then_loop-AllCounted eob (mtf_loop cmap bwt) _ (mtf_loop-AllCounted eob cmap bwt)
      (next-AllCounted eob (get_or cmap x 0) l h)

-- There is a result, and its frequencies are right.
unfoldable pub Frequencies : ℕ → Option Locals → Type 0
Frequencies eob none = ⊥
Frequencies eob (some l) = (x : ℕ) → x ≤ eob → l.mtffreq x ≡ occurrences x l.mtfv

end-Frequencies :
    (eob : ℕ) (values : List ℕ) (o : Option Locals)
    → Codes values eob (end_of_block eob o)
    → AllCounted eob o
    → Frequencies eob (end_of_block eob o)
unfolding Codes AllCounted Frequencies end_of_block
end-Frequencies eob values none c h = c
end-Frequencies eob values (some l) c h = put_symbol-Counted eob eob l h

start_zero : (mtffreq : ℕ → ℕ) (eob x : ℕ) → x ≤ eob → (if leb x eob then 0 else mtffreq x) ≡ 0
start_zero mtffreq eob x le = ground arith

-- Where the numbers in `cmap` are below 256, do_mtf() counts in `mtffreq`, for each symbol up to
-- that of the end, how often it has written it.
pub do_mtf-Frequencies :
    (mtffreq : ℕ → ℕ) (cmap bwt : List ℕ) (eob : ℕ)
    → ((x : ℕ) → get_or cmap x 0 < 256)
    → Frequencies eob (do_mtf mtffreq cmap bwt eob)
unfolding do_mtf occurrences
do_mtf-Frequencies mtffreq cmap bwt eob small =
    end-Frequencies eob (map (λ x. get_or cmap x 0) bwt) _ (do_mtf-Codes mtffreq cmap bwt eob small)
      (mtf_loop-AllCounted eob cmap bwt _ (start_zero mtffreq eob))
