-- ===== src/Mtf.antt =====
-- src/encode.c, make_map_e() and do_mtf(): a sorted block becomes a sequence of symbols.
pub mod Front
pub mod Invariant
pub mod Correct
pub mod Map
pub mod Frequencies
mod Tests
use lbzip.Shared.{
  ℕ, zero, suc, ◌+◌, ◌-◌, ◌*◌, ◌/◌, ◌%◌, List, [], ◌∷◌, ◌++◌, Bool, true, false, Option, none, some,
  ◌==◌, leb, if◌then◌else◌, get_or,
}

-- `inuse` from some index on, where `j` bytes are in use before it: `cmap`, and how many are in use
unfoldable pub make_map : List Bool → ℕ → List ℕ × ℕ
make_map [] j = ([], j)
make_map (k ∷ inuse) j = let rest = make_map inuse (if k then suc j else j) in (j ∷ rest.0, rest.1)

unfoldable pub make_map_e : List Bool → List ℕ × ℕ
unfolding make_map
make_map_e inuse = make_map inuse 0

-- the local variables: `mtfv` holds the symbols written so far, and `mtffreq` is an array
pub record Locals : Type 0 where
  pub u : ℕ
  pub order : List ℕ
  pub k : ℕ
  pub mtfv : List ℕ
  pub mtffreq : ℕ → ℕ

-- `mtffreq[*mtfv++ = t]++`
unfoldable pub put_symbol : ℕ → Locals → Locals
put_symbol t l = record l {
  mtfv = l.mtfv ++ t ∷ [];
  mtffreq = λ x. if t == x then suc (l.mtffreq x) else l.mtffreq x;
}

-- RUN(), the `do` loop for `k`: the symbols of a run
unfoldable pub run_loop : ℕ → ℕ → Locals → Locals
unfolding put_symbol
run_loop zero k l = record l { k = 0 }
run_loop (suc fuel) k l =
    if k == 0 then record l { k = 0 } else run_loop fuel ((k - 1) / 2) (put_symbol ((k - 1) % 2) l)

-- Each round halves `k` at least, so that `k` rounds are enough.
unfoldable pub run : Locals → Locals
unfolding run_loop
run l = run_loop l.k l.k l

abbrev pub later : ℕ → Option (List ℕ × ℕ) → Option (List ℕ × ℕ)
later t none = none
later t (some r) = some (t ∷ r.0, suc r.1)

-- MTF(), the loop: `t` is the value taken from the place looked at, and `xs` are the values behind
-- it. The result has the values from the next place on, each moved by one up to the place of `c`,
-- and how many places further that is; there is none if the loop leaves the array.
unfoldable pub displace : ℕ → ℕ → List ℕ → Option (List ℕ × ℕ)
displace c t [] = if c == t then some ([], 0) else none
displace c t (x ∷ xs) =
    let rest = displace c x xs in if c == t then some (x ∷ xs, 0) else later t rest

-- what MTF() makes of the values behind the first place
abbrev pub moved : ℕ → Locals → Option (List ℕ × ℕ) → Option Locals
moved c l none = none
moved c l (some r) = some (put_symbol (r.1 + 2) (record l { u = c; order = l.u ∷ r.0 }))

unfoldable pub mtf_order : ℕ → Locals → List ℕ → Option Locals
unfolding displace
mtf_order c l [] = none
mtf_order c l (t ∷ order) = moved c l (displace c t order)

-- MTF() for the byte `c`
unfoldable pub mtf : ℕ → Locals → Option Locals
unfolding mtf_order put_symbol
mtf c l = mtf_order c l l.order

abbrev pub then_loop : (Locals → Option Locals) → Option Locals → Option Locals
then_loop loop none = none
then_loop loop (some l) = loop l

unfoldable pub mtf_loop : List ℕ → List ℕ → Locals → Option Locals
unfolding run mtf
mtf_loop cmap [] l = some (run l)
mtf_loop cmap (x ∷ bwt) l =
    let c = get_or cmap x 0 in
    then_loop (mtf_loop cmap bwt)
      (if c == l.u then some (record l { k = suc l.k }) else mtf c (run l))

-- the array `order` at the start
unfoldable pub iota : ℕ → ℕ → List ℕ
iota zero i = []
iota (suc n) i = i ∷ iota n (suc i)

unfoldable pub end_of_block : ℕ → Option Locals → Option Locals
unfolding put_symbol
end_of_block eob none = none
end_of_block eob (some l) = some (put_symbol eob l)

unfoldable pub do_mtf : (ℕ → ℕ) → List ℕ → List ℕ → ℕ → Option Locals
unfolding mtf_loop iota end_of_block
do_mtf mtffreq cmap bwt eob = end_of_block eob (
    mtf_loop cmap bwt (record {
      u = 0;
      order = iota 255 1;
      k = 0;
      mtfv = [];
      mtffreq = λ x. if leb x eob then 0 else mtffreq x;
    }))
