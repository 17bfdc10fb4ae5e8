-- ===== src/Mtf/Map.antt =====
-- src/encode.c, make_map_e(): the numbers of the bytes in use.
use lbzip.Shared.{
  ℕ, zero, suc, ◌+◌, ◌<◌, List, [], ◌∷◌, ◌≡◌, Bool, true, false, get_or, take, length, arith,
}
use lbzip.Mtf.{make_map, make_map_e}

-- how many flags of a list are set
unfoldable pub set_flags : List Bool → ℕ
set_flags [] = 0
set_flags (true ∷ ks) = suc (set_flags ks)
set_flags (false ∷ ks) = set_flags ks

make_map-set_flags :
    (inuse : List Bool) (j i : ℕ)
    → i < length inuse
    → get_or (make_map inuse j).0 i 0 ≡ j + set_flags (take i inuse)
unfolding make_map set_flags
make_map-set_flags [] j i lt = absurd (omega arith)
make_map-set_flags (k ∷ inuse) j zero lt = omega arith
make_map-set_flags (true ∷ inuse) j (suc i) lt =
    omega (arith, make_map-set_flags inuse (suc j) i (omega arith))
make_map-set_flags (false ∷ inuse) j (suc i) lt =
    omega (arith, make_map-set_flags inuse j i (omega arith))

make_map_total : (inuse : List Bool) (j : ℕ) → (make_map inuse j).1 ≡ j + set_flags inuse
unfolding make_map set_flags
make_map_total [] j = omega arith
make_map_total (true ∷ inuse) j = omega (arith, make_map_total inuse (suc j))
make_map_total (false ∷ inuse) j = omega (arith, make_map_total inuse j)

-- make_map_e() numbers each byte by how many smaller ones are in use, and returns how many are.
pub make_map_e-set_flags :
    (inuse : List Bool) (i : ℕ)
    → i < length inuse
    → (get_or (make_map_e inuse).0 i 0 ≡ set_flags (take i inuse))
      × ((make_map_e inuse).1 ≡ set_flags inuse)
unfolding make_map_e
make_map_e-set_flags inuse i lt =
    (omega (arith, make_map-set_flags inuse 0 i lt), omega (arith, make_map_total inuse 0))
