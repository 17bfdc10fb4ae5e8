-- ===== src/Selectors.antt =====
-- src/encode.c, the loop of encode() that moves the selectors to the front: the whole list of trees
-- is packed into one number of 32 bits, four for each tree.
pub mod Step
pub mod Correct
pub mod Tests
use lbzip.Shared.{
  ℕ, zero, suc, ◌+◌, ◌-◌, ◌*◌, ◌/◌, ◌%◌, ◌^◌, List, [], ◌∷◌, Bool, true, false, ◌==◌, ltb, ◌&&◌,
  Option, none, some, if◌then◌else◌, bit_and, bit_or, bit_xor,
}
use mathlib.Core.Option

-- `max_trees` is MAX_TREES, and ends the list of selectors in memory
abbrev pub max_trees : ℕ
max_trees = 6

-- the mask of all bits up to the lowest place at which the list agrees with `c`
unfoldable pub mask : ℕ → ℕ → ℕ
mask p c =
    let v = bit_xor p (0x111111 * c % 2 ^ 32) in
    let z = bit_and ((v + 0xEEEEEF) % 2 ^ 32) 0x888888 in bit_xor z ((z + (2 ^ 32 - 1)) % 2 ^ 32)

-- the place of the lowest bit, where the builtin function is used and where it is not
unfoldable pub count_zeros : ℕ → ℕ → ℕ
count_zeros zero h = 0
count_zeros (suc fuel) h = if h % 2 == 1 then 0 else suc (count_zeros fuel (h / 2))

unfoldable pub place_builtin : ℕ → ℕ
unfolding count_zeros
place_builtin h = count_zeros 32 h / 2 ^ 2 - 1

unfoldable pub place_portable : ℕ → ℕ
place_portable h =
    let lowest = bit_and h ((2 ^ 32 - h) % 2 ^ 32) in
    let j = if bit_and lowest 0x01010100 == 0 then 0 else 1 in
    let spread = bit_or lowest (lowest / 2 ^ 4) in
    bit_and (bit_or (bit_or j (spread / 2 ^ 11)) (spread / 2 ^ 18)) 7

-- one round of the loop: the list and the place of `c` in it
unfoldable pub select : Bool → ℕ → ℕ → ℕ × ℕ
unfolding mask place_builtin place_portable
select builtin p c =
    let l = mask p c in
    let h = 2 ^ 32 - 1 - l in
    (
      bit_and (bit_or p l) (bit_or (bit_or (p * 2 ^ 4 % 2 ^ 32) h) c),
      if builtin then place_builtin h else place_portable h,
    )

-- a round before the others: its place, and what it costs
abbrev pub placed : ℕ → List ℕ × ℕ → List ℕ × ℕ
placed j r = (j ∷ r.0, j + 1 + r.1)

-- the fields of the encoder that the loop reads
pub record Mapping : Type 0 where
  pub num_trees : ℕ
  pub num_selectors : ℕ
  pub tmap_old2new : ℕ → ℕ

-- The loop at the selector of the number `i`, where `sp` is the array from it on: the places, and their
-- cost. None where an assertion fails: that there is such a tree, and such a selector. None also where
-- the array ends before MAX_TREES, which would be read past its end.
unfoldable pub select_loop : Bool → Mapping → ℕ → ℕ → List ℕ → Option (List ℕ × ℕ)
unfolding select
select_loop builtin m i p [] = none
select_loop builtin m i p (c ∷ sp) =
    let s = select builtin p (m.tmap_old2new c) in
    let rest = select_loop builtin m (suc i) s.0 sp in
    if c == max_trees
    then some ([], 0)
    else if ltb (m.tmap_old2new c) m.num_trees && ltb i m.num_selectors
    then Option.map (placed s.1) rest
    else none

-- with the list of trees at the start; none also where an assertion on the first selector fails
unfoldable pub select_all : Bool → Mapping → List ℕ → Option (List ℕ × ℕ)
unfolding select_loop
select_all builtin m [] = none
select_all builtin m (c ∷ sp) =
    if ltb c max_trees && (m.tmap_old2new c == 0)
    then select_loop builtin m 0 0x543210 (c ∷ sp)
    else none
