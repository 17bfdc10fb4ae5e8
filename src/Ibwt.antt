-- ===== src/Ibwt.antt =====
-- src/decode.c, decode(): the list that leads through a block in its original order.
mod RandTable
pub mod Original
pub mod Columns
pub mod Links
pub mod Reorder
pub mod Rand
pub mod Correct
mod Tests
use lbzip.Shared.{
  ℕ, zero, suc, ◌+◌, ◌-◌, ◌*◌, ◌/◌, ◌%◌, ◌^◌, bit_xor, List, [], ◌∷◌, Bool, true, false, ltb, leb,
  if◌then◌else◌, get_or, set, Option, none, some, ◌==◌, ◌&&◌,
}
use lbzip.Emit.{DecoderState}
use RandTable.{rand_table}

-- what retrieve() leaves in `struct decoder_state`
pub record Retrieved : Type 0 where
  pub rand : Bool
  pub bwt_idx : ℕ
  pub block_size : ℕ
  pub crc : ℕ
  pub ftab : List ℕ
  pub tt : List ℕ

abbrev pub rand_thresh : ℕ
rand_thresh = 617

-- The counts become indices; also their sum.
unfoldable pub cumulate : ℕ → List ℕ → List ℕ × ℕ
cumulate cum [] = ([], cum)
cumulate cum (f ∷ ftab) =
    let rest = cumulate ((cum + f) % 2 ^ 32) ftab in
    (((cum + f) % 2 ^ 32 + 2 ^ 32 - f) % 2 ^ 32 ∷ rest.0, rest.1)

-- The nodes from `i` on, `n` of them, are linked; `ftab` and `tt` are changed.
unfoldable pub link : ℕ → ℕ → List ℕ → List ℕ → List ℕ × List ℕ
link zero i ftab tt = (ftab, tt)
link (suc n) i ftab tt =
    let uc = get_or tt i 0 % 2 ^ 8 in
    let at = get_or ftab uc 0 in
    link n (suc i) (set ftab uc (suc at)) (set tt at ((get_or tt at 0 + i * 2 ^ 8) % 2 ^ 32))

-- `if (j >= ds->ftab[k + before]) k += gain`
abbrev pub narrow : List ℕ → ℕ → ℕ → ℕ → ℕ → ℕ
narrow ftab j before gain k = if leb (get_or ftab (k + before) 0) j then k + gain else k

-- the byte at the position `j` of the sorted block, by binary search
unfoldable pub byte_at : List ℕ → ℕ → ℕ
byte_at ftab j =
    let a = narrow ftab j 127 128 0 in
    let b = narrow ftab j 63 64 a in
    let c = narrow ftab j 31 32 b in
    let d = narrow ftab j 15 16 c in
    let e = narrow ftab j 7 8 d in
    let f = narrow ftab j 3 4 e in let g = narrow ftab j 1 2 f in narrow ftab j 0 1 g

-- The bytes are put in their original order, each in place of the one in its node.
unfoldable pub reorder : ℕ → ℕ → ℕ → List ℕ → List ℕ → List ℕ
unfolding byte_at
reorder zero i j ftab tt = tt
reorder (suc n) i j ftab tt =
    let k = byte_at ftab j in
    let tt' = set tt i (get_or tt i 0 / 2 ^ 8 * 2 ^ 8 + k) in
    reorder n (suc i) (get_or tt' j 0 / 2 ^ 8) ftab tt'

-- Some bytes are changed by 1, at distances from the table.
unfoldable pub flip : ℕ → ℕ → ℕ → ℕ → List ℕ → List ℕ
unfolding rand_table
flip zero size i j tt = tt
flip (suc fuel) size i j tt =
    let i' = (i + 1) % 2 ^ 9 in
    let rest =
      flip fuel size i' (j + get_or rand_table i' 0) (set tt j (bit_xor (get_or tt j 0) 1)) in
    if ltb j size then rest else tt

-- The nodes from `i` on, `n` of them, are linked in their order.
unfoldable pub reform : ℕ → ℕ → List ℕ → List ℕ
reform zero i tt = tt
reform (suc n) i [] = []
reform (suc n) i (x ∷ tt) = (((i + 1) * 2 ^ 8 + x % 2 ^ 8) % 2 ^ 32) ∷ reform n (i + 1) tt

-- Every distance is positive, so that `size` rounds are enough.
unfoldable pub derandomize : Retrieved → List ℕ → List ℕ → List ℕ
unfolding reorder flip reform
derandomize r ftab tt =
    let size = r.block_size in
    reform size 0 (flip size size 0 rand_thresh (reorder size 0 r.bwt_idx ftab tt))

-- none where an assertion fails: that the counts add up, and that the last of them has been used up
unfoldable pub decode : Retrieved → Option DecoderState
unfolding cumulate link derandomize
decode r =
    let indices = cumulate 0 r.ftab in
    let linked = link r.block_size 0 indices.0 r.tt in
    let tt = if r.rand then derandomize r linked.0 linked.1 else linked.1 in
    let decoded : Option DecoderState = some (record {
      tt = tt;
      rle_state = 0;
      rle_crc = 2 ^ 32 - 1;
      rle_index = if r.rand then 0 else get_or tt r.bwt_idx 0;
      rle_avail = r.block_size;
      rle_char = 0;
      rle_prev = 0;
      crc = r.crc;
    }) in
    if (indices.1 == r.block_size) && (get_or linked.0 255 0 == r.block_size) then decoded else none
