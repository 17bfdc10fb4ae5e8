-- ===== src/Imtf.antt =====
-- src/decode.c, mtf_one(): the inverse of move to front, on sliding lists. A pointer into the pool is
-- an index, and the pool and the rows are functions of theirs.
pub mod Rows
pub mod Rebuild
pub mod Whole
pub mod Far
pub mod Correct
pub mod Tests
use lbzip.Shared.{
  ℕ, zero, suc, ◌+◌, ◌-◌, ◌*◌, ◌/◌, ◌%◌, ◌==◌, ltb, leb, if◌then◌else◌, Option, none, some,
}
use mathlib.Core.Option
use lbzip.Prefix.{update}

abbrev pub row_width : ℕ
row_width = 16

abbrev pub slide_length : ℕ
slide_length = 8192

abbrev pub num_rows : ℕ
num_rows = 16

-- `imtf_row` and `imtf_slide`
pub record Lists : Type 0 where
  pub row : ℕ → ℕ
  pub slide : ℕ → ℕ

-- The `n` elements behind `base` are those before them: pp[n] = pp[n - 1], down to pp[1].
unfoldable pub move_up : ℕ → ℕ → (ℕ → ℕ) → ℕ → ℕ
move_up zero base f = f
move_up (suc n) base f = move_up n base (update f (base + suc n) (f (base + n)))

-- `while (bb > bg) *--kk = *--bb`, for `n` elements
unfoldable pub copy_down : ℕ → ℕ → ℕ → (ℕ → ℕ) → ℕ → ℕ
copy_down zero bb kk f = f
copy_down (suc n) bb kk f = copy_down n (bb - 1) (kk - 1) (update f (kk - 1) (f (bb - 1)))

-- The rows below `rr` are put at the end of the pool, each before the next, from `kk` down; none where
-- the assertion fails that a row is inside the pool, of which no index is before the start.
unfoldable pub rebuild : ℕ → ℕ → Lists → Option Lists
rebuild zero kk s = some s
rebuild (suc rr) kk s =
    let rest = rebuild rr (kk - row_width) (record {
      row = update s.row rr (kk - row_width);
      slide = copy_down row_width (s.row rr + row_width) kk s.slide;
    }) in
    if leb (s.row rr + row_width) slide_length then rest else none

-- Each row before `lno` is extended at its front, and its last element goes to the next row.
unfoldable pub shift_rows : ℕ → Lists → Lists
shift_rows zero s = s
shift_rows (suc lno) s =
    let pp = s.row lno - 1 in
    shift_rows lno (record {
      row = update s.row lno pp;
      slide = update s.slide (s.row (suc lno)) (s.slide (pp + row_width));
    })

-- the general case
unfoldable pub mtf_far : Lists → ℕ → ℕ × Lists
mtf_far s c =
    let lno = c / row_width in
    let bb = s.row lno in
    let x = s.slide (bb + c % row_width) in
    let moved = shift_rows lno (record s { slide = move_up (c % row_width) bb s.slide }) in
    (x, record moved { slide = update moved.slide (moved.row 0) x })

-- the special case of the first row; none where it aborts, since the switch has no case for index 0
unfoldable pub mtf_near : Lists → ℕ → Option (ℕ × Lists)
mtf_near s zero = none
mtf_near s (suc n) =
    let c = suc n in
    let x = s.slide (s.row 0 + c) in
    some (x, record s { slide = update (move_up c (s.row 0) s.slide) (s.row 0) x })

-- the byte, and the lists after it; none where the function aborts
unfoldable pub mtf_one : Lists → ℕ → Option (ℕ × Lists)
unfolding mtf_near
mtf_one s c =
    if ltb c row_width
    then mtf_near s c
    else Option.map (λ t. mtf_far t c)
        (if s.row 0 == 0 then rebuild num_rows slide_length s else some s)
