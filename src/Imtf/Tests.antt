-- ===== src/Imtf/Tests.antt =====
-- src/decode.c, mtf_one(): the list of all bytes.
use lbzip.Shared.{◌*◌, ◌%◌, arith, ℕ, ◌≡◌, some}
use lbzip.Imtf.{Lists, mtf_one}
use lbzip.Imtf.Whole.{IsOrdered, Moved}
use lbzip.Imtf.Correct.{mtf_one-Moved}

-- at the bottom of the pool, where it has to be built again
abbrev bottom : Lists
bottom = record { row = λ r. 16 * r; slide = λ a. a % 256 }

bottom-IsOrdered : IsOrdered bottom
bottom-IsOrdered = record { apart = λ r lt. omega arith; within = omega arith }

mtf_one-Moved_example : (r : ℕ × Lists) × (mtf_one bottom 37 ≡ some r) × Moved bottom 37 r.0 r.1
mtf_one-Moved_example = mtf_one-Moved bottom 37 bottom-IsOrdered (omega arith) (omega arith)
