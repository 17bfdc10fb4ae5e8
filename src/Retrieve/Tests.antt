-- ===== src/Retrieve/Tests.antt =====
-- retrieve()'s steps on concrete input.
use lbzip.Shared.{◌≡◌, refl, ◌+◌, ◌-◌, arith, if◌then◌else◌, ◌||◌, ltb, true}
use lbzip.Shared.BitList.{bits}
use lbzip.Common.{err_delta}
use lbzip.Retrieve.{length_step, fail, took, min_code_length, max_code_length}
use lbzip.Retrieve.Tables.{deltas, length_step-deltas}

-- three ones and a zero

-- two more, and the end
length_step-deltas_example : length_step 5 0x28 ≡ (
    let d = deltas (bits 6 0x28) 0 3 in
    if ltb (5 + d.1.0) (3 + min_code_length) || ltb (3 + max_code_length) (5 + d.1.0)
    then fail err_delta
    else took (5 + d.1.0 - 3) d.0 d.1.1)
length_step-deltas_example = length_step-deltas 5 0x28 (omega arith)

two_more : length_step 5 0x28 ≡ took 7 5 true
unfolding length_step
two_more = refl
