-- ===== src/Process/Tests.antt =====
-- xread() and work() on concrete input.
use Prim.Native.Nat.{min}
use lbzip.Shared.{
  ℕ, ◌-◌, ◌≡◌, refl, List, [], ◌∷◌, arith, true, take, drop, length, ◌+◌, if◌then◌else◌,
}
use lbzip.Process.Output.{IsWrite, xwrite_all}
use lbzip.Process.{xread, xwrite, work, expand}
use lbzip.Process.Input.{IsRead, AllBytes, decision, xread-fills, work-decision}

-- a file that gives one byte at a time
abbrev trickle : ℕ → List ℕ → ℕ
trickle n input = min n (min 1 (length input))

trickle-IsRead : IsRead trickle
trickle-IsRead = record {
  asked = λ n input. omega arith;
  there = λ n input. omega arith;
  some_bytes = λ n input. omega arith;
}

abbrev file : List ℕ
file = 0x42 ∷ 0x5A ∷ 0x68 ∷ 0x37 ∷ 0x17 ∷ []

file-AllBytes : AllBytes file
unfolding AllBytes
file-AllBytes = omega arith

xread-fills_example : xread trickle 4 file ≡ (take 4 file, (4 - length file, drop 4 file))
xread-fills_example = xread-fills trickle 4 file trickle-IsRead

work-decision_example : work trickle true true file ≡ decision true file
work-decision_example = work-decision trickle true file trickle-IsRead file-AllBytes

level_7 : work trickle true true file ≡ expand 7 (0x17 ∷ [])
unfolding work
level_7 = refl

-- an output that takes three bytes at a time
abbrev thirds : ℕ → List ℕ → ℕ
thirds n buffer = min n 3

thirds-IsWrite : IsWrite thirds
thirds-IsWrite = record { asked = λ n buffer. omega arith; some_bytes = λ n buffer h. omega arith }

xwrite_all_example :
    xwrite thirds true (0 ∷ [], 1) file ≡ (if true then 0 ∷ file else 0 ∷ [], 1 + length file)
xwrite_all_example = xwrite_all thirds thirds-IsWrite true (0 ∷ []) 1 file
