-- ===== src/Queue/Deque.antt =====
-- src/process.h: the deque in a ring buffer.
pub mod Ring
pub mod Correct
pub mod Tests
use lbzip.Shared.{ℕ, zero, suc, ◌+◌, ◌-◌, ◌%◌, ◌^◌, ltb, ◌==◌, Option, none, some, if◌then◌else◌}
use lbzip.Queue.Memory.{put}

-- `struct deque`; the head is the place before that of the first element
pub record Deque (T : Type 0) : Type 0 where
  pub root : ℕ → T
  pub size : ℕ
  pub modulus : ℕ
  pub head : ℕ

-- `min(a, b)` of src/common.h
abbrev pub smaller : ℕ → ℕ → ℕ
smaller a b = if ltb a b then a else b

-- `min(a, a - modulus)` and `min(a - 1, a - 1 + modulus)` of unsigned numbers of 32 bits
unfoldable pub forward : ℕ → ℕ → ℕ
forward modulus a = smaller (a % 2 ^ 32) ((a % 2 ^ 32 + (2 ^ 32 - modulus)) % 2 ^ 32)

unfoldable pub backward : ℕ → ℕ → ℕ
backward modulus a = let b = (a + (2 ^ 32 - 1)) % 2 ^ 32 in smaller b ((b + modulus) % 2 ^ 32)

module _ {T : Type 0} where
  -- the place of the element at an index
  abbrev pub place : Deque T → ℕ → ℕ
  place q i = forward q.modulus (q.head + i + 1)

  unfoldable pub deque_init : (ℕ → T) → ℕ → Deque T
  deque_init memory n = record { root = memory; size = 0; modulus = n; head = 0 }

  -- none where an assertion fails
  unfoldable pub dq_get : Deque T → ℕ → Option T
  unfolding forward
  dq_get q i = if ltb i q.size then some (q.root (place q i)) else none

  unfoldable pub dq_set : Deque T → ℕ → T → Option (Deque T)
  unfolding forward
  dq_set q i e = if ltb i q.size then some (record q { root = put q.root (place q i) e }) else none

  unfoldable pub shift : Deque T → Option (T × Deque T)
  unfolding forward
  shift q =
      if q.size == 0
      then none
      else let head = forward q.modulus (q.head + 1) in
        some (q.root head, record q { size = q.size - 1; head = head })

  unfoldable pub unshift : Deque T → T → Option (Deque T)
  unfolding backward
  unshift q e =
      if ltb q.size q.modulus
      then some (record q {
        size = suc q.size;
        root = put q.root q.head e;
        head = backward q.modulus q.head;
      })
      else none

  unfoldable pub push : Deque T → T → Option (Deque T)
  unfolding forward
  push q e =
      if ltb q.size q.modulus
      then some (record q {
        size = suc q.size;
        root = put q.root (forward q.modulus (q.head + suc q.size)) e;
      })
      else none

  unfoldable pub pop : Deque T → Option (T × Deque T)
  unfolding forward
  pop q =
      if q.size == 0
      then none
      else some
          (q.root (forward q.modulus (q.head + (q.size - 1) + 1)), record q { size = q.size - 1 })
