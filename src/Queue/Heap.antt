-- ===== src/Queue/Heap.antt =====
-- src/process.c, src/process.h: the binary heap of the priority queues.
pub mod Order
pub mod Up
pub mod Down
pub mod Correct
pub mod Tests
use lbzip.Shared.{
  ℕ, zero, suc, ◌+◌, ◌-◌, ◌*◌, ◌/◌, Bool, true, false, ltb, ◌==◌, ◌&&◌, Option, none, some,
  if◌then◌else◌,
}
use lbzip.Queue.{Position, pos_lt, pos_le}
use lbzip.Queue.Memory.{put}

abbrev pub parent : ℕ → ℕ
parent i = (i - 1) / 2

abbrev pub left : ℕ → ℕ
left i = i * 2 + 1

module _ {T : Type 0} (pos : T → Position) where
  -- `*a < *b` and `*a <= *b` of the elements
  abbrev pub lower : T → T → Bool
  lower a b = pos_lt (pos a) (pos b)

  abbrev pub at_most : T → T → Bool
  at_most a b = pos_le (pos a) (pos b)

  -- the do-while loop of up_heap(), with fuel, and the assignment behind it
  unfoldable pub up_loop : ℕ → (ℕ → T) → ℕ → T → ℕ → T
  up_loop zero root j el = root
  up_loop (suc fuel) root j el =
      let root' = put root j (root (parent j)) in
      let j' = parent j in
      let rest = up_loop fuel root' j' el in
      if ltb 0 j' && lower el (root' (parent j')) then rest else put root' j' el

  unfoldable pub up_heap : (ℕ → T) → ℕ → ℕ → T
  unfolding up_loop
  up_heap root size =
      if size == 0
      then root
      else if lower (root size) (root (parent size))
      then up_loop size root size (root size)
      else root

  -- the child of `j` that is compared with the element
  unfoldable pub child_of : (ℕ → T) → ℕ → ℕ → ℕ
  child_of root size j =
      if ltb (left j + 1) size && lower (root (left j + 1)) (root (left j))
      then left j + 1
      else left j

  -- the loop of down_heap(), with fuel, and the assignment behind it
  unfoldable pub down_loop : ℕ → (ℕ → T) → ℕ → ℕ → T → ℕ → T
  unfolding child_of
  down_loop zero root size j el = root
  down_loop (suc fuel) root size j el =
      let child = child_of root size j in
      let rest = down_loop fuel (put root j (root child)) size child el in
      if ltb (left j) size
      then if at_most el (root child) then put root j el else rest
      else put root j el

  unfoldable pub down_heap : (ℕ → T) → ℕ → ℕ → T
  unfolding down_loop
  down_heap root size =
      if size == 0 then root else down_loop size (put root size (root 0)) size 0 (root size)

-- `struct pqueue`; `root` holds anything beyond `size`
pub record PQueue (T : Type 0) : Type 0 where
  pub root : ℕ → T
  pub size : ℕ

module _ {T : Type 0} (pos : T → Position) where
  unfoldable pub enqueue : PQueue T → T → PQueue T
  unfolding up_heap
  enqueue q e = record { root = up_heap pos (put q.root q.size e) q.size; size = suc q.size }

  -- none where the macros are not to be used
  unfoldable pub dequeue : PQueue T → Option (T × PQueue T)
  unfolding down_heap
  dequeue q =
      if q.size == 0
      then none
      else let root = down_heap pos q.root (q.size - 1) in
        some (root (q.size - 1), record { root = root; size = q.size - 1 })

  unfoldable pub peek : PQueue T → Option T
  peek q = if q.size == 0 then none else some (q.root 0)
