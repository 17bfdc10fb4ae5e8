-- ===== src/Queue.antt =====
-- src/process.h: positions in a stream, and the priority queues and deques of the scheduler.
pub mod Order
pub mod Memory
pub mod Heap
pub mod Deque
use lbzip.Shared.{ℕ, List, [], ◌∷◌, ◌≡◌, Option, none, some, Bool, true, ltb, ◌==◌, not, ◌&&◌, ◌||◌}
use lbzip.Shared.Bags.{All}
use mathlib.Core.List.{Permᴰ}

-- `struct position`
pub record Position : Type 0 where
  pub major : ℕ
  pub minor : ℕ

unfoldable pub pos_eq : Position → Position → Bool
pos_eq a b = (a.major == b.major) && (a.minor == b.minor)

unfoldable pub pos_lt : Position → Position → Bool
pos_lt a b = ltb a.major b.major || ((a.major == b.major) && ltb a.minor b.minor)

unfoldable pub pos_le : Position → Position → Bool
unfolding pos_lt
pos_le a b = not (pos_lt b a)

-- What a priority queue of the scheduler promises: it is a bag from which an element with the least
-- position is taken. `dequeue` and `peek` have none where the code is not to call them.
pub record PriorityQueue (T : Type 0) (pos : T → Position) : Type 1 where
  pub Queue : Type 0
  pub IsValid : Queue → Type 0
  pub items : Queue → List T
  pub init : Queue
  pub enqueue : Queue → T → Queue
  pub dequeue : Queue → Option (T × Queue)
  pub peek : Queue → Option T
  pub init_valid : IsValid init
  pub init_items : items init ≡ []
  pub enqueue_valid : (q : Queue) (e : T) → IsValid q → IsValid (enqueue q e)
  pub enqueue_items : (q : Queue) (e : T) → IsValid q → Permᴰ (items (enqueue q e)) (e ∷ items q)
  pub dequeue_none : (q : Queue) → IsValid q → dequeue q ≡ none → items q ≡ []
  pub dequeue_valid : (q q' : Queue) (e : T) → IsValid q → dequeue q ≡ some (e, q') → IsValid q'
  pub dequeue_items :
      (q q' : Queue) (e : T) → IsValid q → dequeue q ≡ some (e, q') → Permᴰ (items q) (e ∷ items q')
  pub dequeue_least :
      (q q' : Queue) (e : T)
      → IsValid q
      → dequeue q ≡ some (e, q')
      → All (λ x. pos_le (pos e) (pos x) ≡ true) (items q)
  pub peek_dequeue : (q q' : Queue) (e : T) → IsValid q → dequeue q ≡ some (e, q') → peek q ≡ some e
