-- ===== src/Queue/Heap/Tests.antt =====
-- src/process.c, src/process.h: a heap of three positions.
use lbzip.Shared.{ℕ, ◌<◌, ◌∷◌, ◌≡◌, refl, true, some, arith}
use lbzip.Shared.Bags.{All}
use mathlib.Core.List.{Permᴰ}
use lbzip.Queue.{Position, pos_lt}
use lbzip.Queue.Memory.{put}
use lbzip.Queue.Heap.{PQueue, enqueue, dequeue, peek, at_most}
use lbzip.Queue.Heap.Correct.{IsValid, items, enqueue_restores, dequeue_takes, init_restores}

abbrev at_block : ℕ → ℕ → Position
at_block i j = record { major = i; minor = j }

abbrev self : Position → Position
self p = p

abbrev empty_queue : PQueue Position
empty_queue = record { root = λ i. at_block 0 0; size = 0 }

abbrev one_block : PQueue Position
one_block = enqueue self empty_queue (at_block 2 0)

abbrev two_blocks : PQueue Position
two_blocks = enqueue self one_block (at_block 0 7)

abbrev three_blocks : PQueue Position
three_blocks = enqueue self two_blocks (at_block 0 3)

three_blocks_least : peek self three_blocks ≡ some (at_block 0 3)
unfolding peek enqueue put pos_lt
three_blocks_least = refl

one_block-IsValid : IsValid self one_block
one_block-IsValid =
    (enqueue_restores self empty_queue (at_block 2 0) (init_restores self (at_block 0 0))).0

two_blocks-IsValid : IsValid self two_blocks
two_blocks-IsValid = (enqueue_restores self one_block (at_block 0 7) one_block-IsValid).0

enqueue_restores_example :
    IsValid self three_blocks
    × Permᴰ (items self three_blocks) (at_block 0 3 ∷ items self two_blocks)
enqueue_restores_example = enqueue_restores self two_blocks (at_block 0 3) two_blocks-IsValid

three_size : 0 < three_blocks.size
unfolding enqueue
three_size = omega arith

dequeue_takes_example :
    (e : Position) × (q' : PQueue Position) × (dequeue self three_blocks ≡ some (e, q'))
    × (peek self three_blocks ≡ some e)
    × IsValid self q'
    × Permᴰ (items self three_blocks) (e ∷ items self q')
    × All (λ x. at_most self e x ≡ true) (items self three_blocks)
dequeue_takes_example =
    dequeue_takes self three_blocks
      (enqueue_restores self two_blocks (at_block 0 3) two_blocks-IsValid).0 three_size
