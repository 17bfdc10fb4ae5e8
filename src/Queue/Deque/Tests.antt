-- ===== src/Queue/Deque/Tests.antt =====
-- src/process.h: a ring of three places, used around its end.
use lbzip.Shared.{ℕ, ◌∷◌, [], ◌≡◌, ◌++◌, ltb, length, refl, some, none, if◌then◌else◌, arith}
use mathlib.Core.Option
use lbzip.Queue.Deque.{Deque, dq_get, shift, unshift, push, pop}
use lbzip.Queue.Deque.Ring.{IsValid, items}
use lbzip.Queue.Deque.Correct.{
  AllValid, AllValidRest, view, uncons, unsnoc, push_unshift_lem, shift_pop_lem,
}

abbrev ring : Deque ℕ
ring = record { root = λ i. i; size = 2; modulus = 3; head = 1 }

ring-IsValid : IsValid ring
ring-IsValid = record { inside = omega arith; room = omega arith; width = omega arith }

ring_items : items ring ≡ 2 ∷ 0 ∷ []
unfolding dq_get
ring_items = refl

push_unshift_lem_example :
    (Option.map items (push ring 9)
      ≡ (if ltb (length (items ring)) 3 then some (items ring ++ 9 ∷ []) else none))
    × (Option.map items (unshift ring 9)
        ≡ (if ltb (length (items ring)) 3 then some (9 ∷ items ring) else none))
    × AllValid (push ring 9)
    × AllValid (unshift ring 9)
push_unshift_lem_example = push_unshift_lem ring 9 ring-IsValid

shift_pop_lem_example :
    (Option.map view (shift ring) ≡ uncons (items ring))
    × (Option.map view (pop ring) ≡ unsnoc (items ring))
    × AllValidRest (shift ring)
    × AllValidRest (pop ring)
shift_pop_lem_example = shift_pop_lem ring ring-IsValid
