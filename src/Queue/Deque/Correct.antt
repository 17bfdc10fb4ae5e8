-- ===== src/Queue/Deque/Correct.antt =====
-- src/process.h: the deque is a list of bounded length, to which both ends are open.
use lbzip.Shared.{
  ℕ, suc, ◌+◌, ◌-◌, ◌≡◌, refl, sym, ap, ◌∙◌, List, [], ◌∷◌, ◌++◌, ltb, ◌==◌, Option, none, some,
  if◌then◌else◌, get_elem?, set, length, arith, Bool-cases, inl, inr, ltb→lt, ==→eq,
}
use mathlib.Core.Option
use lbzip.Queue.Memory.{put_at, put_off}
use lbzip.Queue.Deque.{Deque, place, dq_get, dq_set, shift, unshift, push, pop}
use lbzip.Queue.Deque.Ring.{
  IsValid, listing, items, pushed-items, unshifted-items, shifted, shifted-items, popped,
  popped-items, length-listing, get_elem?-listing, forward_lem, backward_lem, place_apart,
  listing-set,
}

module _ {T : Type 0} where
  -- Of a list, without its last element.
  abbrev pub unsnoc_after : T → Option (T × List T) → T × List T
  unsnoc_after x none = (x, [])
  unsnoc_after x (some (y, ys)) = (y, x ∷ ys)

  abbrev pub unsnoc : List T → Option (T × List T)
  unsnoc [] = none
  unsnoc (x ∷ xs) = some (unsnoc_after x (unsnoc xs))

  abbrev pub uncons : List T → Option (T × List T)
  uncons [] = none
  uncons (x ∷ xs) = some (x, xs)

  unsnoc-append : (xs : List T) (x : T) → unsnoc (xs ++ x ∷ []) ≡ some (x, xs)
  unsnoc-append [] x = refl
  unsnoc-append (y ∷ xs) x = ap (λ r. some (unsnoc_after y r)) (unsnoc-append xs x)

  -- the list with what has been taken from it
  abbrev pub view : T × Deque T → T × List T
  view (x, q) = (x, items q)

  -- what is left of a valid deque, if there is any, is valid
  abbrev pub AllValid : Option (Deque T) → Type 0
  AllValid none = Unit
  AllValid (some q) = IsValid q

  abbrev pub AllValidRest : Option (T × Deque T) → Type 0
  AllValidRest none = Unit
  AllValidRest (some (x, q)) = IsValid q

  -- An element is added at the end of the list of a valid deque, or in front of it, unless the deque
  -- is as long as its capacity; then the assertion fails.
  pub push_unshift_lem :
      (q : Deque T) (e : T)
      → IsValid q
      → (Option.map items (push q e)
          ≡ (if ltb (length (items q)) q.modulus then some (items q ++ e ∷ []) else none))
        × (Option.map items (unshift q e)
            ≡ (if ltb (length (items q)) q.modulus then some (e ∷ items q) else none))
        × AllValid (push q e)
        × AllValid (unshift q e)
  unfolding push unshift
  push_unshift_lem q e v = elim (Bool-cases (ltb q.size q.modulus)) [
    | inl room ↦
        let long = length-listing (λ i. q.root (place q i)) q.size in
        rw (long, room)
          (
            ap some (pushed-items q e v (ltb→lt q.size q.modulus room)),
            ap some (unshifted-items q e v (ltb→lt q.size q.modulus room)),
            record {
              inside = v.inside;
              room = omega (arith, ltb→lt q.size q.modulus room);
              width = v.width;
            },
            record {
              inside = ground (arith, v.inside, backward_lem q.modulus q.head v.inside v.width);
              room = omega (arith, ltb→lt q.size q.modulus room);
              width = v.width;
            },
          )
    | inr full ↦
        let long = length-listing (λ i. q.root (place q i)) q.size in
        rw (long, full) (refl, refl, tt, tt)
  ]

  shifted-IsValid : (q : Deque T) → IsValid q → IsValid (shifted q)
  shifted-IsValid q v = record {
    inside = ground (
      arith,
      v.inside,
      v.width,
      forward_lem q.modulus (q.head + 1) (omega (arith, v.inside)) v.width,
    );
    room = omega (arith, v.room);
    width = v.width;
  }

  popped-IsValid : (q : Deque T) → IsValid q → IsValid (popped q)
  popped-IsValid q v = record { inside = v.inside; room = omega (arith, v.room); width = v.width }

  empty-items : (q : Deque T) → q.size ≡ 0 → items q ≡ []
  empty-items q e = ap (listing (λ i. q.root (place q i))) e

  -- An element is taken from the front of the list of a valid deque, or from its end; where the list
  -- is empty the assertion fails.
  pub shift_pop_lem :
      (q : Deque T)
      → IsValid q
      → (Option.map view (shift q) ≡ uncons (items q))
        × (Option.map view (pop q) ≡ unsnoc (items q))
        × AllValidRest (shift q)
        × AllValidRest (pop q)
  unfolding shift pop
  shift_pop_lem q v = elim (Bool-cases (q.size == 0)) [
    | inl none_there ↦
        let nil = empty-items q (==→eq q.size 0 none_there) in
        rw (nil, none_there) (refl, refl, tt, tt)
    | inr some_there ↦
        let e : q.size ≡ suc (q.size - 1) = ground arith in
        rw some_there (
          ap uncons (sym (shifted-items q (q.size - 1) v e)),
          sym (ap unsnoc (popped-items q (q.size - 1) e) ∙ unsnoc-append (items (popped q)) _),
          shifted-IsValid q v,
          popped-IsValid q v,
        )
  ]

  -- An element is read or written at an index of the list of a valid deque, below its length; beyond
  -- it the assertion fails.
  pub dq_get_lem :
      (q : Deque T) (i : ℕ) (e : T)
      → IsValid q
      → (dq_get q i ≡ get_elem? (items q) i)
        × (Option.map items (dq_set q i e)
            ≡ (if ltb i (length (items q)) then some (set (items q) i e) else none))
        × AllValid (dq_set q i e)
  unfolding dq_get dq_set
  dq_get_lem q i e v =
      let long = length-listing (λ j. q.root (place q j)) q.size in
      (
        sym (get_elem?-listing (λ j. q.root (place q j)) q.size i),
        elim (Bool-cases (ltb i q.size)) [
          | inl there ↦
              let lt = ltb→lt i q.size there in
              rw (long, there)
                (ap some (
                  listing-set (λ j. q.root (place q j)) _ q.size i e lt
                    (put_at q.root (place q i) e)
                    (λ j b apart. put_off q.root (place q i) e (place q j) (
                      place_apart q j i v (omega (arith, v.room, b)) (omega (arith, v.room, lt))
                        apart))))
          | inr beyond ↦ rw (long, beyond)
        ],
        elim (Bool-cases (ltb i q.size)) [
          | inl there ↦ rw there (record { inside = v.inside; room = v.room; width = v.width })
          | inr beyond ↦ rw beyond tt
        ],
      )
