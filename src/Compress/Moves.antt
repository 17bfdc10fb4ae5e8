-- ===== src/Compress/Moves.antt =====
-- src/compress.c: what can be done in a state in which no thread is at work.
use lbzip.Shared.{
  ℕ, ◌≤◌, ◌<◌, List, [], ◌∷◌, ◌≡◌, refl, ap, ◌∙◌, subst, ◌⊎◌, inl, inr, Bool, true, false,
  Bool-cases, Option-cases, some, ltb, lt→ltb, ◌&&◌, ◌||◌, not, length, arith,
}
use lbzip.Shared.Bags.{All, one_if, count_p, All-perm, found}
use lbzip.Queue.{Position, PriorityQueue, pos_eq, pos_le, pos_lt}
use lbzip.Queue.Order.{pos_eq→eq, pos_eq_refl}
use lbzip.Compress.{
  InBlk, WorkBlk, State, can_collect, can_transmit, transm_thresh, can_reorder, is_at, is_nil,
}
use lbzip.Compress.Steps.{
  Step, collect_begins, collect_ends, encode_ends, transmit_begins, transmit_ends, reorders, writes,
}
use lbzip.Compress.Positions.{at, covers}
use lbzip.Compress.Reference.{IsPiece}
use lbzip.Compress.Safety.{GoodColl, GoodWork, Right}
use lbzip.Compress.Accounts.{Balanced}
use lbzip.Compress.Coverage.{holders, held_due, Counted}
use lbzip.Compress.Slots.{Spared}

pub List-cases {ℓ} :
    {A : Type ℓ} (xs : List A) → (xs ≡ []) ⊎ ((x : A) × (ys : List A) × (xs ≡ x ∷ ys))
List-cases [] = inl refl
List-cases (x ∷ xs) = inr (x, xs, refl)

filled {ℓ} : {A : Type ℓ} (xs : List A) → (xs ≡ [] → ⊥) → not (is_nil xs) ≡ true
filled [] h = absurd (h refl)
filled (x ∷ xs) h = refl

allows :
    (n : ℕ) (full here : Bool)
    → ltb 0 n ≡ true
    → full ≡ true
    → here ≡ true
    → (full && (ltb transm_thresh n || (ltb 0 n && here))) ≡ true
allows n full here h e k = ground arith

no_slot : (n : ℕ) → ltb 0 n ≡ false → n ≡ 0
no_slot n h = ground arith

pub between : (a b : Position) → pos_le a b ≡ true → pos_le b a ≡ true → pos_eq a b ≡ true
unfolding pos_le pos_lt pos_eq
between a b h k = ground arith

pub covers-le : (p b : Position) → covers p b ≡ true → pos_le b p ≡ true
unfolding covers pos_le pos_lt
covers-le p b h = ground arith

module _ (coll : PriorityQueue InBlk InBlk.pos) (work : PriorityQueue WorkBlk WorkBlk.pos)
    (size : ℕ) (input : ℕ → List ℕ) (num_worker total_in_slots total_out_slots : ℕ) where
  -- No thread is at work on a block, and the writer has nothing to write.
  pub record IsIdle (s : State coll work) : Type 0 where
    pub collecting : s.collecting ≡ []
    pub encoding : s.encoding ≡ []
    pub transmitting : s.transmitting ≡ []
    pub output : s.output_q ≡ []

  abbrev pub Moves : State coll work → Type 0
  Moves s =
      (t : State coll work) × Step coll work size input num_worker total_in_slots total_out_slots s
        t

  pub IsIdle-or-Moves : (s : State coll work) → IsIdle s ⊎ Moves s
  IsIdle-or-Moves s = elim (List-cases s.collecting) [
    | inr (b, bs, e) ↦ inr (_, collect_ends [] b bs e refl)
    | inl c ↦ elim (List-cases s.encoding) [
      | inr (w, ws, e) ↦ inr (_, encode_ends [] w ws e refl)
      | inl n ↦ elim (List-cases s.transmitting) [
        | inr (w, ws, e) ↦ inr (_, transmit_ends [] w ws e refl)
        | inl t ↦ elim (List-cases s.output_q) [
          | inr (w, ws, e) ↦ inr (_, writes w ws e refl)
          | inl o ↦ inl (record { collecting = c; encoding = n; transmitting = t; output = o })
        ]
      ]
    ]
  ]

  -- A queue that is not empty gives its least block, the one that peek shows.
  nonempty :
      (q : work.Queue)
      → work.IsValid q
      → (work.items q ≡ [] → ⊥)
      → (w : WorkBlk) × (q' : work.Queue) × (work.dequeue q ≡ some (w, q'))
  nonempty q v h = elim (Option-cases (work.dequeue q)) [
    | inl e ↦ absurd (h (work.dequeue_none q v e))
    | inr ((w, q'), e) ↦ (w, q', e)
  ]

  -- A queue that holds the block at the order shows it, since what it holds is not before the order.
  shows_order :
      (s : State coll work) (q : work.Queue)
      → work.IsValid q
      → All (λ w. pos_le s.order w.pos ≡ true) (work.items q)
      → 0 < count_p (at s.order) (work.items q)
      → (w : WorkBlk) × (q' : work.Queue) × (work.dequeue q ≡ some (w, q'))
        × (not (is_nil (work.items q)) ≡ true)
        × (is_at coll work (work.peek q) s.order ≡ true)
  shows_order s q v all held =
      let (w, q', taken) =
        nonempty q v (λ e. absurd (omega (arith, held, ap (count_p (at s.order)) e))) in
      let (x, here, le) =
        found (at s.order) (λ x. pos_le w.pos x.pos ≡ true) (work.items q) held
          (work.dequeue_least q q' w v taken) in
      let behind =
        All-perm (λ x. pos_le s.order x.pos ≡ true) (work.dequeue_items q q' w v taken) all in
      let below = subst (λ p. pos_le w.pos p ≡ true) (pos_eq→eq x.pos s.order here) le in
      (
        w,
        q',
        taken,
        filled (work.items q) (λ e. absurd (omega (arith, held, ap (count_p (at s.order)) e))),
        ap (λ p. is_at coll work p s.order) (work.peek_dequeue q q' w v taken)
            ∙ between w.pos s.order below behind.0,
      )

  -- What is held is not before the order.
  behind_order :
      (s : State coll work) (ws : List WorkBlk)
      → Counted coll work size input num_worker total_in_slots total_out_slots s
      → All (IsPiece size input) ws
      → ((p : Position)
          → count_p (at p) ws
            ≤ holders coll work size input num_worker total_in_slots total_out_slots s p)
      → All (λ w. pos_le s.order w.pos ≡ true) ws
  behind_order s [] i all held = tt
  behind_order s (w ∷ ws) i all held = (
    (held_due coll work size input num_worker total_in_slots total_out_slots s w.pos i all.0.1
        (omega (arith, held w.pos, ap one_if (pos_eq_refl w.pos)))).0,
    behind_order s ws i all.1 (λ p. omega (arith, held p)),
  )

  module _ (s : State coll work)
      (right : Right coll work size input num_worker total_in_slots total_out_slots s)
      (counted : Counted coll work size input num_worker total_in_slots total_out_slots s) where
    pub reorder-Moves : 0 < count_p (at s.order) (work.items s.reord_q) → Moves s
    unfolding Right GoodWork can_reorder
    reorder-Moves held =
        let (c, l, d, v, m, o, z, k) = right in
        let (w, q, taken, full, here) =
          shows_order s s.reord_q o.0
            (behind_order s (work.items s.reord_q) counted o.1 (λ p. omega arith)) held in
        (_, reorders w q (rw (full, here)) taken refl)

    pub transmit-Moves :
        IsIdle s
        → Spared coll work size input num_worker total_in_slots total_out_slots s
        → Balanced coll work size input num_worker total_in_slots total_out_slots s
        → 0 < count_p (at s.order) (work.items s.trans_q)
        → Moves s
    unfolding Right GoodWork can_transmit
    transmit-Moves idle spared (i, u, g) held = elim (Bool-cases (ltb 0 s.out_slots)) [
      | inl slot ↦
          let (c, l, d, v, m, o, z, k) = right in
          let (w, q, taken, full, here) =
            shows_order s s.trans_q v.0
              (behind_order s (work.items s.trans_q) counted v.1 (λ p. omega arith)) held in
          (_, transmit_begins w q (allows s.out_slots _ _ slot full here) taken refl)
      | inr none_left ↦ reorder-Moves (
          omega (
            arith,
            spared,
            g,
            ap length idle.transmitting,
            ap length idle.output,
            ap (count_p (at s.order)) idle.transmitting,
            no_slot s.out_slots none_left,
          ))
    ]

    pub collect-Moves : 0 < s.work_units → (coll.items s.coll_q ≡ [] → ⊥) → Moves s
    unfolding Right GoodColl can_collect
    collect-Moves free full = elim (Option-cases (coll.dequeue s.coll_q)) [
      | inl e ↦ absurd (full (coll.dequeue_none s.coll_q right.0.0 e))
      | inr ((b, q), e) ↦ (
        _,
        collect_begins b q (rw (filled (coll.items s.coll_q) full, lt→ltb 0 s.work_units free)) e
            refl,
      )
    ]
