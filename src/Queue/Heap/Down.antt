-- ===== src/Queue/Heap/Down.antt =====
-- src/process.c: down_heap() restores the heap order.
use lbzip.Shared.{
  ℕ, zero, suc, ◌+◌, ◌-◌, ◌*◌, ◌<◌, ◌≤◌, ◌≡◌, true, false, sym, ap, subst, refl, ◌∙◌, ◌∷◌, arith,
  Bool-cases, inl, inr, ◌⊎◌, ltb, ltb→lt,
}
use lbzip.Queue.{Position, pos_le}
use lbzip.Queue.Order.{pos_le_trans, pos_le_refl, pos_le-total}
use lbzip.Queue.Memory.{
  suc-ne_zero, put_under, put, put_at, put_off, put_self, first, first_ext, first-put_move,
  first-put_exchange, Perm_of_eq,
}
use lbzip.Queue.Heap.{parent, left, at_most, child_of, down_loop, down_heap}
use lbzip.Queue.Heap.Order.{Edge, IsHeap, IsBridged, DownInv, DownInv-IsHeap}
use mathlib.Core.List.{Permᴰ}
use mathlib.Core.List.Permᴰ

module _ {T : Type 0} (pos : T → Position) where
  -- `c` is the child of `j` with the least position.
  record IsLeastChild (f : ℕ → T) (n j c : ℕ) : Type 0 where
    inside : c < n
    child : (c ≡ j * 2 + 1) ⊎ (c ≡ j * 2 + 2)
    least : (i : ℕ) → 0 < i → i < n → parent i ≡ j → at_most pos (f c) (f i) ≡ true

  child_least :
      (f : ℕ → T) (n j i : ℕ)
      → 0 < i
      → i < n
      → parent i ≡ j
      → at_most pos (f (child_of pos f n j)) (f i) ≡ true
  unfolding child_of pos_le
  child_least f n j i p q r =
      let two : (i ≡ left j) ⊎ (i ≡ left j + 1) = omega arith in
      ground (
        arith,
        two,
        ap f,
        pos_le-total (pos (f (left j + 1))) (pos (f (left j))),
        pos_le_refl (pos (f i)),
      )

  child_of-IsLeastChild :
      (f : ℕ → T) (n j : ℕ) → left j < n → IsLeastChild f n j (child_of pos f n j)
  unfolding child_of
  child_of-IsLeastChild f n j h = record {
    inside = ground arith;
    child = ground arith;
    least = λ i p q r. child_least f n j i p q r;
  }

  -- The element goes down by one place.
  Down_step :
      (f : ℕ → T) (n j c : ℕ) (el : T)
      → DownInv pos (put f j el) n j
      → IsLeastChild f n j c
      → at_most pos el (f c) ≡ false
      → DownInv pos (put (put f j (f c)) c el) n c
  unfolding put IsBridged pos_le
  Down_step f n j c el u l high = record {
    edges = λ i p q r. ground (
      arith,
      u.edges i,
      u.bridged c,
      l.least i,
      l.child,
      l.inside,
      pos_le-total (pos (f c)) (pos el),
    );
    bridged = λ i p q r s. ground (arith, u.edges i, l.child, l.inside);
  }

  stays-Edge :
      (f : ℕ → T) (n j c : ℕ) (el : T) (i : ℕ)
      → IsLeastChild f n j c
      → at_most pos el (f c) ≡ true
      → 0 < i
      → i < n
      → parent i ≡ j
      → Edge pos (put f j el) i
  unfolding put
  stays-Edge f n j c el i l stays p q r =
      ground (arith, l.least i p q r, pos_le_trans (pos el) (pos (f c)) (pos (f i)))

  -- what a run of the loop promises of an array
  Restored : (ℕ → T) → ℕ → (ℕ → T) → (ℕ → T) → Type 0
  Restored f n target result =
      IsHeap pos result n
      × Permᴰ (first result n) (first target n)
      × ((k : ℕ) → n ≤ k → result k ≡ f k)

  -- The loop ends within its fuel, with the heap in order, nothing lost, and nothing changed behind it.
  down_loop_restores :
      (fuel : ℕ) (f : ℕ → T) (n j : ℕ) (el : T)
      → n - j ≤ fuel
      → j < n
      → DownInv pos (put f j el) n j
      → Restored f n (put f j el) (down_loop pos fuel f n j el)
  unfolding down_loop Restored
  down_loop_restores zero f n j el hf hn u = absurd (omega arith)
  down_loop_restores (suc fuel) f n j el hf hn u = elim (Bool-cases (ltb (left j) n)) [
    | inr leaf ↦ rw leaf (
      DownInv-IsHeap pos _ n j u (λ i p q r. absurd (ground arith)),
      Permᴰ.refl _,
      λ k h. put_off f j el k (λ e. omega (arith, e)),
    )
    | inl inner ↦
        let c = child_of pos f n j in
        let l = child_of-IsLeastChild f n j (ltb→lt _ _ inner) in
        elim (Bool-cases (at_most pos el (f c))) [
          | inl stays ↦
              rw (inner, stays)
                (
                  DownInv-IsHeap pos _ n j u (λ i p q r. stays-Edge f n j c el i l stays p q r),
                  Permᴰ.refl _,
                  λ k h. put_off f j el k (λ e. omega (arith, e)),
                )
          | inr goes ↦
              let g = put f j (f c) in
              let further : j < c = ground (arith, l.child) in
              let (heap, perm, kept) =
                down_loop_restores fuel g n c el (omega arith) l.inside
                  (Down_step f n j c el u l goes) in
              rw (inner, goes)
                (
                  heap,
                  Permᴰ.trans perm (first-put_move f j c el n hn l.inside (λ e. omega (arith, e))),
                  λ k h. kept k h ∙ put_off f j (f c) k (λ e. omega (arith, e)),
                )
        ]
  ]

  hole_at_root :
      (f : ℕ → T) (n : ℕ) → IsHeap pos f (suc n) → DownInv pos (put (put f n (f 0)) 0 (f n)) n 0
  unfolding IsHeap IsBridged put
  hole_at_root f n h = record {
    edges = λ i p q r. ground (arith, h i p);
    bridged = λ i p q r s. absurd (omega arith);
  }

  -- The least element stands behind the heap of the others.
  abbrev pub Moved : (ℕ → T) → ℕ → (ℕ → T) → Type 0
  Moved f n result =
      IsHeap pos result n × Permᴰ (first f (suc n)) (f 0 ∷ first result n) × (result n ≡ f 0)

  pub down_heap_restores :
      (f : ℕ → T) (n : ℕ) → IsHeap pos f (suc n) → Moved f n (down_heap pos f n)
  unfolding down_heap IsHeap first Restored
  down_heap_restores f zero h = (λ i p q. absurd (omega arith), Permᴰ.refl _, refl)
  down_heap_restores f (suc k) h =
      let n = suc k in
      let g = put f n (f 0) in
      let (heap, perm, kept) =
        down_loop_restores n g n 0 (f n) (omega arith) (omega arith) (hole_at_root f n h) in
      let same : first (put f 0 (f n)) n ≡ first (put g 0 (f n)) n =
        first_ext _ _ n (λ i p. sym (put_under f n 0 i (f n) (f 0) p)) in
      let run : down_heap pos f n ≡ down_loop pos n g n 0 (f n) = rw (suc-ne_zero k) in
      subst (Moved f n) (sym run) (
        heap,
        Permᴰ.trans
            (Perm_of_eq
              (ap (λ xs. f n ∷ xs) (first_ext f (put f 0 (f 0)) n (λ i p. put_self f 0 i))))
            (Permᴰ.trans (first-put_exchange f 0 (f n) (f 0) n (omega arith))
              (Permᴰ.cons refl (Permᴰ.trans (Perm_of_eq same) (Permᴰ.symm perm)))),
        kept n (omega arith) ∙ put_at f n (f 0),
      )
