-- ===== src/Queue/Heap/Up.antt =====
-- src/process.c: up_heap() restores the heap order.
use lbzip.Shared.{
  ℕ, zero, suc, ◌<◌, ◌≤◌, ◌≡◌, true, false, sym, ap, subst, arith, Bool-cases, inl, inr, ltb, ◌&&◌,
  &&→both, ltb→lt,
}
use lbzip.Queue.{Position, pos_le}
use lbzip.Queue.Order.{pos_le_trans, pos_le-total}
use lbzip.Queue.Memory.{suc-ne_zero, put, put_self, first, first-put_move, Perm_of_eq}
use lbzip.Queue.Heap.{parent, lower, up_loop, up_heap}
use lbzip.Queue.Heap.Order.{Edge, IsHeap, IsBridged, UpInv, UpInv-IsHeap}
use mathlib.Core.List.{Permᴰ}
use mathlib.Core.List.Permᴰ
use mathlib.Core.Path.{fun_ext}

module _ {T : Type 0} (pos : T → Position) where
  -- The element goes up by one place.
  Up_step :
      (f : ℕ → T) (n j : ℕ) (el : T)
      → 0 < j
      → UpInv pos (put f j el) n j
      → lower pos el (f (parent j)) ≡ true
      → UpInv pos (put (put f j (f (parent j))) (parent j) el) n (parent j)
  unfolding put IsBridged
  Up_step f n j el hj u low = record {
    edges = λ i p q r. ground (
      arith,
      u.edges i,
      u.bridged i,
      pos_le-total (pos el) (pos (f (parent j))),
      pos_le_trans (pos el) (pos (f (parent j))) (pos (f i)),
    );
    bridged = λ i p q r s. ground (
      arith,
      u.edges i,
      u.edges (parent j),
      pos_le_trans (pos (f (parent (parent j)))) (pos (f (parent j))) (pos (f i)),
    );
  }

  Up_last :
      (f : ℕ → T) (j n : ℕ) (el : T)
      → (ltb 0 j && lower pos el (f (parent j))) ≡ false
      → 0 < j
      → j < n
      → Edge pos (put f j el) j
  unfolding put pos_le
  Up_last f j n el h p q = ground arith

  put_again : (f : ℕ → T) (j : ℕ) → put f j (f j) ≡ f
  put_again f j = fun_ext (λ i. sym (put_self f j i))

  -- The loop ends within its fuel, with the heap in order and nothing lost.
  up_loop_restores :
      (fuel : ℕ) (f : ℕ → T) (n j : ℕ) (el : T)
      → 0 < j
      → j ≤ fuel
      → j < n
      → UpInv pos (put f j el) n j
      → lower pos el (f (parent j)) ≡ true
      → IsHeap pos (up_loop pos fuel f j el) n
        × Permᴰ (first (up_loop pos fuel f j el) n) (first (put f j el) n)
  unfolding up_loop
  up_loop_restores zero f n j el hj hf hn u low = absurd (omega arith)
  up_loop_restores (suc fuel) f n j el hj hf hn u low =
      let p = parent j in
      let f' = put f j (f p) in
      let u' = Up_step f n j el hj u low in
      let moved = first-put_move f j p el n hn (omega arith) (omega arith) in
      elim (Bool-cases (ltb 0 p && lower pos el (f' (parent p)))) [
        | inl more ↦
            let (q, below) = &&→both _ _ more in
            let (heap, perm) =
              up_loop_restores fuel f' n p el (ltb→lt 0 p q) (omega arith) (omega arith) u' below in
            rw more (heap, Permᴰ.trans perm moved)
        | inr done ↦ rw done (UpInv-IsHeap pos _ n p u' (Up_last f' p n el done), moved)
      ]

  one-IsHeap : (f : ℕ → T) → IsHeap pos f 1
  unfolding IsHeap
  one-IsHeap f i p q = absurd (omega arith)

  behind : (f : ℕ → T) (size : ℕ) → IsHeap pos f size → UpInv pos f (suc size) size
  unfolding IsHeap IsBridged
  behind f size h = record {
    edges = λ i p q r. h i p (omega arith);
    bridged = λ i p q r s. absurd (omega (arith, r));
  }

  -- up_heap() after an element has been put behind a heap
  pub up_heap_restores :
      (f : ℕ → T) (size : ℕ)
      → IsHeap pos f size
      → IsHeap pos (up_heap pos f size) (suc size)
        × Permᴰ (first (up_heap pos f size) (suc size)) (first f (suc size))
  unfolding up_heap pos_le
  up_heap_restores f zero h = (one-IsHeap f, Permᴰ.refl _)
  up_heap_restores f (suc k) h = elim (Bool-cases (lower pos (f (suc k)) (f (parent (suc k))))) [
    | inl low ↦
        let whole = put_again f (suc k) in
        let u : UpInv pos (put f (suc k) (f (suc k))) (suc (suc k)) (suc k) =
          subst (λ g. UpInv pos g (suc (suc k)) (suc k)) (sym whole) (behind f (suc k) h) in
        let (heap, perm) =
          up_loop_restores (suc k) f (suc (suc k)) (suc k) (f (suc k)) (omega arith) (omega arith)
            (omega arith) u low in
        rw (suc-ne_zero k, low)
          (heap, Permᴰ.trans perm (Perm_of_eq (ap (λ g. first g (suc (suc k))) whole)))
    | inr high ↦
        rw (suc-ne_zero k, high)
          (
            UpInv-IsHeap pos f (suc (suc k)) (suc k) (behind f (suc k) h) (λ p q. ground arith),
            Permᴰ.refl _,
          )
  ]
