-- ===== src/Queue/Heap/Correct.antt =====
-- src/process.h: the binary heap is a priority queue.
use lbzip.Shared.{
  ℕ, zero, suc, ◌-◌, ◌<◌, ◌≤◌, ◌≡◌, List, [], ◌∷◌, true, sym, ap, subst, refl, ◌∙◌, Option-cases,
  some, none, length, arith, inl, inr,
}
use lbzip.Shared.Bags.{All}
use lbzip.Queue.{Position, PriorityQueue}
use lbzip.Queue.Order.{pos_le_trans, pos_le_refl}
use lbzip.Queue.Memory.{suc-ne_zero, put, put_at, first, first-put_beyond, Perm_of_eq}
use lbzip.Queue.Heap.{PQueue, parent, at_most, down_heap, enqueue, dequeue, peek}
use lbzip.Queue.Heap.Order.{Edge, IsHeap}
use lbzip.Queue.Heap.Up.{up_heap_restores}
use lbzip.Queue.Heap.Down.{down_heap_restores}
use mathlib.Core.List.{Permᴰ}
use mathlib.Core.List.Permᴰ

module _ {T : Type 0} (pos : T → Position) where
  heap-Edge : (f : ℕ → T) (n i : ℕ) → IsHeap pos f n → 0 < i → i < n → Edge pos f i
  unfolding IsHeap
  heap-Edge f n i h = h i

  -- The root is least, by induction on a bound of the index.
  root_least :
      (k : ℕ) (f : ℕ → T) (n i : ℕ)
      → IsHeap pos f n
      → i < n
      → i ≤ k
      → at_most pos (f 0) (f i) ≡ true
  root_least k f n zero h p q = pos_le_refl (pos (f 0))
  root_least zero f n (suc i) h p q = absurd (omega arith)
  root_least (suc k) f n (suc i) h p q =
      pos_le_trans (pos (f 0)) (pos (f (parent (suc i)))) (pos (f (suc i)))
        (root_least k f n (parent (suc i)) h (omega arith) (omega arith))
        (heap-Edge f n (suc i) h (omega arith) p)

  abbrev pub IsValid : PQueue T → Type 0
  IsValid q = IsHeap pos q.root q.size

  abbrev pub items : PQueue T → List T
  items q = first q.root q.size

  length-first : (f : ℕ → T) (n : ℕ) → length (first f n) ≡ n
  unfolding first
  length-first f zero = refl
  length-first f (suc n) = ap suc (length-first f n)

  first-All : (P : T → Type 0) (f : ℕ → T) (n : ℕ) → ((i : ℕ) → i < n → P (f i)) → All P (first f n)
  unfolding first
  first-All P f zero h = tt
  first-All P f (suc n) h = (h n (omega arith), first-All P f n (λ i p. h i (omega arith)))

  put_behind : (f : ℕ → T) (n : ℕ) (e : T) → IsHeap pos f n → IsHeap pos (put f n e) n
  unfolding IsHeap put
  put_behind f n e h i p q = ground (arith, h i)

  first-put_behind : (f : ℕ → T) (n : ℕ) (e : T) → first (put f n e) (suc n) ≡ e ∷ first f n
  unfolding first
  first-put_behind f n e = λ i. put_at f n e i ∷ first-put_beyond f n e n (omega arith) i

  -- In a heap, an element is put with the others, and the array is a heap again.
  pub enqueue_restores :
      (q : PQueue T) (e : T)
      → IsValid q
      → IsValid (enqueue pos q e) × Permᴰ (items (enqueue pos q e)) (e ∷ items q)
  unfolding enqueue
  enqueue_restores q e h =
      let (heap, perm) =
        up_heap_restores pos (put q.root q.size e) q.size (put_behind q.root q.size e h) in
      (heap, Permᴰ.trans perm (Perm_of_eq (first-put_behind q.root q.size e)))

  pred_suc : (m : ℕ) → suc m - 1 ≡ m
  pred_suc m = omega arith

  -- what dequeue and peek give where the queue is not empty
  dequeue_suc :
      (f : ℕ → T) (m : ℕ)
      → dequeue pos (record { root = f; size = suc m })
        ≡ some (down_heap pos f m m, record { root = down_heap pos f m; size = m })
  unfolding dequeue
  dequeue_suc f m = rw (suc-ne_zero m, pred_suc m)

  peek_suc : (f : ℕ → T) (m : ℕ) → peek pos (record { root = f; size = suc m }) ≡ some (f 0)
  unfolding peek
  peek_suc f m = rw (suc-ne_zero m)

  pub dequeue_restores :
      (f : ℕ → T) (n : ℕ) (q' : PQueue T) (e : T)
      → IsHeap pos f n
      → dequeue pos (record { root = f; size = n }) ≡ some (e, q')
      → IsValid q'
        × Permᴰ (first f n) (e ∷ items q')
        × (e ≡ f 0)
        × (peek pos (record { root = f; size = n }) ≡ some e)
  unfolding dequeue
  dequeue_restores f zero q' e h k = absurd (cc)
  dequeue_restores f (suc m) q' e h k =
      let (heap, perm, top) = down_heap_restores pos f m h in
      let r = down_heap pos f m in
      let same = dequeue_suc f m in
      let element : r m ≡ e = cc (same, k) in
      let queue : record { root = r; size = m } ≡ q' = cc (same, k) in
      let root : e ≡ f 0 = sym element ∙ top in
      (
        subst IsValid queue heap,
        subst (λ q. Permᴰ (first f (suc m)) (e ∷ items q)) queue
            (Permᴰ.trans perm (Permᴰ.cons (sym root) (Permᴰ.refl _))),
        root,
        peek_suc f m ∙ ap some (sym root),
      )

  pub dequeue_empty :
      (f : ℕ → T) (n : ℕ) → dequeue pos (record { root = f; size = n }) ≡ none → first f n ≡ []
  unfolding first
  dequeue_empty f zero h = refl
  dequeue_empty f (suc m) h = absurd (cc (dequeue_suc f m, h))

  pub init_restores : (blank : T) → IsHeap pos (λ i. blank) 0
  unfolding IsHeap
  init_restores blank i p q = absurd (omega arith)

  pub init_empty : (blank : T) → first (λ i. blank) 0 ≡ []
  unfolding first
  init_empty blank = refl

  pub dequeue_first :
      (q q' : PQueue T) (e : T)
      → IsValid q
      → dequeue pos q ≡ some (e, q')
      → All (λ x. at_most pos e x ≡ true) (items q)
  dequeue_first q q' e h k =
      let top = (dequeue_restores q.root q.size q' e h k).2 in
      first-All (λ x. at_most pos e x ≡ true) q.root q.size
        (λ i p.
          ap (λ x. at_most pos x (q.root i)) top ∙ root_least i q.root q.size i h p (omega arith))

  -- From a heap that is not empty, dequeue takes an element whose position is the least of all, the one
  -- that peek shows; the others are left, in an array that is a heap again.
  pub dequeue_takes :
      (q : PQueue T)
      → IsValid q
      → 0 < q.size
      → (e : T) × (q' : PQueue T) × (dequeue pos q ≡ some (e, q'))
        × (peek pos q ≡ some e)
        × IsValid q'
        × Permᴰ (items q) (e ∷ items q')
        × All (λ x. at_most pos e x ≡ true) (items q)
  dequeue_takes q h some_there = elim (Option-cases (dequeue pos q)) [
    | inl e ↦ absurd (
        omega (
          arith,
          some_there,
          length-first q.root q.size,
          ap length (dequeue_empty q.root q.size e),
        ))
    | inr ((e, q'), k) ↦
        let (valid, perm, root, shown) = dequeue_restores q.root q.size q' e h k in
        (e, q', k, shown, valid, perm, dequeue_first q q' e h k)
  ]

  -- The heap in an array, `blank` being what its memory holds at first, keeps what the scheduler's
  -- priority queues promise: it is a bag, and an element with the least position is taken from it.
  abbrev pub heap_queue : T → PriorityQueue T pos
  heap_queue blank = record {
    Queue = PQueue T;
    IsValid = IsValid;
    items = items;
    init = record { root = λ i. blank; size = 0 };
    enqueue = enqueue pos;
    dequeue = dequeue pos;
    peek = peek pos;
    init_valid = init_restores blank;
    init_items = init_empty blank;
    enqueue_valid = λ q e h. (enqueue_restores q e h).0;
    enqueue_items = λ q e h. (enqueue_restores q e h).1;
    dequeue_none = λ q h k. dequeue_empty q.root q.size k;
    dequeue_valid = λ q q' e h k. (dequeue_restores q.root q.size q' e h k).0;
    dequeue_items = λ q q' e h k. (dequeue_restores q.root q.size q' e h k).1;
    dequeue_least = λ q q' e h k. dequeue_first q q' e h k;
    peek_dequeue = λ q q' e h k. (dequeue_restores q.root q.size q' e h k).3;
  }
