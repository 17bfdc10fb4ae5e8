-- ===== src/Queue/Heap/Order.antt =====
-- src/process.c: the heap order, and the order with an exception at one place.
use lbzip.Shared.{ℕ, ◌<◌, ◌≢◌, ◌≡◌, true, sym, arith, Bool-cases, inl, inr, ◌==◌, ==→eq, subst}
use lbzip.Queue.{Position}
use lbzip.Queue.Heap.{parent, at_most}

module _ {T : Type 0} (pos : T → Position) where
  -- the edge from `i` to its parent
  abbrev pub Edge : (ℕ → T) → ℕ → Type 0
  Edge f i = at_most pos (f (parent i)) (f i) ≡ true

  unfoldable pub IsHeap : (ℕ → T) → ℕ → Type 0
  IsHeap f n = (i : ℕ) → 0 < i → i < n → Edge f i

  -- The children of `j` are in order with the parent of `j`.
  unfoldable pub IsBridged : (ℕ → T) → ℕ → ℕ → Type 0
  IsBridged f n j =
      (i : ℕ) → 0 < i → i < n → parent i ≡ j → 0 < j → at_most pos (f (parent j)) (f i) ≡ true

  -- only the edge above `j`, or only the edges below it, may be out of order
  pub record UpInv (f : ℕ → T) (n j : ℕ) : Type 0 where
    pub edges : (i : ℕ) → 0 < i → i < n → i ≢ j → Edge f i
    pub bridged : IsBridged f n j

  pub record DownInv (f : ℕ → T) (n j : ℕ) : Type 0 where
    pub edges : (i : ℕ) → 0 < i → i < n → parent i ≢ j → Edge f i
    pub bridged : IsBridged f n j

  pub UpInv-IsHeap : (f : ℕ → T) (n j : ℕ) → UpInv f n j → (0 < j → j < n → Edge f j) → IsHeap f n
  unfolding IsHeap
  UpInv-IsHeap f n j u last i p q = elim (Bool-cases (i == j)) [
    | inl same ↦
        let e = ==→eq i j same in
        subst (Edge f) (sym e) (last (omega (arith, e)) (omega (arith, e)))
    | inr other ↦ u.edges i p q (ground arith)
  ]

  pub DownInv-IsHeap :
      (f : ℕ → T) (n j : ℕ)
      → DownInv f n j
      → ((i : ℕ) → 0 < i → i < n → parent i ≡ j → Edge f i)
      → IsHeap f n
  unfolding IsHeap
  DownInv-IsHeap f n j u below i p q = elim (Bool-cases (parent i == j)) [
    | inl same ↦ below i p q (==→eq (parent i) j same)
    | inr other ↦ u.edges i p q (ground arith)
  ]
