-- ===== src/Queue/Deque/Ring.antt =====
-- src/process.h: the places of the ring, and the list of the elements in order.
use lbzip.Shared.{
  ℕ, zero, suc, ◌+◌, ◌-◌, ◌*◌, ◌^◌, ◌≤◌, ◌<◌, ◌≢◌, ◌≡◌, refl, sym, ap, ap₂, ◌∙◌, List, [], ◌∷◌,
  ◌++◌, ltb, ◌==◌, none, some, if◌then◌else◌, get_elem?, set, length, arith,
}
use lbzip.Queue.Memory.{put, put_at, put_off}
use lbzip.Queue.Deque.{Deque, forward, backward, place}

-- The ring fits in half of the unsigned numbers.
pub record IsValid {T : Type 0} (q : Deque T) : Type 0 where
  pub inside : q.head < q.modulus
  pub room : q.size ≤ q.modulus
  pub width : q.modulus * 2 ≤ 2 ^ 32

pub forward_lem :
    (m a : ℕ) → a < m * 2 → m * 2 ≤ 2 ^ 32 → forward m a ≡ (if ltb a m then a else a - m)
unfolding forward
forward_lem m a h w = ground arith

pub backward_lem :
    (m a : ℕ) → a < m → m * 2 ≤ 2 ^ 32 → backward m a ≡ (if a == 0 then m - 1 else a - 1)
unfolding backward
backward_lem m a h w = ground arith

module _ {T : Type 0} where
  -- the values at the first indices, in order
  abbrev pub listing : (ℕ → T) → ℕ → List T
  listing g zero = []
  listing g (suc n) = g 0 ∷ listing (λ i. g (suc i)) n

  pub listing-ext :
      (f g : ℕ → T) (n : ℕ) → ((i : ℕ) → i < n → f i ≡ g i) → listing f n ≡ listing g n
  listing-ext f g zero h = refl
  listing-ext f g (suc n) h =
      ap₂ (λ x xs. x ∷ xs) (h 0 (omega arith))
        (listing-ext (λ i. f (suc i)) (λ i. g (suc i)) n (λ i p. h (suc i) (omega arith)))

  listing-suc : (g : ℕ → T) (n : ℕ) → listing g (suc n) ≡ listing g n ++ g n ∷ []
  listing-suc g zero = refl
  listing-suc g (suc n) = ap (λ xs. g 0 ∷ xs) (listing-suc (λ i. g (suc i)) n)

  abbrev pub items : Deque T → List T
  items q = listing (λ i. q.root (place q i)) q.size

  pub length-listing : (g : ℕ → T) (n : ℕ) → length (listing g n) ≡ n
  length-listing g zero = refl
  length-listing g (suc n) = ap suc (length-listing (λ i. g (suc i)) n)

  pub get_elem?-listing :
      (g : ℕ → T) (n i : ℕ) → get_elem? (listing g n) i ≡ (if ltb i n then some (g i) else none)
  get_elem?-listing g zero i = ground arith
  get_elem?-listing g (suc n) zero = ground arith
  get_elem?-listing g (suc n) (suc i) = ground (arith, get_elem?-listing (λ i. g (suc i)) n i)

  -- One value differs.
  pub listing-set :
      (f g : ℕ → T) (n i : ℕ) (e : T)
      → i < n
      → g i ≡ e
      → ((j : ℕ) → j < n → j ≢ i → g j ≡ f j)
      → listing g n ≡ set (listing f n) i e
  listing-set f g zero i e h at off = elim h [ ]
  listing-set f g (suc n) zero e h at off =
      ap₂ (λ x xs. x ∷ xs) at
        (listing-ext (λ j. g (suc j)) (λ j. f (suc j)) n
          (λ j b. off (suc j) (omega arith) (λ same. omega (arith, same))))
  listing-set f g (suc n) (suc i) e h at off =
      ap₂ (λ x xs. x ∷ xs) (off 0 (omega arith) (λ same. omega (arith, same)))
        (listing-set (λ j. f (suc j)) (λ j. g (suc j)) n i e (omega arith) at
          (λ j b apart. off (suc j) (omega arith) (λ same. apart (omega (arith, same)))))

  pub place_inside : (q : Deque T) (i : ℕ) → IsValid q → i < q.modulus → place q i < q.modulus
  place_inside q i v h = ground (
    arith,
    v.inside,
    v.width,
    forward_lem q.modulus (q.head + i + 1) (omega (arith, v.inside, h)) v.width,
  )

  pub place_apart :
      (q : Deque T) (i j : ℕ)
      → IsValid q
      → i < q.modulus
      → j < q.modulus
      → i ≢ j
      → place q i ≢ place q j
  place_apart q i j v hi hj h = ground (
    arith,
    v.inside,
    v.width,
    h,
    forward_lem q.modulus (q.head + i + 1) (omega (arith, v.inside, hi)) v.width,
    forward_lem q.modulus (q.head + j + 1) (omega (arith, v.inside, hj)) v.width,
  )

  place_ne_head : (q : Deque T) (i : ℕ) → IsValid q → suc i < q.modulus → place q i ≢ q.head
  place_ne_head q i v h = ground (
    arith,
    v.inside,
    v.width,
    forward_lem q.modulus (q.head + i + 1) (omega (arith, v.inside, h)) v.width,
  )

  -- Another place is written.
  pub listing-put :
      (q : Deque T) (k : ℕ) (p : ℕ) (e : T)
      → ((i : ℕ) → i < k → place q i ≢ p)
      → listing (λ i. put q.root p e (place q i)) k ≡ listing (λ i. q.root (place q i)) k
  listing-put q k p e h = listing-ext _ _ k (λ i b. put_off q.root p e (place q i) (h i b))

  abbrev pub pushed : Deque T → T → Deque T
  pushed q e = record q {
    size = suc q.size;
    root = put q.root (forward q.modulus (q.head + suc q.size)) e;
  }

  pub pushed-items :
      (q : Deque T) (e : T)
      → IsValid q
      → q.size < q.modulus
      → items (pushed q e) ≡ items q ++ e ∷ []
  pushed-items q e v h =
      let p = forward q.modulus (q.head + suc q.size) in
      let last : place q q.size ≡ p = ap (forward q.modulus) (omega arith) in
      listing-suc (λ i. put q.root p e (place q i)) q.size
      ∙ ap₂ (λ xs x. xs ++ x ∷ [])
          (listing-put q q.size p e (λ i b k.
            place_apart q i q.size v (omega (arith, h, b)) h (λ same. omega (arith, same, b))
              (k ∙ sym last)))
          (ap (put q.root p e) last ∙ put_at q.root p e)

  abbrev pub unshifted : Deque T → T → Deque T
  unshifted q e = record q {
    size = suc q.size;
    root = put q.root q.head e;
    head = backward q.modulus q.head;
  }

  backward-place :
      (q : Deque T) (i : ℕ)
      → IsValid q
      → suc i < q.modulus
      → forward q.modulus (backward q.modulus q.head + suc i + 1) ≡ place q i
  backward-place q i v h =
      let back = backward_lem q.modulus q.head v.inside v.width in
      ground (
        arith,
        v.inside,
        v.width,
        back,
        forward_lem q.modulus (q.head + i + 1) (omega (arith, v.inside, h)) v.width,
        forward_lem q.modulus (backward q.modulus q.head + suc i + 1),
      )

  backward-head :
      (q : Deque T) → IsValid q → forward q.modulus (backward q.modulus q.head + 0 + 1) ≡ q.head
  backward-head q v =
      let back = backward_lem q.modulus q.head v.inside v.width in
      ground
        (arith, v.inside, v.width, back, forward_lem q.modulus (backward q.modulus q.head + 0 + 1))

  pub unshifted-items :
      (q : Deque T) (e : T) → IsValid q → q.size < q.modulus → items (unshifted q e) ≡ e ∷ items q
  unshifted-items q e v h =
      ap₂ (λ x xs. x ∷ xs) (ap (put q.root q.head e) (backward-head q v) ∙ put_at q.root q.head e)
        (listing-ext _ _ q.size (λ i b.
          ap (put q.root q.head e) (backward-place q i v (omega (arith, h, b)))
          ∙ put_off q.root q.head e (place q i) (place_ne_head q i v (omega (arith, h, b)))))

  abbrev pub shifted : Deque T → Deque T
  shifted q = record q { size = q.size - 1; head = forward q.modulus (q.head + 1) }

  forward-place :
      (q : Deque T) (i : ℕ)
      → IsValid q
      → suc i < q.modulus
      → forward q.modulus (forward q.modulus (q.head + 1) + i + 1) ≡ place q (suc i)
  forward-place q i v h =
      let next = forward_lem q.modulus (q.head + 1) (omega (arith, v.inside)) v.width in
      ground (
        arith,
        v.inside,
        v.width,
        next,
        forward_lem q.modulus (q.head + suc i + 1) (omega (arith, v.inside, h)) v.width,
        forward_lem q.modulus (forward q.modulus (q.head + 1) + i + 1),
      )

  pub shifted-items :
      (q : Deque T) (n : ℕ)
      → IsValid q
      → q.size ≡ suc n
      → items q ≡ q.root (forward q.modulus (q.head + 1)) ∷ items (shifted q)
  shifted-items q n v e =
      let less : q.size - 1 ≡ n = omega (arith, e) in
      let first : place q 0 ≡ forward q.modulus (q.head + 1) =
        ap (forward q.modulus) (omega arith) in
      ap (listing (λ i. q.root (place q i))) e
      ∙ ap₂ (λ x xs. q.root x ∷ xs) first
          (listing-ext _ _ n
            (λ i b. sym (ap q.root (forward-place q i v (omega (arith, e, v.room, b))))))
      ∙ ap
          (λ k.
            q.root (forward q.modulus (q.head + 1))
            ∷ listing (λ i. q.root (forward q.modulus (forward q.modulus (q.head + 1) + i + 1))) k)
          (sym less)

  abbrev pub popped : Deque T → Deque T
  popped q = record q { size = q.size - 1 }

  pub popped-items :
      (q : Deque T) (n : ℕ)
      → q.size ≡ suc n
      → items q ≡ items (popped q) ++ q.root (place q (q.size - 1)) ∷ []
  popped-items q n e =
      let less : q.size - 1 ≡ n = omega (arith, e) in
      ap (listing (λ i. q.root (place q i))) (e ∙ ap suc (sym less))
      ∙ listing-suc (λ i. q.root (place q i)) (q.size - 1)
