-- ===== src/Collect/Invariant.antt =====
-- src/encode.c, collect(): what holds at each place in the code.
use lbzip.Shared.{
  ℕ, zero, suc, ◌-◌, ◌^◌, ◌≤◌, ◌<◌, List, [], ◌∷◌, ◌++◌, append_assoc, append-nil, ◌≡◌, refl, sym,
  ap, ◌∙◌, ◌==◌, Bool, true, false, ◌||◌, Bool-cases, ==→eq, inl, inr, subst, length, length-append,
  replicate, replicate-snoc, some, arith,
}
use lbzip.Rle.{Run, no_run, one, two, three, four, next_run, meaning, grow, end_of_text}
use lbzip.Rle.Spells.{Spells, Spells-push, Spells-forget, Spells-literal}
use lbzip.Crc.{crc_bytes, crc_step, crc_bytes-append}
use lbzip.Collect.{Locals, check, push, begin_run, count, mark}

unfoldable pub contains : ℕ → List ℕ → Bool
contains x [] = false
contains x (y ∷ ys) = (y == x) || contains x ys

-- The block stands for `done`, and ends with a run of `k` bytes `ch`; the count of a run of four or
-- more is not yet in the block.
unfoldable pub Reads : ℕ → List ℕ → ℕ → List ℕ → Type 0
Reads zero block ch done = Spells block no_run 0 done
Reads (suc zero) block ch done = Spells block one ch done
Reads (suc (suc zero)) block ch done = Spells block two ch done
Reads (suc (suc (suc zero))) block ch done = Spells block three ch done
Reads (suc (suc (suc (suc j)))) block ch done =
    (out : List ℕ) × (Spells block four ch out × (done ≡ out ++ replicate j ch))

-- A run of `k` bytes has been read, and `done` is all that has been read for this block.
pub record Inv (size k : ℕ) (l : Locals) (done : List ℕ) : Type 0 where
  pub reads : Reads k l.block l.ch done
  pub checksum : l.crc ≡ crc_bytes (2 ^ 32 - 1) done
  pub room : length l.block ≤ size
  pub spare : 4 ≤ k → length l.block < size
  pub marked : (x : ℕ) → l.cmap x ≡ contains x l.block
  pub last : 1 ≤ k → contains l.ch l.block ≡ true

-- A byte `c` begins a run.
pub record Ready (c : ℕ) (l : Locals) (done : List ℕ) : Type 0 where
  pub run : Run
  pub d : ℕ
  pub spells : Spells l.block run d done
  pub begins : next_run run d c ≡ one
  pub means : meaning run d c ≡ c ∷ []
  pub ends : end_of_text run ≡ some []

pub Ready-start : (c : ℕ) (l : Locals) (done : List ℕ) → Reads 0 l.block l.ch done → Ready c l done
unfolding Reads
Ready-start c l done h = record {
  run = no_run;
  d = 0;
  spells = h;
  begins = refl;
  means = refl;
  ends = refl;
}

pub Ready-other :
    (k c : ℕ) (l : Locals) (done : List ℕ)
    → k < 4
    → (c == l.ch) ≡ false
    → Reads k l.block l.ch done
    → Ready c l done
unfolding Reads
Ready-other zero c l done lt ne h = Ready-start c l done h
Ready-other (suc zero) c l done lt ne h = record {
  run = one;
  d = l.ch;
  spells = h;
  begins = ap (λ b. grow b one) ne;
  means = refl;
  ends = refl;
}
Ready-other (suc (suc zero)) c l done lt ne h = record {
  run = two;
  d = l.ch;
  spells = h;
  begins = ap (λ b. grow b two) ne;
  means = refl;
  ends = refl;
}
Ready-other (suc (suc (suc zero))) c l done lt ne h = record {
  run = three;
  d = l.ch;
  spells = h;
  begins = ap (λ b. grow b three) ne;
  means = refl;
  ends = refl;
}
Ready-other (suc (suc (suc (suc j)))) c l done lt ne h = absurd (omega arith)

||-swap : (a b c : Bool) → (a || (b || c)) ≡ (b || (a || c))
||-swap true true c = refl
||-swap true false c = refl
||-swap false b c = refl

contains-snoc : (x c : ℕ) (xs : List ℕ) → contains x (xs ++ c ∷ []) ≡ ((c == x) || contains x xs)
unfolding contains
contains-snoc x c [] = refl
contains-snoc x c (y ∷ ys) = rw (contains-snoc x c ys) (||-swap (y == x) (c == x) (contains x ys))

crc-snoc :
    (crc c : ℕ) (done : List ℕ)
    → crc ≡ crc_bytes (2 ^ 32 - 1) done
    → crc_step crc c ≡ crc_bytes (2 ^ 32 - 1) (done ++ c ∷ [])
unfolding crc_bytes
crc-snoc crc c done h = ap (λ k. crc_step k c) h ∙ sym (crc_bytes-append (2 ^ 32 - 1) done (c ∷ []))

mark-contains :
    (c : ℕ) (cmap : ℕ → Bool) (xs : List ℕ)
    → ((x : ℕ) → cmap x ≡ contains x xs)
    → (x : ℕ) → mark c cmap x ≡ contains x (xs ++ c ∷ [])
mark-contains c cmap xs h x = ap (◌||◌ (c == x)) (h x) ∙ sym (contains-snoc x c xs)

contains-last : (c : ℕ) (xs : List ℕ) → contains c (xs ++ c ∷ []) ≡ true
contains-last c xs = contains-snoc c c xs ∙ ground arith

-- A new run is begun.
pub begin_run-Inv :
    (size k c : ℕ) (l : Locals) (done : List ℕ)
    → Inv size k l done
    → Ready c l done
    → length l.block < size
    → Inv size 1 (begin_run c (check c l)) (done ++ c ∷ [])
unfolding begin_run push check Reads
begin_run-Inv size k c l done i r lt = record {
  reads = Spells-literal l.block r.run one r.d done c r.spells r.begins r.means;
  checksum = crc-snoc l.crc c done i.checksum;
  room = omega (arith, length-append l.block (c ∷ []));
  spare = λ h. absurd (omega arith);
  marked = mark-contains c l.cmap l.block i.marked;
  last = λ h. contains-last c l.block;
}

Reads-longer :
    (k c ch : ℕ) (block done : List ℕ)
    → 1 ≤ k
    → k < 4
    → (c == ch) ≡ true
    → Reads k block ch done
    → Reads (suc k) (block ++ c ∷ []) c (done ++ c ∷ [])
unfolding Reads
Reads-longer zero c ch block done le lt e h = absurd (omega arith)
Reads-longer (suc zero) c ch block done le lt e h =
    Spells-literal block one two ch done c h (ap (λ b. grow b one) e) refl
Reads-longer (suc (suc zero)) c ch block done le lt e h =
    Spells-literal block two three ch done c h (ap (λ b. grow b two) e) refl
Reads-longer (suc (suc (suc zero))) c ch block done le lt e h = (
  done ++ c ∷ [],
  (
    Spells-literal block three four ch done c h (ap (λ b. grow b three) e) refl,
    sym (append-nil (done ++ c ∷ [])),
  ),
)
Reads-longer (suc (suc (suc (suc j)))) c ch block done le lt e h = absurd (omega arith)

contains-again :
    (c x : ℕ) (xs : List ℕ) → contains c xs ≡ true → contains x xs ≡ contains x (xs ++ c ∷ [])
contains-again c x xs h = elim (Bool-cases (c == x)) [
  | inl e ↦
      ap (λ y. contains y xs) (sym (==→eq c x e))
      ∙ h
      ∙ sym (contains-snoc x c xs ∙ ap (λ b. b || contains x xs) e)
  | inr e ↦ sym (contains-snoc x c xs ∙ ap (λ b. b || contains x xs) e)
]

-- A run of at most three bytes gets one more.
pub push-Inv :
    (size k c : ℕ) (l : Locals) (done : List ℕ)
    → Inv size k l done
    → 1 ≤ k
    → k < 4
    → (c == l.ch) ≡ true
    → length l.block < size
    → (k ≡ 3 → suc (length l.block) < size)
    → Inv size (suc k) (push c (check c l)) (done ++ c ∷ [])
unfolding push check
push-Inv size k c l done i le lt e room spare = record {
  reads = Reads-longer k c l.ch l.block done le lt e i.reads;
  checksum = crc-snoc l.crc c done i.checksum;
  room = omega (arith, length-append l.block (c ∷ []));
  spare = λ h. omega (arith, length-append l.block (c ∷ []), spare (omega arith));
  marked = λ x.
      i.marked x
      ∙ contains-again c x l.block (ap (λ y. contains y l.block) (==→eq c l.ch e) ∙ i.last le);
  last = λ h. contains-last c l.block;
}

Reads-more :
    (k ch : ℕ) (block done : List ℕ)
    → 4 ≤ k
    → Reads k block ch done
    → Reads (suc k) block ch (done ++ ch ∷ [])
unfolding Reads
Reads-more (suc (suc (suc (suc j)))) ch block done le h = (
  h.0,
  (
    h.1.0,
    ap (λ xs. xs ++ ch ∷ []) h.1.1
        ∙ append_assoc h.0 (replicate j ch) (ch ∷ [])
        ∙ ap (◌++◌ h.0) (replicate-snoc j ch),
  ),
)
Reads-more k ch block done le h = absurd (omega arith)

-- A run of four or more gets one more byte.
pub check-Inv :
    (size k c : ℕ) (l : Locals) (done : List ℕ)
    → Inv size k l done
    → 4 ≤ k
    → (c == l.ch) ≡ true
    → Inv size (suc k) (check c l) (done ++ c ∷ [])
unfolding check
check-Inv size k c l done i le e = record {
  reads =
      subst (λ y. Reads (suc k) l.block l.ch (done ++ y ∷ [])) (sym (==→eq c l.ch e))
        (Reads-more k l.ch l.block done le i.reads);
  checksum = crc-snoc l.crc c done i.checksum;
  room = i.room;
  spare = λ h. i.spare le;
  marked = i.marked;
  last = λ h. i.last (omega arith);
}

Reads-counted :
    (k ch : ℕ) (block done : List ℕ)
    → 4 ≤ k
    → Reads k block ch done
    → Spells (block ++ (k - 4) ∷ []) no_run 0 done
unfolding Reads
Reads-counted (suc (suc (suc (suc j)))) ch block done le h =
    let sum : suc (suc (suc (suc j))) - 4 ≡ j = omega arith in
    rw (sum, h.1.1)
      (Spells-forget (block ++ j ∷ []) j (h.0 ++ replicate j ch)
        (Spells-push block four ch h.0 j h.1.0))
Reads-counted k ch block done le h = absurd (omega arith)

-- A run of four or more is ended by its count.
pub count-Inv :
    (size k : ℕ) (l : Locals) (done : List ℕ)
    → Inv size k l done
    → 4 ≤ k
    → Inv size 0 (count (k - 4) l) done
unfolding count Reads
count-Inv size k l done i le = record {
  reads = Reads-counted k l.ch l.block done le i.reads;
  checksum = i.checksum;
  room = omega (arith, length-append l.block ((k - 4) ∷ []), i.spare le);
  spare = λ h. absurd (omega arith);
  marked = mark-contains (k - 4) l.cmap l.block i.marked;
  last = λ h. absurd (omega arith);
}
