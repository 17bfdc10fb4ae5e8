-- ===== src/Compress/Positions.antt =====
-- src/compress.c: the positions of blocks. An input block stands for its own position and for all
-- behind it in the same buffer.
use lbzip.Shared.{
  ℕ, zero, suc, ◌+◌, ◌-◌, ◌<◌, List, [], ◌∷◌, ◌≡◌, refl, ap, ◌∙◌, subst, ◌⊎◌, inl, inr, Bool, true,
  false, ◌&&◌, ltb, leb, ◌==◌, Bool-cases, arith,
}
use native.Mathlib.Nat.{zero-add}
use lbzip.Shared.Bags.{one_if}
use lbzip.Queue.{Position, pos_eq, pos_lt, pos_le}
use lbzip.Collect.{collect}
use lbzip.Compress.{InBlk, WorkBlk, is_nil, next_position, start_work}
use lbzip.Compress.Reference.{rest_after}

-- The block at `b`, or one behind it in its buffer, is at `p`.
unfoldable pub covers : Position → Position → Bool
covers p b = (b.major == p.major) && leb b.minor p.minor

abbrev pub covers_in : Position → InBlk → Bool
covers_in p b = covers p b.pos

abbrev pub in_at : Position → InBlk → Bool
in_at p b = pos_eq b.pos p

abbrev pub at : Position → WorkBlk → Bool
at p w = pos_eq w.pos p

-- one at the positions from `order` up to the buffers not yet read
unfoldable pub due : Position → ℕ → Position → ℕ
due order next_id p = one_if (pos_le order p && ltb p.major next_id)

pub covers_split :
    (p b : Position)
    → one_if (covers p b)
      ≡ one_if (pos_eq b p) + one_if (covers p (record b { minor = suc b.minor }))
unfolding covers pos_eq
covers_split p b = ground arith

pub covers_last :
    (p b : Position)
    → covers p (record b { minor = suc b.minor }) ≡ false
    → one_if (covers p b) ≡ one_if (pos_eq b p)
covers_last p b h = omega (arith, covers_split p b, ap one_if h)

pub due_order :
    (o : Position) (next_id : ℕ) (p : Position) → 0 < due o next_id p → pos_le o p ≡ true
unfolding due
due_order o next_id p h = ground arith

pub due_before :
    (o : Position) (next_id : ℕ) (p : Position) → 0 < due o next_id p → p.major < next_id
unfolding due pos_le pos_lt
due_before o next_id p h = ground arith

-- What is due grows by the blocks of a buffer that is read.
pub due_read :
    (o p : Position) (next_id : ℕ)
    → (o.major < next_id) ⊎ (o ≡ record { major = next_id; minor = 0 })
    → due o (suc next_id) p
      ≡ one_if (covers p (record { major = next_id; minor = 0 })) + due o next_id p
unfolding due covers pos_le pos_lt
due_read o p next_id (inl h) = ground arith
due_read o p next_id (inr e) = ground (arith, ap Position.major e, ap Position.minor e)

due_next_by :
    (p o : Position) (next_id : ℕ) (rest : List ℕ)
    → o.major < next_id
    → (rest ≡ [] → covers p (record o { minor = suc o.minor }) ≡ false)
    → due o next_id p ≡ one_if (pos_eq o p) + due (next_position o rest) next_id p
unfolding due covers pos_le pos_lt pos_eq
due_next_by p o next_id [] q h = ground (arith, h refl)
due_next_by p o next_id (x ∷ rest) q h = ground arith

module _ (size : ℕ) where
  -- Nothing is collected from nothing.
  start_work_nil : (p : Position) → (start_work size (record { pos = p; left = [] })).1 ≡ []
  unfolding start_work collect
  start_work_nil p = refl

  rest_after_nil :
      (buffer : List ℕ) (i k : ℕ)
      → rest_after size buffer i ≡ []
      → rest_after size buffer (k + i) ≡ []
  unfolding rest_after
  rest_after_nil buffer i zero h = rw (zero-add) h
  rest_after_nil buffer i (suc k) h =
      let here : Position = record { major = 0; minor = 0 } in
      let shifted : suc k + i ≡ suc (k + i) = omega arith in
      rw shifted (
        ap (λ xs. (start_work size (record { pos = here; left = xs })).1)
          (rest_after_nil buffer i k h)
        ∙ start_work_nil here)

  module _ (input : ℕ → List ℕ) where
    -- There is a block at a position.
    abbrev pub rest_at : Position → List ℕ
    rest_at p = rest_after size (input p.major) p.minor

    abbrev pub IsBegun : Position → Type 0
    IsBegun p = is_nil (rest_at p) ≡ false

    nil_of_is_nil : (xs : List ℕ) → is_nil xs ≡ true → xs ≡ []
    nil_of_is_nil [] h = refl
    nil_of_is_nil (x ∷ xs) h = cc

    -- No block is behind the end of its buffer.
    pub behind_end : (p b : Position) → IsBegun p → rest_at b ≡ [] → covers p b ≡ false
    unfolding covers
    behind_end p b h e = elim (Bool-cases (covers p b)) [
      | inr out ↦ out
      | inl inside ↦
          let same : b.major ≡ p.major = ground (arith, inside) in
          let offset : (p.minor - b.minor) + b.minor ≡ p.minor = ground (arith, inside) in
          let empty : rest_at p ≡ [] =
            subst (λ k. rest_after size (input p.major) k ≡ []) offset
              (rest_after_nil (input p.major) b.minor (p.minor - b.minor)
                (subst (λ k. rest_after size (input k) b.minor ≡ []) same e)) in
          cc (h, ap is_nil empty)
    ]

    -- What is due falls by the block at the order, when the order passes it.
    pub due_next :
        (p o : Position) (next_id : ℕ)
        → IsBegun p
        → o.major < next_id
        → due o next_id p
          ≡ one_if (pos_eq o p)
            + due (next_position o (rest_at (record o { minor = suc o.minor }))) next_id p
    due_next p o next_id h q =
        due_next_by p o next_id (rest_at (record o { minor = suc o.minor })) q
          (λ e. behind_end p (record o { minor = suc o.minor }) h e)
