-- ===== src/Compress/Reference.antt =====
-- src/compress.c: the blocks in their order, as one thread would make them.
use lbzip.Shared.{ℕ, zero, suc, List, [], ◌∷◌, ◌++◌, ◌≡◌, refl, sym, ap, ◌∙◌, false}
use lbzip.Queue.{Position}
use lbzip.Compress.{InBlk, WorkBlk, next_position, start_work, combine_crc, is_nil}

module _ (size : ℕ) where
  -- what is left of a buffer after its first blocks
  unfoldable pub rest_after : List ℕ → ℕ → List ℕ
  unfolding start_work
  rest_after buffer zero = buffer
  rest_after buffer (suc j) =
      (start_work size
        (record { pos = record { major = 0; minor = 0 }; left = rest_after buffer j })).1

  module _ (input : ℕ → List ℕ) where
    -- the input block at a position, and the block that is made of it
    abbrev pub block_at : Position → InBlk
    block_at p = record { pos = p; left = rest_after (input p.major) p.minor }

    unfoldable pub piece : Position → WorkBlk
    unfolding start_work
    piece p = (start_work size (block_at p)).0

    -- the first `n` blocks, and the position behind them
    unfoldable pub sequential : ℕ → Position × List WorkBlk
    unfolding piece
    sequential zero = (record { major = 0; minor = 0 }, [])
    sequential (suc n) = let r = sequential n in ((piece r.0).next, r.1 ++ piece r.0 ∷ [])

    -- An input block, or a block, is the one of its position, and not empty.
    abbrev pub IsBlock : InBlk → Type 0
    IsBlock b = (b.left ≡ rest_after (input b.pos.major) b.pos.minor) × (is_nil b.left ≡ false)

    abbrev pub IsPiece : WorkBlk → Type 0
    IsPiece w = (w ≡ piece w.pos) × (is_nil (rest_after (input w.pos.major) w.pos.minor) ≡ false)

    pub start_work-IsPiece : (b : InBlk) → IsBlock b → IsPiece (start_work size b).0
    unfolding start_work piece
    start_work-IsPiece b h = (
      ap (λ xs. (start_work size (record { pos = b.pos; left = xs })).0) h.0,
      ap is_nil (sym h.0) ∙ h.1,
    )

    pub start_work-rest :
        (b : InBlk)
        → IsBlock b
        → (start_work size b).1 ≡ rest_after (input b.pos.major) (suc b.pos.minor)
    unfolding start_work rest_after
    start_work-rest b h = ap (λ xs. (start_work size (record { pos = b.pos; left = xs })).1) h.0

    pub piece-next :
        (p : Position) → (piece p).next ≡ next_position p (rest_after (input p.major) (suc p.minor))
    unfolding piece start_work rest_after
    piece-next p = refl

-- the checksum of a stream from its blocks
unfoldable pub stream_crc : ℕ → List WorkBlk → ℕ
stream_crc cc [] = cc
stream_crc cc (w ∷ ws) = stream_crc (combine_crc cc w.enc.block_crc) ws

pub stream_crc-append :
    (cc : ℕ) (ws : List WorkBlk) (w : WorkBlk)
    → stream_crc cc (ws ++ w ∷ []) ≡ combine_crc (stream_crc cc ws) w.enc.block_crc
unfolding stream_crc
stream_crc-append cc [] w = refl
stream_crc-append cc (v ∷ ws) w = stream_crc-append (combine_crc cc v.enc.block_crc) ws w
