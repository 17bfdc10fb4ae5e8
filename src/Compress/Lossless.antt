-- ===== src/Compress/Lossless.antt =====
-- src/compress.c: nothing of the input is lost between the blocks.
use lbzip.Shared.{
  ℕ, zero, suc, ◌-◌, ◌^◌, List, [], ◌∷◌, ◌++◌, ◌≡◌, refl, sym, ap, ◌∙◌, subst, true, append_assoc,
  append-nil, arith,
}
use mathlib.Core.List.{append_cancel_right}
use lbzip.Common.{ℤ, pos, negsuc}
use lbzip.Crc.{crc_bytes}
use lbzip.Queue.{Position, PriorityQueue}
use lbzip.Collect.{EncoderState, finalize, finalize_at, encoder_init}
use lbzip.Collect.Block.{Whole, finalize-collect, encoder_init-IsOpen}
use lbzip.Compress.{
  InBlk, WorkBlk, State, next_position, start_work, combine_crc, fresh_memory, can_terminate,
}
use lbzip.Compress.Reference.{rest_after, piece, piece-next, sequential, stream_crc}
use lbzip.Compress.Positions.{rest_at}
use lbzip.Compress.Steps.{Reach}
use lbzip.Compress.Complete.{can_terminate_complete}

-- the buffers one behind the other
abbrev pub flatten : List (List ℕ) → List ℕ
flatten [] = []
flatten (x ∷ xs) = x ++ flatten xs

-- the first `n` buffers of the input
unfoldable pub contents : (ℕ → List ℕ) → ℕ → List ℕ
contents input zero = []
contents input (suc n) = contents input n ++ input n

-- The blocks stand for the texts, each for one.
abbrev pub StandFor : List WorkBlk → List (List ℕ) → Type 0
StandFor [] [] = Unit
StandFor (w ∷ ws) (t ∷ ts) = Whole (finalize w.enc) t × StandFor ws ts
StandFor [] (t ∷ ts) = ⊥
StandFor (w ∷ ws) [] = ⊥

-- the checksum of a stream of which these are the blocks
unfoldable pub texts_crc : ℕ → List (List ℕ) → ℕ
texts_crc c [] = c
texts_crc c (t ∷ ts) = texts_crc (combine_crc c (crc_bytes (2 ^ 32 - 1) t)) ts

flatten-snoc : (ts : List (List ℕ)) (t : List ℕ) → flatten (ts ++ t ∷ []) ≡ flatten ts ++ t
flatten-snoc [] t = append-nil t
flatten-snoc (u ∷ ts) t = ap (λ x. u ++ x) (flatten-snoc ts t) ∙ sym (append_assoc u (flatten ts) t)

StandFor-snoc :
    (ws : List WorkBlk) (ts : List (List ℕ)) (w : WorkBlk) (t : List ℕ)
    → StandFor ws ts
    → Whole (finalize w.enc) t
    → StandFor (ws ++ w ∷ []) (ts ++ t ∷ [])
StandFor-snoc [] [] w t s h = (h, tt)
StandFor-snoc (v ∷ ws) (u ∷ ts) w t s h = (s.0, StandFor-snoc ws ts w t s.1 h)
StandFor-snoc [] (u ∷ ts) w t s h = absurd s
StandFor-snoc (v ∷ ws) [] w t s h = absurd s

finalize_at-block_crc : (k : ℤ) (s : EncoderState) → (finalize_at k s).block_crc ≡ s.block_crc
finalize_at-block_crc (pos k) s = ground arith
finalize_at-block_crc (negsuc k) s = refl

finalize-block_crc : (s : EncoderState) → (finalize s).block_crc ≡ s.block_crc
unfolding finalize
finalize-block_crc s = finalize_at-block_crc s.rle_state s

stream_crc-StandFor :
    (c : ℕ) (ws : List WorkBlk) (ts : List (List ℕ))
    → StandFor ws ts
    → stream_crc c ws ≡ texts_crc c ts
unfolding stream_crc texts_crc
stream_crc-StandFor c [] [] s = refl
stream_crc-StandFor c (w ∷ ws) (t ∷ ts) s =
    let crc : w.enc.block_crc ≡ crc_bytes (2 ^ 32 - 1) t =
      sym (finalize-block_crc w.enc) ∙ s.0.checksum in
    ap (λ x. stream_crc (combine_crc c x) ws) crc
    ∙ stream_crc-StandFor (combine_crc c (crc_bytes (2 ^ 32 - 1) t)) ws ts s.1
stream_crc-StandFor c [] (t ∷ ts) s = absurd s
stream_crc-StandFor c (w ∷ ws) [] s = absurd s

module _ (size : ℕ) (input : ℕ → List ℕ) where
  -- A block stands for what has been taken for it.
  piece-Whole :
      (p : Position)
      → (t : List ℕ) × (rest_at size input p
          ≡ t ++ rest_at size input (record p { minor = suc p.minor }))
        × Whole (finalize (piece size input p).enc) t
  unfolding piece start_work rest_after
  piece-Whole p =
      let (t, (eaten, whole)) =
        finalize-collect (encoder_init fresh_memory size) (rest_after size (input p.major) p.minor)
          [] (encoder_init-IsOpen fresh_memory size) in
      (t, eaten, whole)

  -- The texts of the first blocks, with what is left of the buffer at the position behind them, are
  -- the buffers up to that one.
  Told : Position × List WorkBlk → Type 0
  Told r =
      (ts : List (List ℕ)) × StandFor r.1 ts
      × (flatten ts ++ rest_at size input r.0 ≡ contents input (suc r.0.major))

  next-Told :
      (o : Position) (ws : List WorkBlk) (w : WorkBlk) (t rest : List ℕ)
      → Told (o, ws)
      → rest_at size input o ≡ t ++ rest
      → rest ≡ rest_at size input (record o { minor = suc o.minor })
      → Whole (finalize w.enc) t
      → Told (next_position o rest, ws ++ w ∷ [])
  unfolding Told contents rest_after
  next-Told o ws w t [] (ts, s, e) h k x = (
    ts ++ t ∷ [],
    StandFor-snoc ws ts w t s x,
    ap (λ y. y ++ input (suc o.major))
        (flatten-snoc ts t ∙ ap (λ y. flatten ts ++ y) (sym (append-nil t) ∙ sym h) ∙ e),
  )
  next-Told o ws w t (y ∷ rest) (ts, s, e) h k x = (
    ts ++ t ∷ [],
    StandFor-snoc ws ts w t s x,
    ap (λ z. z ++ rest_at size input (record o { minor = suc o.minor })) (flatten-snoc ts t)
        ∙ append_assoc (flatten ts) t _
        ∙ ap (λ z. flatten ts ++ z) (ap (λ z. t ++ z) (sym k) ∙ sym h)
        ∙ e,
  )

  sequential-Told : (n : ℕ) → Told (sequential size input n)
  unfolding Told sequential contents rest_after
  sequential-Told zero = ([], tt, refl)
  sequential-Told (suc n) =
      let r = sequential size input n in
      let (t, eaten, whole) = piece-Whole r.0 in
      let rest = rest_at size input (record r.0 { minor = suc r.0.minor }) in
      subst (λ o. Told (o, r.1 ++ piece size input r.0 ∷ [])) (sym (piece-next size input r.0))
        (next-Told r.0 r.1 (piece size input r.0) t rest (sequential-Told n) eaten refl whole)

  -- what the blocks say, once all buffers have been read
  sent-Told :
      (next_id : ℕ) (ws : List WorkBlk)
      → Told (record { major = next_id; minor = 0 }, ws)
      → (ts : List (List ℕ)) × StandFor ws ts × (flatten ts ≡ contents input next_id)
  unfolding Told contents rest_after
  sent-Told next_id ws (ts, s, e) =
      (ts, s, append_cancel_right (flatten ts) (contents input next_id) (input next_id) e)

module _ (coll : PriorityQueue InBlk InBlk.pos) (work : PriorityQueue WorkBlk WorkBlk.pos)
    (size : ℕ) (input : ℕ → List ℕ) (num_worker total_in_slots total_out_slots : ℕ) where
  -- In a reachable state in which the compressor may terminate, the input has been read to its end,
  -- and the blocks that have been sent stand, in their order, for texts that together are the input:
  -- the run-length code of each, undone, is its text and fits the size of a block. The checksum of
  -- the stream is combined from those of the texts.
  pub can_terminate_lossless :
      (s : State coll work)
      → Reach coll work size input num_worker total_in_slots total_out_slots s
      → can_terminate coll work num_worker total_out_slots s ≡ true
      → (input s.next_id ≡ [])
        × ((ts : List (List ℕ)) × StandFor s.sent ts
            × (flatten ts ≡ contents input s.next_id)
            × (s.combined_crc ≡ texts_crc 0 ts))
  can_terminate_lossless s r may =
      let (ended, full, (n, blocks), crc, written, slots) =
        can_terminate_complete coll work size input num_worker total_in_slots total_out_slots s r
          may in
      let (ts, stand, all) =
        sent-Told size input s.next_id s.sent
          (subst (Told size input) blocks (sequential-Told size input n)) in
      (ended, (ts, stand, all, crc ∙ stream_crc-StandFor 0 s.sent ts stand))
