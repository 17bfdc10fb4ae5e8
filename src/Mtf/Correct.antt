-- ===== src/Mtf/Correct.antt =====
-- src/encode.c, do_mtf(): the symbols stand for the block.
use lbzip.Shared.{
  ℕ, suc, ◌<◌, List, [], ◌∷◌, ◌++◌, append_assoc, append-nil, ◌≡◌, refl, sym, ap, ◌∙◌, subst,
  Option, none, some, true, Bool-cases, ◌==◌, ==→eq, if◌then◌else◌, get_or, map, inl, inr, leb,
}
use lbzip.Shared.Table.{holds_below, holds_below_at}
use lbzip.Collect.Invariant.{contains}
use lbzip.Mtf.{
  Locals, put_symbol, run_loop, run, mtf, then_loop, mtf_loop, end_of_block, do_mtf, iota,
}
use lbzip.Mtf.Front.{unmtf, Shows, run_loop_kept}
use lbzip.Mtf.Invariant.{run-Has, run-Flushed, mtf-Kept, longer-Shows, run-Shown, Has, Shown, Kept}

module _ (initial cmap : List ℕ) (small : (x : ℕ) → get_or cmap x 0 < 256) where
  abbrev values : List ℕ → List ℕ
  values bwt = map (λ x. get_or cmap x 0) bwt

  then_loop-Shown :
      (loop : Locals → Option Locals) (xs done : List ℕ) (c : ℕ) (next : Option Locals)
      → ((l : Locals) (d : List ℕ) → Has l → Shows initial l d → Shown initial (d ++ xs) (loop l))
      → Kept initial (done ++ c ∷ []) next
      → Shown initial (done ++ c ∷ xs) (then_loop loop next)
  unfolding Kept Shown
  then_loop-Shown loop xs done c none later h = absurd h
  then_loop-Shown loop xs done c (some l) later h =
      subst (λ d. Shown initial d (loop l)) (append_assoc done (c ∷ []) xs)
        (later l (done ++ c ∷ []) h.0 h.1)

  next-Kept :
      (l : Locals) (done : List ℕ) (c : ℕ)
      → Has l
      → Shows initial l done
      → c < 256
      → Kept initial
          (done ++ c ∷ [])
          (if c == l.u then some (record l { k = suc l.k }) else mtf c (run l))
  unfolding Kept run run_loop
  next-Kept l done c has h lt = elim (Bool-cases (c == l.u)) [
    | inl same ↦ rw same (
      has,
      subst (λ x. Shows initial (record l { k = suc l.k }) (done ++ x ∷ []))
          (sym (==→eq c l.u same)) (longer-Shows initial l done h),
    )
    | inr other ↦ rw other (
        mtf-Kept initial (run l) done c (run-Flushed initial l done h) (run-Has l has) lt
          (ap (λ u. c == u) (run_loop_kept l.k l.k l).0 ∙ other))
  ]

  mtf_loop-Shown :
      (bwt : List ℕ) (l : Locals) (done : List ℕ)
      → Has l
      → Shows initial l done
      → Shown initial (done ++ values bwt) (mtf_loop cmap bwt l)
  unfolding mtf_loop
  mtf_loop-Shown [] l done has h =
      subst (λ d. Shown initial d (some (run l))) (sym (append-nil done))
        (run-Shown initial l done h)
  mtf_loop-Shown (x ∷ bwt) l done has h =
      then_loop-Shown (mtf_loop cmap bwt) (values bwt) done (get_or cmap x 0) _
        (λ l d has h. mtf_loop-Shown bwt l d has h)
        (next-Kept l done (get_or cmap x 0) has h (small x))

-- All bytes are in the list at the start.
start_table : holds_below 256 (λ c. contains c (0 ∷ iota 255 1)) ≡ true
unfolding holds_below contains iota
start_table = refl

-- The symbols, and the end of the block behind them.
unfoldable pub Codes : List ℕ → ℕ → Option Locals → Type 0
Codes values eob none = ⊥
Codes values eob (some l) =
    (symbols : List ℕ) × ((l.mtfv ≡ symbols ++ eob ∷ []) × (unmtf (iota 256 0) 1 symbols ≡ values))

end-Codes :
    (done : List ℕ) (eob : ℕ) (o : Option Locals)
    → Shown (iota 256 0) done o
    → Codes done eob (end_of_block eob o)
unfolding Shown Codes end_of_block put_symbol
end-Codes done eob none h = h
end-Codes done eob (some l) h = (l.mtfv, (refl, h))

-- do_mtf() always finds the byte that it looks for, and its symbols stand for the bytes of the
-- block as `cmap` numbers them, followed by the symbol for the end: read with the list of all
-- bytes, the symbols 0 and 1 as the digits of the length of a run, and each other one as the place
-- from which a byte moves to the front, they give these bytes back. The numbers in `cmap` are below
-- 256.
pub do_mtf-Codes :
    (mtffreq : ℕ → ℕ) (cmap bwt : List ℕ) (eob : ℕ)
    → ((x : ℕ) → get_or cmap x 0 < 256)
    → Codes (map (λ x. get_or cmap x 0) bwt) eob (do_mtf mtffreq cmap bwt eob)
unfolding do_mtf iota Shows
do_mtf-Codes mtffreq cmap bwt eob small =
    let l : Locals = record {
      u = 0;
      order = iota 255 1;
      k = 0;
      mtfv = [];
      mtffreq = λ x. if leb x eob then 0 else mtffreq x;
    } in
    end-Codes (map (λ x. get_or cmap x 0) bwt) eob (mtf_loop cmap bwt l) (
      mtf_loop-Shown (iota 256 0) cmap small bwt l []
        (λ c lt. holds_below_at 256 _ c start_table lt) ([], (refl, λ ts. refl)))
