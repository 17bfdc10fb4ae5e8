-- ===== src/Rle/Spells.antt =====
-- What a block stands for, from its beginning on.
use lbzip.Shared.{
  ℕ, List, [], ◌∷◌, ◌++◌, append_assoc, append-nil, ◌≡◌, refl, sym, ap, subst, ◌∙◌, Option, none,
  some,
}
use lbzip.Rle.{Run, no_run, prepend, unrle, next_run, meaning, end_of_text}

pub prepend-nil : (o : Option (List ℕ)) → prepend [] o ≡ o
prepend-nil none = refl
prepend-nil (some ys) = refl

pub prepend-append :
    (xs ys : List ℕ) (o : Option (List ℕ)) → prepend xs (prepend ys o) ≡ prepend (xs ++ ys) o
prepend-append xs ys none = refl
prepend-append xs ys (some zs) = ap some (sym (append_assoc xs ys zs))

pub unrle-no_run : (d e : ℕ) (xs : List ℕ) → unrle no_run d xs ≡ unrle no_run e xs
unfolding unrle
unrle-no_run d e [] = refl
unrle-no_run d e (x ∷ xs) = refl

-- The block stands for `out`, and ends with the run `run` of the byte `d`.
unfoldable pub Spells : List ℕ → Run → ℕ → List ℕ → Type 0
Spells block run d out = (ys : List ℕ) → unrle no_run 0 (block ++ ys) ≡ prepend out (unrle run d ys)

pub Spells-nil : Spells [] no_run 0 []
unfolding Spells
Spells-nil ys = sym (prepend-nil _)

pub Spells-push :
    (block : List ℕ) (run : Run) (d : ℕ) (out : List ℕ) (c : ℕ)
    → Spells block run d out
    → Spells (block ++ c ∷ []) (next_run run d c) c (out ++ meaning run d c)
unfolding Spells unrle
Spells-push block run d out c h ys =
    ap (unrle no_run 0) (append_assoc block (c ∷ []) ys)
    ∙ h (c ∷ ys)
    ∙ prepend-append out (meaning run d c) (unrle (next_run run d c) c ys)

pub Spells-forget :
    (block : List ℕ) (d : ℕ) (out : List ℕ) → Spells block no_run d out → Spells block no_run 0 out
unfolding Spells
Spells-forget block d out h ys = h ys ∙ ap (prepend out) (unrle-no_run d 0 ys)

-- A block that does not end in a run of four has all its counts.
pub Spells-end :
    (block : List ℕ) (run : Run) (d : ℕ) (out : List ℕ)
    → end_of_text run ≡ some []
    → Spells block run d out
    → unrle no_run 0 block ≡ some out
unfolding Spells unrle
Spells-end block run d out e h =
    ap (unrle no_run 0) (sym (append-nil block))
    ∙ h []
    ∙ ap (prepend out) e
    ∙ ap some (append-nil out)

-- A byte that stands for itself.
pub Spells-literal :
    (block : List ℕ) (run run' : Run) (d : ℕ) (out : List ℕ) (c : ℕ)
    → Spells block run d out
    → next_run run d c ≡ run'
    → meaning run d c ≡ c ∷ []
    → Spells (block ++ c ∷ []) run' c (out ++ c ∷ [])
Spells-literal block run run' d out c h e m =
    subst (λ r. Spells (block ++ c ∷ []) r c (out ++ c ∷ [])) e
      (subst (λ w. Spells (block ++ c ∷ []) (next_run run d c) c (out ++ w)) m
        (Spells-push block run d out c h))
