-- ===== src/Process/Output.antt =====
-- src/process.c, xwrite().
use Prim.Native.Nat.{min}
use lbzip.Shared.{
  ℕ, zero, suc, ◌+◌, ◌-◌, ◌≤◌, ◌<◌, List, [], ◌∷◌, ◌++◌, ◌≡◌, refl, sym, ap, ◌∙◌, Bool, true, false,
  Bool-cases, ltb, ltb→lt, lt→ltb, if◌then◌else◌, take, drop, length, append-nil, append_assoc, inl,
  inr, arith,
}
use lbzip.Process.{write_loop, xwrite, ssize_max}

-- what write() promises, where it does not fail
pub record IsWrite (write : ℕ → List ℕ → ℕ) : Type 0 where
  pub asked : (n : ℕ) (buffer : List ℕ) → write n buffer ≤ n
  pub some_bytes : (n : ℕ) (buffer : List ℕ) → 0 < n → 0 < write n buffer

take-drop : (n : ℕ) (xs : List ℕ) → take n xs ++ drop n xs ≡ xs
take-drop zero xs = refl
take-drop (suc n) [] = refl
take-drop (suc n) (x ∷ xs) = ap (λ ys. x ∷ ys) (take-drop n xs)

length-drop : (n : ℕ) (xs : List ℕ) → length (drop n xs) ≡ length xs - n
length-drop zero xs = omega arith
length-drop (suc n) [] = omega arith
length-drop (suc n) (x ∷ xs) = omega (arith, length-drop n xs)

empty_drop : (xs : List ℕ) → ltb 0 (length xs) ≡ false → xs ≡ []
empty_drop [] h = refl
empty_drop (x ∷ xs) h = absurd (ground arith)

module _ (write : ℕ → List ℕ → ℕ) (is_write : IsWrite write) where
  write_loop_all :
      (fuel : ℕ) (out buffer : List ℕ)
      → length buffer ≤ fuel
      → 0 < length buffer
      → write_loop write fuel out buffer ≡ out ++ buffer
  unfolding write_loop
  write_loop_all zero out buffer le nonempty = absurd (omega arith)
  write_loop_all (suc fuel) out buffer le nonempty =
      let wr = write (min (length buffer) ssize_max) buffer in
      let whole = ap (λ xs. out ++ xs) (take-drop wr buffer) in
      elim (Bool-cases (ltb 0 (length (drop wr buffer)))) [
        | inl more ↦ rw more (
            write_loop_all fuel (out ++ take wr buffer) (drop wr buffer)
              (omega (
                arith,
                length-drop wr buffer,
                is_write.some_bytes (min (length buffer) ssize_max) buffer (omega arith),
              ))
              (ltb→lt _ _ more)
            ∙ append_assoc out (take wr buffer) (drop wr buffer)
            ∙ whole)
        | inr done ↦ rw done (
            ap (λ xs. out ++ xs)
              (sym (append-nil (take wr buffer))
                ∙ ap (λ xs. take wr buffer ++ xs) (sym (empty_drop (drop wr buffer) done)))
            ∙ whole)
      ]

  -- xwrite() writes the whole buffer, whatever write() does at a time, where the output is open, and
  -- nothing where it is not; it counts the bytes in any case.
  pub xwrite_all :
      (is_open : Bool) (out : List ℕ) (total : ℕ) (buffer : List ℕ)
      → xwrite write is_open (out, total) buffer
        ≡ (if is_open then out ++ buffer else out, total + length buffer)
  unfolding xwrite
  xwrite_all true out total [] = ap (λ xs. (xs, total + 0)) (sym (append-nil out))
  xwrite_all true out total (x ∷ buffer) =
      ap (λ xs. (xs, total + suc (length buffer)))
        (rw (lt→ltb 0 (suc (length buffer)) (omega arith))
          (write_loop_all (suc (length buffer)) out (x ∷ buffer) (omega arith) (omega arith)))
  xwrite_all false out total [] = refl
  xwrite_all false out total (x ∷ buffer) = rw (lt→ltb 0 (suc (length buffer)) (omega arith))
