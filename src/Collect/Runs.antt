-- ===== src/Collect/Runs.antt =====
-- src/encode.c, collect(): the bytes of long runs and of runs from an earlier call, and all places.
use lbzip.Shared.{
  ℕ, suc, ◌-◌, ◌≤◌, ◌<◌, List, ◌≡◌, refl, ◌==◌, leb, Bool, true, ◌&&◌, ◌||◌, not, if◌then◌else◌,
  Bool-cases, leb→le, &&→both, length, arith, inl, inr,
}
use native.Mathlib.Decide.{dec_lt}
use lbzip.Collect.{
  Locals, Place, at_0, at_1, at_2, at_3, in_run, finish_run, finish_long, go_on, check, push, count,
  is_full, is_nearly_full, step_0, step_run, step_long, step_finish, step, max_run_length,
}
use lbzip.Collect.Invariant.{Inv, Ready-start, Ready-other, push-Inv, count-Inv}
use lbzip.Collect.Steps.{
  guard_room, guard_spare, step_0-Good, step_short-Good, step_3-Good, lengthen-Good, Holds, Good,
  Inv-Complete,
}

finish_short :
    (size n k : ℕ) (s : Bool)
    → (leb size (suc n) && (leb size n || ((k == 3) && s))) ≡ true
    → (4 ≤ k → n < size)
    → k < 4
finish_short size n k s full spare = elim (dec_lt k 4) [
  | Dec.yes lt ↦ lt
  | Dec.no ge ↦ absurd (ground (arith, spare (omega arith)))
]

fourth : (k : ℕ) (s : Bool) → k ≡ 3 → s ≡ true → ((k == 3) && s) ≡ true
fourth k s e same = ground arith

module _ (size c : ℕ) (l : Locals) (done : List ℕ) where
  -- The count of a run of four or more is written, and the next run is begun if there is room.
  counted-Good :
      (k : ℕ) → Inv size k l done → 4 ≤ k → Good size c done (step_0 size c (count (k - 4) l))
  counted-Good k i le =
      let j = count-Inv size k l done i le in
      step_0-Good size c (count (k - 4) l) done 0 j (Ready-start c (count (k - 4) l) done j.reads)
        (omega arith)

  step_run-Good :
      (k : ℕ)
      → Inv size k l done
      → 4 ≤ k
      → k < max_run_length
      → Good size c done (step_run k size c l)
  unfolding step_run step_0
  step_run-Good k i le lt = elim (Bool-cases (c == l.ch)) [
    | inl same ↦ rw same (lengthen-Good size c l done k (in_run (suc k)) i le lt same refl refl)
    | inr other ↦ rw other (counted-Good k i le)
  ]

  step_long-Good :
      (k : ℕ)
      → Inv size k l done
      → 4 ≤ k
      → k < max_run_length
      → Good size c done (step_long k size c l)
  unfolding step_long
  step_long-Good k i le lt = elim (Bool-cases (c == l.ch)) [
    | inl same ↦
        rw same (lengthen-Good size c l done k (finish_long (suc k)) i le lt same refl refl)
    | inr other ↦ rw other (counted-Good k i le)
  ]

  finish-Good :
      (k : ℕ)
      → Inv size k l done
      → 1 ≤ k
      → k < 4
      → length l.block < size
      → (k ≡ 3 → (c == l.ch) ≡ true → suc (length l.block) < size)
      → Good size c done (
          if not (c == l.ch)
          then step_0 size c l
          else go_on (finish_run (suc k)) (push c (check c l)))
  unfolding Good
  finish-Good k i le lt room spare = elim (Bool-cases (c == l.ch)) [
    | inl same ↦
        rw same (
          (omega arith, omega arith),
          push-Inv size k c l done i le lt same room (λ e. spare e same),
        )
    | inr other ↦
        rw other (step_0-Good size c l done k i (Ready-other k c l done lt other i.reads) lt)
  ]

  step_finish-Good :
      (k : ℕ)
      → Inv size k l done
      → 1 ≤ k
      → k < max_run_length
      → Good size c done (step_finish k size c l)
  unfolding step_finish Good
  step_finish-Good k i le lt =
      let n = length l.block in
      elim (Bool-cases (is_nearly_full size l && (is_full size l || ((k == 3) && (c == l.ch))))) [
        | inl full ↦ rw full (
            Inv-Complete size k l done i (finish_short size n k (c == l.ch) full i.spare)
              (leb→le size _ (&&→both _ _ full).0))
        | inr room ↦ rw room (elim (Bool-cases (leb 4 k)) [
          | inl long ↦ rw long (step_long-Good k i (leb→le 4 k long) lt)
          | inr short ↦ rw short (
              finish-Good k i le (ground arith) (guard_room size n ((k == 3) && (c == l.ch)) room)
                (λ e same.
                  guard_spare size n ((k == 3) && (c == l.ch)) room (fourth k (c == l.ch) e same)))
        ])
      ]

pub step-Good :
    (size : ℕ) (at : Place) (c : ℕ) (l : Locals) (done : List ℕ)
    → Holds size at l done
    → Good size c done (step size at c l)
unfolding step
step-Good size at_0 c l done h =
    step_0-Good size c l done 0 h.1 (Ready-start c l done h.1.reads) (omega arith)
step-Good size at_1 c l done h =
    step_short-Good size c l done 1 at_2 h.1 (omega arith) (omega arith) refl refl
step-Good size at_2 c l done h =
    step_short-Good size c l done 2 at_3 h.1 (omega arith) (omega arith) refl refl
step-Good size at_3 c l done h = step_3-Good size c l done h.1
step-Good size (in_run k) c l done h = step_run-Good size c l done k h.1 h.0.0 h.0.1
step-Good size (finish_run k) c l done h = step_finish-Good size c l done k h.1 h.0.0 h.0.1
step-Good size (finish_long k) c l done h = step_long-Good size c l done k h.1 h.0.0 h.0.1
