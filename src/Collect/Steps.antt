-- ===== src/Collect/Steps.antt =====
-- src/encode.c, collect(): each byte that is looked at keeps the invariant or completes the block.
use lbzip.Shared.{
  ℕ, zero, suc, ◌-◌, ◌^◌, ◌≤◌, ◌<◌, List, [], ◌∷◌, ◌++◌, ◌≡◌, refl, ◌==◌, leb, Bool, true, false,
  ◌&&◌, ◌||◌, Bool-cases, leb→le, &&→both, length, some, arith, inl, inr, subst,
}
use lbzip.Common.{negsuc}
use lbzip.Rle.{no_run, one, two, three, unrle}
use lbzip.Rle.Spells.{Spells-end}
use lbzip.Crc.{crc_bytes}
use lbzip.Collect.{
  Locals, Place, at_0, at_1, at_2, at_3, in_run, finish_run, finish_long, Next, go_on, unread,
  check, count, is_full, is_nearly_full, step_0, step_short, step_3, lengthen, max_run_length,
}
use lbzip.Collect.Invariant.{
  contains, Reads, Inv, Ready, Ready-other, begin_run-Inv, push-Inv, check-Inv, count-Inv,
}

-- the length of the run at a place, and the least that it can be there
abbrev pub run_length : Place → ℕ
run_length at_0 = 0
run_length at_1 = 1
run_length at_2 = 2
run_length at_3 = 3
run_length (in_run k) = k
run_length (finish_run k) = k
run_length (finish_long k) = k

abbrev pub least : Place → ℕ
least (in_run k) = 4
least (finish_run k) = 1
least (finish_long k) = 4
least at = 0

abbrev pub Holds : ℕ → Place → Locals → List ℕ → Type 0
Holds size at l done =
    ((least at ≤ run_length at) × (run_length at < max_run_length))
    × Inv size (run_length at) l done

-- The block stands for `done`, and there is room for one byte more at most.
pub record Complete (size : ℕ) (l : Locals) (done : List ℕ) : Type 0 where
  pub text : unrle no_run 0 l.block ≡ some done
  pub checksum : l.crc ≡ crc_bytes (2 ^ 32 - 1) done
  pub room : length l.block ≤ size
  pub full : size ≤ suc (length l.block)
  pub marked : (x : ℕ) → l.cmap x ≡ contains x l.block

unfoldable pub Good : ℕ → ℕ → List ℕ → Next → Type 0
Good size c done (go_on at l) = Holds size at l (done ++ c ∷ [])
Good size c done (unread (negsuc zero) l) = Complete size l done
Good size c done (unread state l) = ⊥

pub Reads-text :
    (k ch : ℕ) (block done : List ℕ)
    → k < 4
    → Reads k block ch done
    → unrle no_run 0 block ≡ some done
unfolding Reads
Reads-text zero ch block done lt h = Spells-end block no_run 0 done refl h
Reads-text (suc zero) ch block done lt h = Spells-end block one ch done refl h
Reads-text (suc (suc zero)) ch block done lt h = Spells-end block two ch done refl h
Reads-text (suc (suc (suc zero))) ch block done lt h = Spells-end block three ch done refl h
Reads-text (suc (suc (suc (suc j)))) ch block done lt h = absurd (omega arith)

pub Inv-Complete :
    (size k : ℕ) (l : Locals) (done : List ℕ)
    → Inv size k l done
    → k < 4
    → size ≤ suc (length l.block)
    → Complete size l done
Inv-Complete size k l done i lt full = record {
  text = Reads-text k l.ch l.block done lt i.reads;
  checksum = i.checksum;
  room = i.room;
  full = full;
  marked = i.marked;
}

-- what the guard of a byte that may be the fourth of a run says about the room
pub guard_room :
    (size n : ℕ) (s : Bool) → (leb size (suc n) && (leb size n || s)) ≡ false → n < size
guard_room size n true g = ground arith
guard_room size n false g = ground arith

pub guard_spare :
    (size n : ℕ) (s : Bool)
    → (leb size (suc n) && (leb size n || s)) ≡ false
    → s ≡ true
    → suc n < size
guard_spare size n s g e = elim (Bool-cases (leb size n)) [
  | inl full ↦ ground arith
  | inr room ↦ ground arith
]

longest_count : (k : ℕ) → (suc k == max_run_length) ≡ true → suc k - 4 ≡ max_run_length - 4
longest_count k e = ground arith

module _ (size c : ℕ) (l : Locals) (done : List ℕ) where
  pub step_0-Good :
      (k : ℕ) → Inv size k l done → Ready c l done → k < 4 → Good size c done (step_0 size c l)
  unfolding step_0 Good
  step_0-Good k i r lt = elim (Bool-cases (is_full size l)) [
    | inl full ↦ rw full (Inv-Complete size k l done i lt (ground arith))
    | inr room ↦
        rw room ((omega arith, omega arith), begin_run-Inv size k c l done i r (ground arith))
  ]

  pub step_short-Good :
      (k : ℕ) (longer : Place)
      → Inv size k l done
      → 1 ≤ k
      → k < 3
      → run_length longer ≡ suc k
      → least longer ≡ 0
      → Good size c done (step_short longer size c l)
  unfolding step_short Good
  step_short-Good k longer i le lt next any = elim (Bool-cases (is_full size l)) [
    | inl full ↦ rw full (Inv-Complete size k l done i (omega arith) (ground arith))
    | inr room ↦ rw room (elim (Bool-cases (c == l.ch)) [
      | inl same ↦
          rw (same, next, any)
            (
              (omega arith, omega arith),
              push-Inv size k c l done i le (omega arith) same (ground arith)
                  (λ e. absurd (omega arith)),
            )
      | inr other ↦ rw other (
        (omega arith, omega arith),
        begin_run-Inv size k c l done i (Ready-other k c l done (omega arith) other i.reads)
            (ground arith),
      )
    ])
  ]

  pub step_3-Good : Inv size 3 l done → Good size c done (step_3 size c l)
  unfolding step_3 Good
  step_3-Good i = elim (Bool-cases (is_nearly_full size l && (is_full size l || (c == l.ch)))) [
    | inl full ↦
        rw full (Inv-Complete size 3 l done i (omega arith) (leb→le size _ (&&→both _ _ full).0))
    | inr room ↦ rw room (elim (Bool-cases (c == l.ch)) [
      | inl same ↦ rw same (
        (omega arith, omega arith),
        push-Inv size 3 c l done i (omega arith) (omega arith) same
            (guard_room size (length l.block) (c == l.ch) room)
            (λ e. guard_spare size (length l.block) (c == l.ch) room same),
      )
      | inr other ↦ rw other (
        (omega arith, omega arith),
        begin_run-Inv size 3 c l done i (Ready-other 3 c l done (omega arith) other i.reads)
            (guard_room size (length l.block) (c == l.ch) room),
      )
    ])
  ]

  pub lengthen-Good :
      (k : ℕ) (again : Place)
      → Inv size k l done
      → 4 ≤ k
      → k < max_run_length
      → (c == l.ch) ≡ true
      → run_length again ≡ suc k
      → least again ≡ 4
      → Good size c done (lengthen again k c l)
  unfolding Good lengthen
  lengthen-Good k again i le lt same next any = elim (Bool-cases (suc k == max_run_length)) [
    | inl longest ↦ rw longest (
      (omega arith, omega arith),
      subst (λ n. Inv size 0 (count n (check c l)) (done ++ c ∷ [])) (longest_count k longest)
          (count-Inv size (suc k) (check c l) (done ++ c ∷ []) (check-Inv size k c l done i le same)
            (omega arith)),
    )
    | inr shorter ↦
        rw (shorter, next, any) ((omega arith, ground arith), check-Inv size k c l done i le same)
  ]
