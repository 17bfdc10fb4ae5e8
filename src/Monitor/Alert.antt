-- ===== src/Monitor/Alert.antt =====
-- src/process.c: no wake-up is lost.
use lbzip.Shared.{
  ℕ, suc, zero, ◌+◌, ◌<◌, List, ◌≡◌, refl, sym, ap, ◌∙◌, subst, ◌⊎◌, inl, inr, Bool, true, false,
  ◌||◌, Bool-cases, Option, none, ◌==◌, ==→eq, arith,
}
use lbzip.Monitor.{
  Holder, free, in_loop, in_task, in_callback, is_some, Monitor, select_task, signal, broadcast,
  sched_unlock, next_round, stall, end_worker, start,
}
use lbzip.Monitor.Steps.{
  Step, takes_mutex, runs_task, changes, leaves, comes_back, ends_task, calls, ends_call, stalls,
  ends, wakes, Reach, begins, goes_on,
}

-- the workers that have the mutex
abbrev pub inside : Holder → ℕ
inside free = 0
inside in_loop = 1
inside in_task = 1
inside in_callback = 0

zero_or_more : (n : ℕ) → (n ≡ 0) ⊎ (0 < n)
zero_or_more zero = inl refl
zero_or_more (suc n) = inr (omega arith)

idle {ℓ} :
    {A : Type ℓ} (o : Option A) (over : Bool)
    → o ≡ none
    → over ≡ false
    → (is_some o || over) ≡ true
    → ⊥
idle o over h k w = ground (arith, ap is_some h, k, w)

module _ {S : Type 0} (tasks : List (S → Bool)) (finished : S → Bool) (num_worker : ℕ)
    (initial : S) where
  -- There is something to do for a worker.
  abbrev pub has_work : S → Bool
  has_work s = is_some (select_task tasks finished s) || finished s

  abbrev pub counted : Monitor S → ℕ
  counted m = m.waiting + m.awake + m.outside + m.ended + inside m.holder

  -- Outside of the critical sections the next task is the first that is ready; and if there is
  -- something to do while the mutex is free, a worker is awake or none is waiting.
  record IsAlert (m : Monitor S) : Type 0 where
    workers : counted m ≡ num_worker
    selected :
        (m.holder ≡ free) ⊎ (m.holder ≡ in_loop) → m.next_task ≡ select_task tasks finished m.shared
    awoken : m.holder ≡ free → has_work m.shared ≡ true → (0 < m.awake) ⊎ (m.waiting ≡ 0)

  start-IsAlert : IsAlert (start tasks finished num_worker initial)
  unfolding start
  start-IsAlert = record { workers = omega arith; selected = λ h. refl; awoken = λ h w. inr refl }

  sched_unlock-IsAlert :
      (m : Monitor S)
      → m.waiting + m.awake + m.outside + m.ended ≡ num_worker
      → IsAlert (sched_unlock tasks finished m)
  unfolding sched_unlock signal
  sched_unlock-IsAlert m h = elim (Bool-cases (has_work m.shared)) [
    | inr idle ↦ rw idle (record {
      workers = omega (arith, h);
      selected = λ k. refl;
      awoken = λ k w. absurd (cc (idle, w));
    })
    | inl busy ↦ rw busy (elim (Bool-cases (m.waiting == 0)) [
      | inl none_wait ↦ rw none_wait (record {
        workers = omega (arith, h);
        selected = λ k. refl;
        awoken = λ k w. inr (==→eq m.waiting 0 none_wait);
      })
      | inr some_wait ↦ rw some_wait (record {
        workers = ground (arith, h);
        selected = λ k. refl;
        awoken = λ k w. inl (omega arith);
      })
    ])
  ]

  -- in the midst of a critical section
  busy-IsAlert :
      (m : Monitor S)
      → (m.holder ≡ in_task) ⊎ (m.holder ≡ in_callback)
      → counted m ≡ num_worker
      → IsAlert m
  busy-IsAlert m (inl h) n = record {
    workers = n;
    selected = λ k. absurd (elim k [ inl f ↦ cc (h, f) | inr f ↦ cc (h, f) ]);
    awoken = λ f w. absurd (cc (h, f));
  }
  busy-IsAlert m (inr h) n = record {
    workers = n;
    selected = λ k. absurd (elim k [ inl f ↦ cc (h, f) | inr f ↦ cc (h, f) ]);
    awoken = λ f w. absurd (cc (h, f));
  }

  Step-IsAlert :
      (m t : Monitor S) → Step tasks finished num_worker initial m t → IsAlert m → IsAlert t
  unfolding next_round stall end_worker broadcast
  Step-IsAlert m t (takes_mutex h some_awake e) i = subst IsAlert (sym e) (record {
    workers = omega (arith, i.workers, ap inside h);
    selected = λ k. i.selected (inl h);
    awoken = λ f w. absurd (cc (f));
  })
  Step-IsAlert m t (runs_task k h next e) i =
      subst IsAlert (sym e) (busy-IsAlert _ (inl refl) (omega (arith, i.workers, ap inside h)))
  Step-IsAlert m t (changes s h e) i = subst IsAlert (sym e) (busy-IsAlert _ h i.workers)
  Step-IsAlert m t (leaves h e) i =
      subst IsAlert (sym e) (sched_unlock-IsAlert _ (omega (arith, i.workers, ap inside h)))
  Step-IsAlert m t (comes_back h some_outside e) i =
      subst IsAlert (sym e) (busy-IsAlert _ (inl refl) (omega (arith, i.workers, ap inside h)))
  Step-IsAlert m t (ends_task h e) i = subst IsAlert (sym e) (record {
    workers = omega (arith, i.workers, ap inside h);
    selected = λ k. refl;
    awoken = λ f w. absurd (cc (f));
  })
  Step-IsAlert m t (calls h e) i =
      subst IsAlert (sym e) (busy-IsAlert _ (inr refl) (omega (arith, i.workers, ap inside h)))
  Step-IsAlert m t (ends_call h e) i =
      subst IsAlert (sym e) (sched_unlock-IsAlert m (omega (arith, i.workers, ap inside h)))
  Step-IsAlert m t (stalls h none_ready unfinished e) i = subst IsAlert (sym e) (record {
    workers = omega (arith, i.workers, ap inside h);
    selected = λ k. i.selected (inr h);
    awoken = λ f w. absurd (
        idle (select_task tasks finished m.shared) (finished m.shared)
          (sym (i.selected (inr h)) ∙ none_ready) unfinished w);
  })
  Step-IsAlert m t (ends h none_ready over e) i = subst IsAlert (sym e) (record {
    workers = omega (arith, i.workers, ap inside h);
    selected = λ k. i.selected (inr h);
    awoken = λ f w. inr refl;
  })
  Step-IsAlert m t (wakes some_wait e) i = subst IsAlert (sym e) (record {
    workers = omega (arith, i.workers);
    selected = i.selected;
    awoken = λ f w. inl (omega arith);
  })

  Reach-IsAlert : (m : Monitor S) → Reach tasks finished num_worker initial m → IsAlert m
  Reach-IsAlert m begins = start-IsAlert
  Reach-IsAlert m (goes_on {m = r} reach st) = Step-IsAlert r m st (Reach-IsAlert r reach)

  -- No wake-up is lost: in a reachable state in which the mutex is free, the next task is the first
  -- that is ready; and if there is one, or the process is finished, then a worker is about to take the
  -- mutex, or one is in a task outside of the mutex, from which it comes back, or all have ended.
  pub Reach-has_work :
      (m : Monitor S)
      → Reach tasks finished num_worker initial m
      → m.holder ≡ free
      → (m.next_task ≡ select_task tasks finished m.shared)
        × (has_work m.shared ≡ true → ((0 < m.awake) ⊎ (0 < m.outside)) ⊎ (m.ended ≡ num_worker))
  Reach-has_work m r h =
      let i = Reach-IsAlert m r in
      (
        i.selected (inl h),
        λ busy. elim (i.awoken h busy) [
          | inl up ↦ inl (inl up)
          | inr none_wait ↦ elim (zero_or_more m.awake) [
            | inr up ↦ inl (inl up)
            | inl none_awake ↦ elim (zero_or_more m.outside) [
              | inr out ↦ inl (inr out)
              | inl none_out ↦
                  inr (omega (arith, i.workers, none_wait, none_awake, none_out, ap inside h))
            ]
          ]
        ],
      )
