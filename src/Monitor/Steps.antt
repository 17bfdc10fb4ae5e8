-- ===== src/Monitor/Steps.antt =====
-- src/process.c: what the threads do in the monitor, in any order that the mutex allows.
use lbzip.Shared.{ℕ, suc, ◌-◌, ◌<◌, List, ◌≡◌, ◌⊎◌, Bool, true, false, none, some}
use lbzip.Monitor.{
  free, in_loop, in_task, in_callback, Monitor, sched_unlock, next_round, stall, end_worker, start,
}

module _ {S : Type 0} (tasks : List (S → Bool)) (finished : S → Bool) (num_worker : ℕ)
    (initial : S) where
  pub data Step (m t : Monitor S) : Type 0 where
    takes_mutex :
        m.holder ≡ free
        → 0 < m.awake
        → t ≡ record m { holder = in_loop; awake = m.awake - 1 }
        → Step m t
    runs_task :
        (k : ℕ)
        → m.holder ≡ in_loop
        → m.next_task ≡ some k
        → t ≡ record m { holder = in_task }
        → Step m t
    changes :
        (s : S)
        → (m.holder ≡ in_task) ⊎ (m.holder ≡ in_callback)
        → t ≡ record m { shared = s }
        → Step m t
    leaves :
        m.holder ≡ in_task
        → t ≡ sched_unlock tasks finished (record m { outside = suc m.outside })
        → Step m t
    comes_back :
        m.holder ≡ free
        → 0 < m.outside
        → t ≡ record m { holder = in_task; outside = m.outside - 1 }
        → Step m t
    ends_task : m.holder ≡ in_task → t ≡ next_round tasks finished m → Step m t
    calls : m.holder ≡ free → t ≡ record m { holder = in_callback } → Step m t
    ends_call : m.holder ≡ in_callback → t ≡ sched_unlock tasks finished m → Step m t
    stalls :
        m.holder ≡ in_loop
        → m.next_task ≡ none
        → finished m.shared ≡ false
        → t ≡ stall tasks finished m
        → Step m t
    ends :
        m.holder ≡ in_loop
        → m.next_task ≡ none
        → finished m.shared ≡ true
        → t ≡ end_worker tasks finished m
        → Step m t
    -- A wait may end without a signal.
    wakes : 0 < m.waiting → t ≡ record m { waiting = m.waiting - 1; awake = suc m.awake } → Step m t

  pub data Reach : Monitor S → Type 0 where
    begins : Reach (start tasks finished num_worker initial)
    goes_on : {m t : Monitor S} → Reach m → Step m t → Reach t
