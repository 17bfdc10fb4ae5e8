-- ===== src/Monitor.antt =====
-- src/process.c: the monitor of the scheduler: select_task(), worker_thread_proc(), sched_lock() and
-- sched_unlock(), with the mutex and the condition variable.
pub mod Steps
pub mod Alert
pub mod Tests
use lbzip.Shared.{
  ℕ, suc, ◌+◌, ◌-◌, ◌==◌, List, [], ◌∷◌, Bool, true, false, ◌||◌, Option, none, some, if◌then◌else◌,
}

-- Who has the mutex: no thread, a worker at the head of its loop, a worker in a task, or another
-- thread in a callback.
pub data Holder : Type 0 where
  free in_loop in_task in_callback : Holder

abbrev pub is_some {ℓ} : {A : Type ℓ} → Option A → Bool
is_some none = false
is_some (some a) = true

-- `shared` is what the process and the threads for input and output keep; the workers wait for the
-- condition, are about to take the mutex, are in a task without it, or have ended.
pub record Monitor (S : Type 0) : Type 0 where
  pub shared : S
  pub next_task : Option ℕ
  pub holder : Holder
  pub waiting : ℕ
  pub awake : ℕ
  pub outside : ℕ
  pub ended : ℕ

-- `ready` of the tasks in their order, and `finished` of the process
module _ {S : Type 0} (tasks : List (S → Bool)) (finished : S → Bool) where
  abbrev select_from : List (S → Bool) → ℕ → S → Option ℕ
  select_from [] n s = none
  select_from (ready ∷ ts) n s = if ready s then some n else select_from ts (suc n) s

  unfoldable pub select_task : S → Option ℕ
  select_task s = select_from tasks 0 s

  -- `xsignal(&sched_cond)` and `xbroadcast(&sched_cond)`
  unfoldable pub signal : Monitor S → Monitor S
  signal m = if m.waiting == 0 then m else record m { waiting = m.waiting - 1; awake = suc m.awake }

  unfoldable pub broadcast : Monitor S → Monitor S
  broadcast m = record m { waiting = 0; awake = m.awake + m.waiting }

  unfoldable pub sched_unlock : Monitor S → Monitor S
  unfolding signal
  sched_unlock m =
      let next = select_task m.shared in
      let m' = record m { next_task = next; holder = free } in
      if is_some next || finished m.shared then signal m' else m'

  -- the end of a task, and the two ends of a round of worker_thread_proc()
  unfoldable pub next_round : Monitor S → Monitor S
  next_round m = record m { next_task = select_task m.shared; holder = in_loop }

  unfoldable pub stall : Monitor S → Monitor S
  stall m = record m { holder = free; waiting = suc m.waiting }

  unfoldable pub end_worker : Monitor S → Monitor S
  unfolding broadcast
  end_worker m = record (broadcast m) { holder = free; ended = suc m.ended }

  unfoldable pub start : ℕ → S → Monitor S
  start num_worker s = record {
    shared = s;
    next_task = select_task s;
    holder = free;
    waiting = 0;
    awake = num_worker;
    outside = 0;
    ended = 0;
  }
