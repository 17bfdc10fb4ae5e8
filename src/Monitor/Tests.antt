-- ===== src/Monitor/Tests.antt =====
-- src/process.c: two workers without anything to do, and a block that arrives.
use lbzip.Shared.{ℕ, ◌<◌, ◌≡◌, ◌==◌, refl, List, [], ◌∷◌, Bool, true, ltb, inr, ◌⊎◌, arith}
use lbzip.Monitor.{Monitor, free, in_loop, in_callback, select_task, sched_unlock, stall, start}
use lbzip.Monitor.Steps.{takes_mutex, changes, calls, ends_call, stalls, Reach, begins, goes_on}
use lbzip.Monitor.Alert.{has_work, Reach-has_work}

-- a task is ready if there is a block, and the end is the ninth
abbrev tasks : List (ℕ → Bool)
tasks = (λ n. ltb 0 n) ∷ []

abbrev finished : ℕ → Bool
finished n = n == 9

abbrev m0 : Monitor ℕ
m0 = start tasks finished 2 0

abbrev m1 : Monitor ℕ
m1 = stall tasks finished (record m0 { holder = in_loop; awake = 1 })

abbrev m2 : Monitor ℕ
m2 = stall tasks finished (record m1 { holder = in_loop; awake = 0 })

both_wait : Reach tasks finished 2 0 m2
unfolding start stall select_task
both_wait =
    goes_on
      (goes_on
        (goes_on (goes_on begins (takes_mutex refl (omega arith) refl))
          (stalls refl refl refl refl))
        (takes_mutex refl (omega arith) refl))
      (stalls refl refl refl refl)

abbrev m3 : Monitor ℕ
m3 = sched_unlock tasks finished (record m2 { holder = in_callback; shared = 1 })

block_arrives : Reach tasks finished 2 0 m3
unfolding start stall select_task
block_arrives =
    goes_on (goes_on (goes_on both_wait (calls refl refl)) (changes 1 (inr refl) refl))
      (ends_call refl refl)

one_wakes : m3.awake ≡ 1
unfolding sched_unlock start stall select_task
one_wakes = refl

m3_free : m3.holder ≡ free
unfolding sched_unlock start stall select_task
m3_free = refl

Reach-has_work_example :
    (m3.next_task ≡ select_task tasks finished m3.shared)
    × (has_work tasks finished 2 0 m3.shared ≡ true
        → ((0 < m3.awake) ⊎ (0 < m3.outside)) ⊎ (m3.ended ≡ 2))
Reach-has_work_example = Reach-has_work tasks finished 2 0 m3 block_arrives m3_free
