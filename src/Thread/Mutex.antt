-- ===== src/Thread/Mutex.antt =====
-- src/oabi/minithread.c: the mutex, for threads that the system interleaves. A step is one
-- instruction on the lock: `swp` is atomic.
pub mod Safety
use sn.Base.{ℕ, Bool, true, false, ◌==◌, ◌≡◌, if◌then◌else◌}

-- `arm_swap(&lock, val)`: the old value, and the new lock.
unfoldable pub arm_swap : ℕ → ℕ → ℕ × ℕ
arm_swap lock val = (lock, val)

-- `pthread_mutex_init` and `pthread_mutex_unlock`
abbrev pub unlocked : ℕ
unlocked = 0

-- Where a thread is: not in a call, in the loop of `pthread_mutex_lock`, or behind it.
pub data Place : Type 0 where
  outside spinning inside : Place

pub record State : Type 0 where
  pub lock : ℕ
  pub places : ℕ → Place

abbrev pub moved : ℕ → Place → (ℕ → Place) → ℕ → Place
moved i p places j = if j == i then p else places j

-- After `pthread_mutex_init`.
abbrev pub initial : State
initial = record { lock = unlocked; places = λ _. outside }

-- A call of `pthread_mutex_lock`.
unfoldable pub enter_lock : ℕ → State → State
enter_lock i s = record s { places = moved i spinning s.places }

-- One test of the loop: the thread goes on if the swap gave 0.
unfoldable pub try_lock : ℕ → State → State
try_lock i s =
    let (old, lock) = arm_swap s.lock 1 in
    record s { lock = lock; places = moved i (if old == 0 then inside else spinning) s.places }

-- `pthread_mutex_unlock`
unfoldable pub unlock : ℕ → State → State
unlock i s = record { lock = unlocked; places = moved i outside s.places }

-- One step of thread i. Only a thread that has the lock unlocks.
pub data Step : ℕ → State → State → Type 0 where
  enters : {i : ℕ} {s : State} → s.places i ≡ outside → Step i s (enter_lock i s)
  tries : {i : ℕ} {s : State} → s.places i ≡ spinning → Step i s (try_lock i s)
  leaves : {i : ℕ} {s : State} → s.places i ≡ inside → Step i s (unlock i s)

-- The states that some interleaving reaches.
pub data Reach : State → Type 0 where
  start : Reach initial
  next : {i : ℕ} {s t : State} → Reach s → Step i s t → Reach t
