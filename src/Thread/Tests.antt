-- ===== src/Thread/Tests.antt =====
-- Runs of the allocator and the mutex, and the theorems about them at concrete data.
use sn.Base.{◌≡◌, ◌≢◌, refl, ◌∷◌, [], some, none, pos, arith}
use sn.Thread.{malloc, pthread_create}
use sn.Thread.Heap.{mallocs, InOrder, mallocs-InOrder}
use sn.Thread.Mutex.{
  inside, State, initial, enter_lock, try_lock, arm_swap, Step, Reach, start, next, enters, tries,
}
use sn.Thread.Mutex.Safety.{Later, Reach-exclusive, Reach-progress}

-- A fifth thread has no stack.
no_fifth_stack : pthread_create (pos 9) 32768 ≡ (pos 12, none, 32768)
unfolding pthread_create malloc
no_fifth_stack = refl

-- A huge size wraps around: the block has the offset 8, and the heap counts as empty after it.
wraps : malloc 0xFFFFFFF8 8 ≡ (some 8, 0)
unfolding malloc
wraps = refl

mallocs-InOrder_example : InOrder 0 (mallocs (8192 ∷ 100 ∷ 40000 ∷ 5 ∷ []) 0).0
mallocs-InOrder_example =
    mallocs-InOrder (8192 ∷ 100 ∷ 40000 ∷ 5 ∷ [])
      (omega arith, (omega arith, (omega arith, (omega arith, tt))))

-- Thread 3 has the lock, and thread 4 waits for it.
abbrev contended : State
contended = enter_lock 4 (try_lock 3 (enter_lock 3 initial))

enters_3 : Step 3 initial (enter_lock 3 initial)
enters_3 = enters refl

tries_3 : Step 3 (enter_lock 3 initial) (try_lock 3 (enter_lock 3 initial))
unfolding enter_lock
tries_3 = tries refl

enters_4 : Step 4 (try_lock 3 (enter_lock 3 initial)) contended
unfolding enter_lock try_lock arm_swap
enters_4 = enters refl

contended-Reach : Reach contended
contended-Reach = next (next (next start enters_3) tries_3) enters_4

Reach-exclusive_example : contended.places 4 ≢ inside
unfolding enter_lock try_lock arm_swap
Reach-exclusive_example = Reach-exclusive contended 3 4 contended-Reach (λ h. omega (arith, h)) refl

Reach-progress_example : (t : State) × Later contended t × (t.places 4 ≡ inside)
unfolding enter_lock try_lock arm_swap
Reach-progress_example = Reach-progress contended 4 contended-Reach refl
