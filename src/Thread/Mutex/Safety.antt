-- ===== src/Thread/Mutex/Safety.antt =====
-- At most one thread is behind `pthread_mutex_lock`, and a waiting thread can get there.
use sn.Base.{
  ◌≡◌, ◌≢◌, refl, sym, ◌∙◌, inl, inr, ℕ, true, false, Bool-cases, ==_iff, ◌==◌, subst, arith,
}
use sn.Thread.Mutex.{
  Place, outside, spinning, inside, State, moved, arm_swap, enter_lock, try_lock, unlock, Step,
  enters, tries, leaves, Reach, start, next,
}

moved_here : (i : ℕ) (p : Place) (places : ℕ → Place) → moved i p places i ≡ p
moved_here i p places = let e : (i == i) ≡ true = (==_iff i i).1 refl in rw e refl

moved_there :
    (i j : ℕ) (p : Place) (places : ℕ → Place) → (j == i) ≡ false → moved i p places j ≡ places j
moved_there i j p places e = rw e refl

-- A thread that is inside after a move, and did not move inside, was inside before and is another.
still_inside :
    (i j : ℕ) (p : Place) (places : ℕ → Place)
    → p ≢ inside
    → moved i p places j ≡ inside
    → ((j == i) ≡ false) × (places j ≡ inside)
still_inside i j p places out h = elim (Bool-cases (j == i)) [
  | inl e ↦
      let same : j ≡ i = (==_iff j i).0 e in
      absurd (out (sym (moved_here i p places) ∙ subst (λ k. moved i p places k ≡ inside) same h))
  | inr e ↦ (e, sym (moved_there i j p places e) ∙ h)
]

-- A thread that is inside stays there when another moves.
kept_inside :
    (i j : ℕ) (p : Place) (places : ℕ → Place)
    → places i ≢ inside
    → places j ≡ inside
    → moved i p places j ≡ inside
kept_inside i j p places out h = elim (Bool-cases (j == i)) [
  | inl e ↦ absurd (out (subst (λ k. places k ≡ inside) ((==_iff j i).0 e) h))
  | inr e ↦ moved_there i j p places e ∙ h
]

-- Who has the lock: nobody, or one thread.
data Owner (s : State) : Type 0 where
  nobody : s.lock ≡ 0 → ((j : ℕ) → s.places j ≢ inside) → Owner s
  held :
      (k : ℕ) → s.lock ≡ 1 → s.places k ≡ inside → ((j : ℕ) → s.places j ≡ inside → j ≡ k) → Owner s

-- A move of a thread that is not inside and does not get there, with the lock as it was.
idle-Owner :
    (i lock : ℕ) (p : Place) (s : State)
    → s.places i ≢ inside
    → p ≢ inside
    → lock ≡ s.lock
    → Owner s
    → Owner (record { lock = lock; places = moved i p s.places })
idle-Owner i lock p s out out' e (nobody free none_in) =
    nobody (e ∙ free) (λ j h. none_in j (still_inside i j p s.places out' h).1)
idle-Owner i lock p s out out' e (held k one here only) =
    held k (e ∙ one) (kept_inside i k p s.places out here)
      (λ j h. only j (still_inside i j p s.places out' h).1)

spinning-out : spinning ≢ inside
spinning-out h = absurd (cc h)

outside-out : outside ≢ inside
outside-out h = absurd (cc h)

enter_lock-Owner : (i : ℕ) (s : State) → s.places i ≡ outside → Owner s → Owner (enter_lock i s)
unfolding enter_lock
enter_lock-Owner i s here owner =
    idle-Owner i s.lock spinning s (λ h. outside-out (sym here ∙ h)) spinning-out refl owner

-- The thread that finds the lock free gets it.
got-Owner :
    (i : ℕ) (s : State)
    → ((j : ℕ) → s.places j ≢ inside)
    → Owner (record { lock = 1; places = moved i inside s.places })
got-Owner i s none_in = held i refl (moved_here i inside s.places) (λ j h.
    elim (Bool-cases (j == i)) [
      | inl e ↦ (==_iff j i).0 e
      | inr e ↦ absurd (none_in j (sym (moved_there i j inside s.places e) ∙ h))
    ])

try_lock-Owner : (i : ℕ) (s : State) → s.places i ≡ spinning → Owner s → Owner (try_lock i s)
unfolding try_lock arm_swap
try_lock-Owner i s here (nobody free none_in) =
    let z : (s.lock == 0) ≡ true = (==_iff s.lock 0).1 free in rw z (got-Owner i s none_in)
try_lock-Owner i s here (held k one there only) =
    let z : (s.lock == 0) ≡ false = ground arith in
    rw z (
      idle-Owner i 1 spinning s (λ h. spinning-out (sym here ∙ h)) spinning-out (sym one)
        (held k one there only))

unlock-Owner : (i : ℕ) (s : State) → s.places i ≡ inside → Owner s → Owner (unlock i s)
unfolding unlock
unlock-Owner i s here (nobody free none_in) = absurd (none_in i here)
unlock-Owner i s here (held k one there only) = nobody refl (λ j h.
    let (other, was) = still_inside i j outside s.places outside-out h in
    let same : j ≡ i = only j was ∙ sym (only i here) in absurd (cc (other, (==_iff j i).1 same)))

Step-Owner : (i : ℕ) (s t : State) → Step i s t → Owner s → Owner t
Step-Owner i s t (enters here) owner = enter_lock-Owner i s here owner
Step-Owner i s t (tries here) owner = try_lock-Owner i s here owner
Step-Owner i s t (leaves here) owner = unlock-Owner i s here owner

Reach-Owner : (s : State) → Reach s → Owner s
Reach-Owner s start = nobody refl (λ j. outside-out)
Reach-Owner t (next {i} {s} reach step) = Step-Owner i s t step (Reach-Owner s reach)

two_inside : (s : State) (i j : ℕ) → Owner s → s.places i ≡ inside → s.places j ≡ inside → i ≡ j
two_inside s i j (nobody free none_in) h k = absurd (none_in i h)
two_inside s i j (held o one there only) h k = only i h ∙ sym (only j k)

-- In every state that an interleaving of any number of threads reaches, while one thread is behind
-- `pthread_mutex_lock`, no other one is.
pub Reach-exclusive :
    (s : State) (i j : ℕ) → Reach s → i ≢ j → s.places i ≡ inside → s.places j ≢ inside
Reach-exclusive s i j reach other h k = other (two_inside s i j (Reach-Owner s reach) h k)

-- What follows one step after another.
pub data Later : State → State → Type 0 where
  now : {s : State} → Later s s
  then_step : {i : ℕ} {s t u : State} → Step i s t → Later t u → Later s u

try_free : (i : ℕ) (s : State) → s.lock ≡ 0 → (try_lock i s).places i ≡ inside
unfolding try_lock arm_swap
try_free i s free =
    let z : (s.lock == 0) ≡ true = (==_iff s.lock 0).1 free in rw z (moved_here i inside s.places)

gets_in :
    (s : State) (i : ℕ)
    → Owner s
    → s.places i ≡ spinning
    → (t : State) × Later s t × (t.places i ≡ inside)
gets_in s i (nobody free none_in) here =
    (try_lock i s, then_step (tries here) now, try_free i s free)
gets_in s i (held k one there only) here =
    let other : (i == k) ≡ false = not_same i k s here there in
    let waits : (unlock k s).places i ≡ spinning =
      (unfold unlock in moved_there k i outside s.places other ∙ here) in
    let free : (unlock k s).lock ≡ 0 = (unfold unlock in refl) in
    (
      try_lock i (unlock k s),
      then_step (leaves there) (then_step (tries waits) now),
      try_free i (unlock k s) free,
    )
  where
    not_same :
        (i k : ℕ) (s : State) → s.places i ≡ spinning → s.places k ≡ inside → (i == k) ≡ false
    not_same i k s here there = elim (Bool-cases (i == k)) [
      | inl e ↦ absurd (
          spinning-out (sym here ∙ subst (λ n. s.places n ≡ inside) (sym ((==_iff i k).0 e)) there))
      | inr e ↦ e
    ]

-- In every state that an interleaving reaches, a thread that waits in `pthread_mutex_lock` can get
-- behind it: there is a continuation, of the owner's unlock at most and one test of the loop, after
-- which it is inside.
pub Reach-progress :
    (s : State) (i : ℕ)
    → Reach s
    → s.places i ≡ spinning
    → (t : State) × Later s t × (t.places i ≡ inside)
Reach-progress s i reach here = gets_in s i (Reach-Owner s reach) here
