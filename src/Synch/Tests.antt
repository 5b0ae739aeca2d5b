-- ===== src/Synch/Tests.antt =====
-- threads/synch.c at a lock that one thread has taken while a second one sleeps.
use turbo_baker.Prelude.{
  ℕ, ◌≡◌, refl, ◌≢◌, ◌⊎◌, true, false, none, some, [], ◌∷◌, ◌==◌, if◌then◌else◌,
}
use turbo_baker.Synch.{
  outside, downing, asleep, taken, acquire, System, step, step_at, enter, down, sema_down_turn,
  set_semaphore, lock_held_by_current_thread, lock_init, sema_init,
}
use turbo_baker.Synch.Exclusion.{initial, Reach, start, next, is_inside}
use turbo_baker.Synch.Safety.{mutual_exclusion, no_lost_wakeup, never_fails}

-- Thread 1 enters and takes the semaphore, then thread 2 enters and goes to sleep.
abbrev contended : System
contended = record {
  lock = record { holder = none; semaphore = record { value = 0; waiters = 2 ∷ [] } };
  place = λ u.
      if 2 == u
      then asleep
      else if 2 == u
      then downing
      else if 1 == u
      then taken
      else if 1 == u
      then downing
      else outside;
}

contended-Reach : Reach contended
unfolding initial lock_init sema_init step step_at enter down sema_down_turn set_semaphore
    lock_held_by_current_thread
contended-Reach =
    next (next (next (next start 1 acquire refl) 1 acquire refl) 2 acquire refl) 2 acquire refl

mutual_exclusion_example : is_inside (contended.place 2) ≡ false
mutual_exclusion_example = mutual_exclusion contended-Reach 1 2 refl refl

no_lost_wakeup_example :
    ((u : ℕ) × (is_inside (contended.place u) ≡ true)) ⊎ ((u : ℕ) × (contended.place u ≡ downing))
no_lost_wakeup_example = no_lost_wakeup contended-Reach 2 refl

awake : contended.place 1 ≢ asleep
awake e = cc

never_fails_example : (s' : System) × (step contended 1 acquire ≡ some s')
never_fails_example = never_fails contended-Reach 1 acquire awake
