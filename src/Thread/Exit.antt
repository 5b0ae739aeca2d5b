-- ===== src/Thread/Exit.antt =====
-- threads/thread.c and userprog/process.c: a thread that exits, and the hand-over of its exit status
-- to the thread that waits for it.
use turbo_baker.Prelude.{
  ℕ, ◌-◌, ◌≡◌, refl, sym, ◌∙◌, subst, ◌≢◌, ◌⊎◌, inl, inr, true, false, ◌&&◌, some, List, [], ◌∷◌,
  arith, ltb, ◌==◌, if◌then◌else◌, ==→eq, ne→==, ==_refl, Bool-cases, true_ne_false, count,
}
use turbo_baker.Thread.{
  ready, blocked, Kernel, is_thread, is_ready, is_blocked, is_dying, status, set_thread,
  thread_unblock, thread_exit, get_thread, wake_waiter, erase,
}
use turbo_baker.Thread.Inv.{Inv, Switched, schedule-Switched}
use turbo_baker.Thread.Steps.{exiting, exit-Leaving, unblocked, unblocked-Inv}

-- Two kernels between which the scheduler sees no difference.
pub record SameSchedule (k k' : Kernel) : Type 0 where
  pub statuses : (t : ℕ) → status k' t ≡ status k t
  pub magics : (t : ℕ) → (k'.thread t).magic ≡ (k.thread t).magic
  pub readies : k'.ready_list ≡ k.ready_list
  pub currents : k'.current ≡ k.current
  pub idles : k'.idle_thread ≡ k.idle_thread

same-is_thread : {k k' : Kernel} → SameSchedule k k' → (t : ℕ) → is_thread k' t ≡ is_thread k t
same-is_thread s t = rw (s.magics t) refl

pub same-Inv : {k k' : Kernel} → SameSchedule k k' → Inv k → Inv k'
same-Inv {k} {k'} s v = record {
  one_running = λ t. rw (s.statuses t) rw s.currents (v.one_running t);
  ready_once = λ t. rw (s.statuses t) rw s.readies rw s.idles (v.ready_once t);
  ready_thread = λ t e.
      rw (same-is_thread s t) (v.ready_thread t (subst (λ x. is_ready x ≡ true) (s.statuses t) e));
  current_thread = rw s.currents rw (same-is_thread s k.current) v.current_thread;
  idle_is_thread = rw s.idles rw (same-is_thread s k.idle_thread) v.idle_is_thread;
  idle_alive = rw s.idles rw (s.statuses k.idle_thread) v.idle_alive;
}

count-erase :
    (t c : ℕ) (xs : List ℕ)
    → count t (erase c xs) ≡ count t xs - (if t == c && ltb 0 (count c xs) then 1 else 0)
unfolding erase
count-erase t c [] = omega arith
count-erase t c (x ∷ xs) = ground (arith, count-erase t c xs)

unfoldable pub unlisted : Kernel → Kernel
unlisted k = record k { all_list = erase k.current k.all_list }

unlisted-SameSchedule : (k : Kernel) → SameSchedule k (unlisted k)
unfolding unlisted
unlisted-SameSchedule k = record {
  statuses = λ t. refl;
  magics = λ t. refl;
  readies = refl;
  currents = refl;
  idles = refl;
}

-- What holds of a thread that has exited: it is off the list of all threads and never runs again
-- by itself, and the scheduler goes on.
pub record Exited (k k' : Kernel) : Type 0 where
  pub inv : Inv k'
  pub switched : k'.current ≢ k.current
  pub dead : is_dying (status k' k.current) ≡ true
  pub listed :
      (t : ℕ)
      → count t k'.all_list
        ≡ count t k.all_list - (if t == k.current && ltb 0 (count t k.all_list) then 1 else 0)

Exited-of :
    (k k₂ : Kernel) {k' : Kernel}
    → k₂.current ≡ k.current
    → k₂.all_list ≡ erase k.current k.all_list
    → Switched (exiting k₂) k'
    → Exited k k'
unfolding exiting
Exited-of k k₂ {k'} c l s =
    let changed : (k.current == k'.current) ≡ false = ground (arith, s.alive, c) in
    record {
      inv = s.inv;
      switched = λ e.
          true_ne_false (sym (==_refl k.current) ∙ subst (λ x. (k.current == x) ≡ false) e changed);
      dead = rw (s.others k.current changed) (ground (arith, c));
      listed = λ t. rw s.all rw l (ground (arith, count-erase t k.current k.all_list));
    }

-- In a well-formed kernel thread_exit() of a thread that is not the idle thread and that none
-- waits for succeeds: another thread runs, the thread is dying and off the list of all threads,
-- which else is as it was, and the kernel is well formed.
pub thread_exit-Exited :
    {k : Kernel}
    → Inv k
    → (k.current == k.idle_thread) ≡ false
    → (k.thread k.current).waiting_thread ≡ 0
    → (k' : Kernel) × (thread_exit k ≡ some k') × Exited k k'
unfolding thread_exit unlisted exiting
thread_exit-Exited {k} v ne none_waits =
    let (k', e, s) = schedule-Switched (exit-Leaving (same-Inv (unlisted-SameSchedule k) v) ne) in
    (k', rw none_waits e, Exited-of k (unlisted k) refl refl s)

-- The waiter is ready or running, and has the exit status.
pub record HandedOver (k : Kernel) (w : ℕ) (k' : Kernel) : Type 0 where
  pub exited : Exited k k'
  pub result : (k'.thread w).child_exit_status ≡ (k.thread k.current).exit_status
  pub awake : (k'.current ≡ w) ⊎ (status k' w ≡ ready)

readied : Kernel → (w : ℕ) → Kernel
readied k w = unblocked (unlisted k) w

woken : Kernel → (w : ℕ) → Kernel
unfolding readied
woken k w = set_thread (readied k w) w (record ((readied k w).thread w) {
  child_exit_status = ((readied k w).thread k.current).exit_status;
})

woken-SameSchedule : (k : Kernel) (w : ℕ) → SameSchedule (readied k w) (woken k w)
unfolding woken readied unblocked unlisted
woken-SameSchedule k w = record {
  statuses = λ t. ground (arith);
  magics = λ t. ground (arith);
  readies = refl;
  currents = refl;
  idles = refl;
}

woken-result :
    (k : Kernel) (w : ℕ)
    → ((exiting (woken k w)).thread w).child_exit_status ≡ (k.thread k.current).exit_status
unfolding woken readied unblocked unlisted exiting
woken-result k w = ground (arith)

woken-awake :
    (k : Kernel) (w : ℕ) → (k.current == w) ≡ false → status (exiting (woken k w)) w ≡ ready
unfolding woken readied unblocked unlisted exiting
woken-awake k w ne = ground (arith, ne)

module _ {k : Kernel} (v : Inv k) (w : ℕ)
    (found : get_thread (unlisted k) (k.thread k.current).waiting_thread ≡ some w)
    (thread : is_thread k w ≡ true) (b : status k w ≡ blocked)
    (ne : (w == k.idle_thread) ≡ false) where
  wake_waiter_lem : wake_waiter (unlisted k) k.current ≡ some (woken k w)
  unfolding wake_waiter woken readied unblocked unlisted thread_unblock
  wake_waiter_lem =
      let b' : is_blocked (status k w) ≡ true = rw b refl in rw found rw thread rw b' refl

  woken-Inv : Inv (woken k w)
  unfolding readied unlisted
  woken-Inv =
      same-Inv (woken-SameSchedule k w)
        (unblocked-Inv (same-Inv (unlisted-SameSchedule k) v) w thread b ne)

  -- In a well-formed kernel thread_exit() of a thread that is not the idle thread and has a waiter
  -- `w`, a blocked thread on the list of all threads that is not the idle thread, succeeds as
  -- without a waiter, and moreover `w` then holds the exit status of the thread as its
  -- child_exit_status, and is ready or runs.
  pub thread_exit-HandedOver :
      (k.current == k.idle_thread) ≡ false
      → (k.thread k.current).waiting_thread ≢ 0
      → (k' : Kernel) × (thread_exit k ≡ some k') × HandedOver k w k'
  unfolding thread_exit exiting unlisted woken readied unblocked
  thread_exit-HandedOver alive waits =
      let (k', e, s) = schedule-Switched (exit-Leaving woken-Inv alive) in
      let running_or : (k'.current ≡ w) ⊎ (status k' w ≡ ready) =
        elim (Bool-cases (w == k'.current)) [
          | inl here ↦ inl (sym (==→eq w k'.current here))
          | inr away ↦ inr (s.others w away ∙ woken-awake k w (ground (arith, b, v.one_running w)))
        ] in
      (
        k',
        rw (ne→== (k.thread k.current).waiting_thread 0 waits) rw wake_waiter_lem e,
        record {
          exited = Exited-of k (woken k w) refl refl s;
          result = s.results w ∙ woken-result k w;
          awake = running_or;
        },
      )
