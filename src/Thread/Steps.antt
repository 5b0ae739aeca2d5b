-- ===== src/Thread/Steps.antt =====
-- threads/thread.c: what the operations that switch threads do to the scheduler's state.
use turbo_baker.Prelude.{
  ℕ, ◌≡◌, true, false, not, some, List, [], ◌∷◌, ◌++◌, arith, ◌==◌, if◌then◌else◌, count-append,
}
use turbo_baker.Thread.{
  ready, blocked, dying, Kernel, is_thread, status, set_status, thread_unblock, thread_block,
  thread_yield,
}
use turbo_baker.Thread.Inv.{Inv, Leaving, Switched, schedule-Switched}

pub block-Leaving : {k : Kernel} → Inv k → Leaving (set_status k k.current blocked)
block-Leaving {k} v = record {
  none_running = λ t. ground (arith, v.one_running t);
  ready_once = λ t. ground (arith, v.ready_once t, v.one_running t);
  ready_thread = λ t e. ground (arith, v.ready_thread t, v.ready_thread k.current, e);
  idle_is_thread = ground (arith, v.idle_is_thread);
  idle_alive = ground (arith, v.idle_alive);
}

unfoldable pub requeue : Kernel → List ℕ
requeue k =
    if not (k.current == k.idle_thread) then k.ready_list ++ (k.current ∷ []) else k.ready_list

unfoldable pub yielding : Kernel → Kernel
unfolding requeue
yielding k = record (set_status k k.current ready) { ready_list = requeue k }

pub yield-Leaving : {k : Kernel} → Inv k → Leaving (yielding k)
unfolding yielding requeue
yield-Leaving {k} v = record {
  none_running = λ t. ground (arith, v.one_running t);
  ready_once = λ t.
      ground (arith, v.ready_once t, v.one_running t, count-append t k.ready_list (k.current ∷ []));
  ready_thread = λ t e. ground (arith, v.ready_thread t, v.current_thread, e);
  idle_is_thread = ground (arith, v.idle_is_thread);
  idle_alive = ground (arith, v.idle_alive);
}

unfoldable pub exiting : Kernel → Kernel
exiting k = set_status k k.current dying

pub exit-Leaving : {k : Kernel} → Inv k → (k.current == k.idle_thread) ≡ false → Leaving (exiting k)
unfolding exiting
exit-Leaving {k} v ne = record {
  none_running = λ t. ground (arith, v.one_running t);
  ready_once = λ t. ground (arith, v.ready_once t, v.one_running t);
  ready_thread = λ t e. ground (arith, v.ready_thread t, v.ready_thread k.current, e);
  idle_is_thread = ground (arith, v.idle_is_thread);
  idle_alive = ground (arith, v.idle_alive, ne);
}

-- In a well-formed kernel thread_block() passes the assertions of schedule(): the current thread
-- is blocked, the head of the ready list (or the idle thread, if the list is empty) runs, no other
-- thread changes its status, and the kernel is well formed again.
pub thread_block-Switched :
    {k : Kernel}
    → Inv k
    → (k' : Kernel) × (thread_block k ≡ some k') × Switched (set_status k k.current blocked) k'
unfolding thread_block
thread_block-Switched v = schedule-Switched (block-Leaving v)

-- In a well-formed kernel thread_yield() passes the assertions of schedule(): the current thread
-- is put behind the ready list unless it is the idle thread, the head of that list runs, and the
-- kernel is well formed again.
pub thread_yield-Switched :
    {k : Kernel} → Inv k → (k' : Kernel) × (thread_yield k ≡ some k') × Switched (yielding k) k'
unfolding thread_yield yielding requeue
thread_yield-Switched v = schedule-Switched (yield-Leaving v)

unfoldable pub unblocked : Kernel → ℕ → Kernel
unblocked k t = record (set_status k t ready) { ready_list = k.ready_list ++ (t ∷ []) }

pub unblocked-Inv :
    {k : Kernel}
    → Inv k
    → (t : ℕ) → is_thread k t ≡ true
    → status k t ≡ blocked
    → (t == k.idle_thread) ≡ false
    → Inv (unblocked k t)
unfolding unblocked
unblocked-Inv {k} v t thread b ne = record {
  one_running = λ u. ground (arith, v.one_running u, b);
  ready_once = λ u.
      ground (arith, v.ready_once u, v.one_running u, b, ne, count-append u k.ready_list (t ∷ []));
  ready_thread = λ u e. ground (arith, v.ready_thread u, thread, e);
  current_thread = ground (arith, v.current_thread);
  idle_is_thread = ground (arith, v.idle_is_thread);
  idle_alive = ground (arith, v.idle_alive);
}

-- In a well-formed kernel thread_unblock() of a blocked thread other than the idle thread
-- succeeds: it makes that thread ready, puts it behind the ready list, and keeps the kernel well
-- formed.
pub thread_unblock-Inv :
    {k : Kernel}
    → Inv k
    → (t : ℕ) → is_thread k t ≡ true
    → status k t ≡ blocked
    → (t == k.idle_thread) ≡ false
    → (thread_unblock k t ≡ some (unblocked k t)) × Inv (unblocked k t)
unfolding thread_unblock unblocked
thread_unblock-Inv v t thread b ne = (ground (arith, thread, b), unblocked-Inv v t thread b ne)
