-- ===== src/Thread/Tests.antt =====
-- threads/thread.c and userprog/process.c at three threads: a parent, its child and the idle thread.
use turbo_baker.Prelude.{ℕ, ◌≡◌, refl, ◌⊎◌, false, some, List, [], ◌∷◌, arith, ◌==◌, if◌then◌else◌}
use turbo_baker.Thread.{
  Status, running, ready, blocked, Thread, Kernel, thread_magic, thread_exit, erase, get_thread,
  find_tid, tid_error,
}
use turbo_baker.Thread.Inv.{Inv}
use turbo_baker.Thread.Exit.{unlisted, HandedOver, thread_exit-HandedOver}
use turbo_baker.Thread.RoundRobin.{yields, get_elem?, yields-served}
use turbo_baker.Thread.Wait.{
  looking, waiting, returned, wait_steps, Waiting, Refused, process_wait_lem,
}

-- The parent at page 1, the idle thread at 2 and the child at 3; their tids are the same.
abbrev thread_at : (tid waiter : ℕ) → Status → Thread
thread_at tid waiter st = record {
  tid = tid;
  status = st;
  priority = 31;
  wait_called = false;
  waiting_thread = waiter;
  child_exit_status = 0;
  exit_status = 7;
  magic = thread_magic;
}

abbrev family : (parent child : Status) (waiter current : ℕ) → List ℕ → Kernel
family parent child waiter current ready_list = record {
  thread = λ t.
      if t == 1
      then thread_at 1 0 parent
      else if t == 3
      then thread_at 3 waiter child
      else thread_at 2 0 blocked;
  all_list = 1 ∷ 2 ∷ 3 ∷ [];
  ready_list = ready_list;
  current = current;
  idle_thread = 2;
  initial_thread = 1;
  next_tid = 4;
  thread_ticks = 0;
}

-- The parent runs, and the child is ready.
abbrev parent_runs : Kernel
parent_runs = family running ready 0 1 (3 ∷ [])

parent_runs-Inv : Inv parent_runs
parent_runs-Inv = record {
  one_running = λ t. ground (arith);
  ready_once = λ t. ground (arith);
  ready_thread = λ t e. ground (arith, e);
  current_thread = refl;
  idle_is_thread = refl;
  idle_alive = refl;
}

-- The child runs, and the parent waits for it.
abbrev child_runs : Kernel
child_runs = family blocked running 1 3 []

child_runs-Inv : Inv child_runs
child_runs-Inv = record {
  one_running = λ t. ground (arith);
  ready_once = λ t. ground (arith);
  ready_thread = λ t e. ground (arith, e);
  current_thread = refl;
  idle_is_thread = refl;
  idle_alive = refl;
}

parent_found : get_thread (unlisted child_runs) 1 ≡ some 1
unfolding get_thread find_tid unlisted erase
parent_found = refl

thread_exit-HandedOver_example :
    (k' : Kernel) × (thread_exit child_runs ≡ some k') × HandedOver child_runs 1 k'
thread_exit-HandedOver_example =
    thread_exit-HandedOver child_runs-Inv 1 parent_found refl refl refl refl (omega arith)

yields-served_example : (k' : Kernel) × (yields 1 parent_runs ≡ some k') × (k'.current ≡ 3) × Inv k'
yields-served_example = yields-served 0 parent_runs-Inv 3 (unfold get_elem? in refl)

process_wait_lem_example :
    ((wait_steps 5 3 looking parent_runs ≡ some (returned tid_error, parent_runs))
      × Refused parent_runs 3)
    ⊎ ((k' : Kernel) × (wait_steps 5 3 looking parent_runs ≡ some (waiting, k'))
        × Waiting parent_runs 3 k')
process_wait_lem_example = process_wait_lem parent_runs-Inv 3
