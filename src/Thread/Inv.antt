-- ===== src/Thread/Inv.antt =====
-- threads/thread.c: the invariant of the scheduler between two steps, and the switch.
use turbo_baker.Prelude.{
  ℕ, ◌+◌, ◌≡◌, refl, sym, subst, Bool, true, false, not, ◌&&◌, none, some, List, [], ◌∷◌, arith,
  ◌==◌, if◌then◌else◌, true_ne_false, count,
}
use turbo_baker.Thread.{
  Status, running, ready, blocked, dying, Kernel, is_thread, is_running, is_ready, is_dying, status,
  next_thread_to_run, free_thread, thread_schedule_tail, schedule,
}

-- Exactly the current thread is running; the ready list holds each ready thread but the idle
-- thread once, and no other; what is ready, the current thread and the idle thread are threads.
pub record Inv (k : Kernel) : Type 0 where
  pub one_running : (t : ℕ) → is_running (status k t) ≡ (t == k.current)
  pub ready_once :
      (t : ℕ)
      → count t k.ready_list ≡ (if is_ready (status k t) && not (t == k.idle_thread) then 1 else 0)
  pub ready_thread : (t : ℕ) → is_ready (status k t) ≡ true → is_thread k t ≡ true
  pub current_thread : is_thread k k.current ≡ true
  pub idle_is_thread : is_thread k k.idle_thread ≡ true
  pub idle_alive : is_dying (status k k.idle_thread) ≡ false

-- The same when the current thread has given up the processor and none is running.
pub record Leaving (k : Kernel) : Type 0 where
  pub none_running : (t : ℕ) → is_running (status k t) ≡ false
  pub ready_once :
      (t : ℕ)
      → count t k.ready_list ≡ (if is_ready (status k t) && not (t == k.idle_thread) then 1 else 0)
  pub ready_thread : (t : ℕ) → is_ready (status k t) ≡ true → is_thread k t ≡ true
  pub idle_is_thread : is_thread k k.idle_thread ≡ true
  pub idle_alive : is_dying (status k k.idle_thread) ≡ false

-- What a switch does: the next thread is the head of the ready list, or the idle thread if that is
-- empty, and it was not dying; no other thread's status changes, and none of the fields that threads share does.
pub record Switched (k k' : Kernel) : Type 0 where
  pub inv : Inv k'
  pub picked : (k'.current, k'.ready_list) ≡ next_thread_to_run k.idle_thread k.ready_list
  pub alive : is_dying (status k k'.current) ≡ false
  pub others : (t : ℕ) → (t == k'.current) ≡ false → status k' t ≡ status k t
  pub idle : k'.idle_thread ≡ k.idle_thread
  pub all : k'.all_list ≡ k.all_list
  pub tids : (t : ℕ) → (k'.thread t).tid ≡ (k.thread t).tid
  pub waits : (t : ℕ) → (k'.thread t).wait_called ≡ (k.thread t).wait_called
  pub waiters : (t : ℕ) → (k'.thread t).waiting_thread ≡ (k.thread t).waiting_thread
  pub results : (t : ℕ) → (k'.thread t).child_exit_status ≡ (k.thread t).child_exit_status

tail_of : Kernel → ℕ → List ℕ → Kernel
unfolding thread_schedule_tail
tail_of k next rest =
    thread_schedule_tail (record k { ready_list = rest; current = next })
      (if not (k.current == next) then some k.current else none)

tail-status :
    (k : Kernel) (next : ℕ) (rest : List ℕ) (t : ℕ)
    → status (tail_of k next rest) t ≡ (if next == t then running else status k t)
unfolding tail_of thread_schedule_tail free_thread
tail-status k next rest t = ground (arith)

tail-magic :
    (k : Kernel) (next : ℕ) (rest : List ℕ) (t : ℕ)
    → is_dying (status k t) ≡ false
    → ((tail_of k next rest).thread t).magic ≡ (k.thread t).magic
unfolding tail_of thread_schedule_tail free_thread
tail-magic k next rest t alive = ground (arith)

tail-fields :
    (k : Kernel) (next : ℕ) (rest : List ℕ)
    → let k' = tail_of k next rest in
      (k'.current ≡ next)
      × (k'.ready_list ≡ rest)
      × (k'.idle_thread ≡ k.idle_thread)
      × (k'.all_list ≡ k.all_list)
      × ((t : ℕ) → (k'.thread t).tid ≡ (k.thread t).tid)
      × ((t : ℕ) → (k'.thread t).wait_called ≡ (k.thread t).wait_called)
      × ((t : ℕ) → (k'.thread t).waiting_thread ≡ (k.thread t).waiting_thread)
      × ((t : ℕ) → (k'.thread t).child_exit_status ≡ (k.thread t).child_exit_status)
unfolding tail_of thread_schedule_tail free_thread
tail-fields k next rest = (
  ground (arith),
  ground (arith),
  ground (arith),
  ground (arith),
  (λ t. ground (arith)),
  (λ t. ground (arith)),
  (λ t. ground (arith)),
  λ t. ground (arith),
)

is_thread-of :
    (k k' : Kernel) (t : ℕ)
    → (k'.thread t).magic ≡ (k.thread t).magic
    → is_thread k t ≡ true
    → is_thread k' t ≡ true
is_thread-of k k' t e h = rw e h

alive_if_ready : (s : Status) → is_ready s ≡ true → is_dying s ≡ false
alive_if_ready running h = refl
alive_if_ready ready h = refl
alive_if_ready blocked h = refl
alive_if_ready dying h = sym h

ready_if : (b : Bool) (s : Status) → is_ready (if b then running else s) ≡ true → is_ready s ≡ true
ready_if true s h = elim (true_ne_false (sym h)) [ ]
ready_if false s h = h

module _ {k : Kernel} (v : Leaving k) (next : ℕ) (rest : List ℕ)
    (h : (t : ℕ)
      → count t rest + (if t == next && not (next == k.idle_thread) then 1 else 0)
        ≡ count t k.ready_list)
    (thread : is_thread k next ≡ true) (alive : is_dying (status k next) ≡ false) where
  k' : Kernel
  k' = tail_of k next rest

  tail-Inv : Inv k'
  unfolding k'
  tail-Inv =
      let (c, r, i, a, ids, waits, waiters, results) = tail-fields k next rest in
      record {
        one_running = λ t. rw (tail-status k next rest t) rw c ground (arith, v.none_running t);
        ready_once =
            λ t. rw (tail-status k next rest t) rw r rw i ground (arith, h t, v.ready_once t);
        ready_thread = λ t e.
            let ready =
              ready_if (next == t) (status k t)
                (subst (λ x. is_ready x ≡ true) (tail-status k next rest t) e) in
            is_thread-of k k' t (tail-magic k next rest t (alive_if_ready (status k t) ready))
              (v.ready_thread t ready);
        current_thread = rw c (is_thread-of k k' next (tail-magic k next rest next alive) thread);
        idle_is_thread = rw i (
            is_thread-of k k' k.idle_thread (tail-magic k next rest k.idle_thread v.idle_alive)
              v.idle_is_thread);
        idle_alive = rw i rw (tail-status k next rest k.idle_thread) ground (arith, v.idle_alive);
      }

  tail-Switched : (next, rest) ≡ next_thread_to_run k.idle_thread k.ready_list → Switched k k'
  unfolding k'
  tail-Switched e =
      let (c, r, i, a, ids, waits, waiters, results) = tail-fields k next rest in
      record {
        inv = tail-Inv;
        picked = rw c rw r e;
        alive = rw c alive;
        others = λ t ne. rw (tail-status k next rest t) (ground (arith, c, ne));
        idle = i;
        all = a;
        tids = ids;
        waits = waits;
        waiters = waiters;
        results = results;
      }

module _ {k : Kernel} (v : Leaving k) where
  -- The next thread is a live thread, and the ready list loses just that.
  next_thread_lem :
      (rs : List ℕ)
      → k.ready_list ≡ rs
      → let n = next_thread_to_run k.idle_thread rs in
        ((t : ℕ)
          → count t n.1 + (if t == n.0 && not (n.0 == k.idle_thread) then 1 else 0) ≡ count t rs)
        × (is_thread k n.0 ≡ true)
        × (is_dying (status k n.0) ≡ false)
  unfolding next_thread_to_run
  next_thread_lem [] e = ((λ t. ground (arith)), v.idle_is_thread, v.idle_alive)
  next_thread_lem (r ∷ rs) e =
      let c : (t : ℕ)
          → count t (r ∷ rs)
            ≡ (if is_ready (status k t) && not (t == k.idle_thread) then 1 else 0) =
        λ t.
          subst
            (λ x. count t x ≡ (if is_ready (status k t) && not (t == k.idle_thread) then 1 else 0))
            e (v.ready_once t) in
      let ready : is_ready (status k r) ≡ true = ground (arith, c r) in
      ((λ t. ground (arith, c t)), v.ready_thread r ready, alive_if_ready (status k r) ready)

  pub schedule-Switched : (k' : Kernel) × (schedule k ≡ some k') × Switched k k'
  unfolding schedule tail_of k'
  schedule-Switched =
      let n = next_thread_to_run k.idle_thread k.ready_list in
      let (c, thread, alive) = next_thread_lem k.ready_list refl in
      (
        tail_of k n.0 n.1,
        ground (arith, v.none_running k.current, thread),
        tail-Switched v n.0 n.1 c thread alive refl,
      )
