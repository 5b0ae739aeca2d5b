-- ===== src/Thread.antt =====
-- threads/thread.c: the thread table, the ready list and the switch between threads.
-- A thread is the address of its page. `none` is a failed assertion. An operation here runs with
-- interrupts off, so it is one step; what a thread does after it is switched away from is its next
-- step. The calls that run with interrupts on, thread_create() and process_wait(), are sequences of
-- steps in Thread.Create and Thread.Wait. The assertions on the interrupt level are not modelled.
pub mod Exit
pub mod Inv
pub mod RoundRobin
pub mod Steps
pub mod Wait
pub mod Race
pub mod Create
pub mod Tests
use turbo_baker.Prelude.{
  ℕ, zero, suc, ◌+◌, ◌-◌, ◌*◌, ◌/◌, ◌%◌, ◌^◌, ◌≤◌, ◌<◌, min, max, ◌≡◌, refl, sym, ap, ◌∙◌, subst,
  fun_ext, ◌≢◌, ◌↔◌, ◌⊎◌, inl, inr, Bool, true, false, not, ◌&&◌, ◌||◌, Option, none, some, List,
  [], ◌∷◌, ◌++◌, map, arith, ltb, leb, ◌==◌, if◌then◌else◌, same_bool, ltb→lt, ltb→ge, leb→le,
  leb→gt, ==→eq, ==→ne, ne→==, ==_refl, tests, Bool-cases, Option-cases, length, get_or, set,
  replicate, length-append, length-set, length-replicate, get_or-set_self, get_or-set_ne, Mem,
  write, within, ◌>>=◌, is_some, true_ne_false,
}
use turbo_baker.Bitmap.{assert}

pub data Status : Type 0 where
  running ready blocked dying : Status

abbrev pub thread_magic : ℕ
thread_magic = 0xcd6a_bf4b

abbrev pub tid_error : ℕ
tid_error = 2 ^ 32 - 1

abbrev pub pri_min : ℕ
pri_min = 0

abbrev pub pri_max : ℕ
pri_max = 63

abbrev pub time_slice : ℕ
time_slice = 4

-- `int` fields hold 32-bit patterns; in `waiting_thread` 0 is the null pointer that the code
-- compares it with.
pub record Thread : Type 0 where
  pub tid : ℕ
  pub status : Status
  pub priority : ℕ
  pub wait_called : Bool
  pub waiting_thread : ℕ
  pub child_exit_status : ℕ
  pub exit_status : ℕ
  pub magic : ℕ

pub record Kernel : Type 0 where
  pub thread : ℕ → Thread
  pub all_list : List ℕ
  pub ready_list : List ℕ
  pub current : ℕ
  pub idle_thread : ℕ
  pub initial_thread : ℕ
  pub next_tid : ℕ
  pub thread_ticks : ℕ

abbrev pub is_thread : Kernel → ℕ → Bool
is_thread k t = not (t == 0) && (k.thread t).magic == thread_magic

abbrev pub is_running : Status → Bool
is_running running = true
is_running _ = false

abbrev pub is_ready : Status → Bool
is_ready ready = true
is_ready _ = false

abbrev pub is_blocked : Status → Bool
is_blocked blocked = true
is_blocked _ = false

abbrev pub is_dying : Status → Bool
is_dying dying = true
is_dying _ = false

abbrev pub status : Kernel → ℕ → Status
status k t = (k.thread t).status

abbrev pub set_thread : Kernel → ℕ → Thread → Kernel
set_thread k t th = record k { thread = λ u. if t == u then th else k.thread u }

abbrev pub set_status : Kernel → ℕ → Status → Kernel
set_status k t st = set_thread k t (record (k.thread t) { status = st })

-- list_remove() of a thread's element.
pub erase : ℕ → List ℕ → List ℕ
erase t [] = []
erase t (u ∷ us) = if t == u then us else u ∷ erase t us

pub thread_unblock : Kernel → ℕ → Option Kernel
thread_unblock k t =
    assert (is_thread k t && is_blocked (status k t))
      (some (record (set_status k t ready) { ready_list = k.ready_list ++ (t ∷ []) }))

-- The next thread and what is left of the ready list.
pub next_thread_to_run : (idle : ℕ) → List ℕ → ℕ × List ℕ
next_thread_to_run idle [] = (idle, [])
next_thread_to_run idle (t ∷ ts) = (t, ts)

-- palloc_free_page() of a thread's page: what is there is no thread any more. The bytes 0xcc that
-- fill the page are modelled in its magic alone, which every use of a thread tests first.
pub free_thread : Kernel → ℕ → Kernel
free_thread k t = set_thread k t (record (k.thread t) { status = dying; magic = 0xcccc_cccc })

pub thread_schedule_tail : Kernel → (prev : Option ℕ) → Kernel
unfolding free_thread
thread_schedule_tail k none = record (set_status k k.current running) { thread_ticks = 0 }
thread_schedule_tail k (some prev) =
    let k' = record (set_status k k.current running) { thread_ticks = 0 } in
    if is_dying (status k' prev) && not (prev == k'.initial_thread) then free_thread k' prev else k'

pub schedule : Kernel → Option Kernel
unfolding next_thread_to_run thread_schedule_tail
schedule k =
    let (next, rest) = next_thread_to_run k.idle_thread k.ready_list in
    let k' = record k { ready_list = rest; current = next } in
    assert (not (is_running (status k k.current)) && is_thread k next)
      (some (thread_schedule_tail k' (if not (k.current == next) then some k.current else none)))

pub thread_block : Kernel → Option Kernel
unfolding schedule
thread_block k = schedule (set_status k k.current blocked)

pub thread_yield : Kernel → Option Kernel
unfolding schedule
thread_yield k =
    let ready_list =
      (if not (k.current == k.idle_thread)
        then k.ready_list ++ (k.current ∷ [])
        else k.ready_list) in
    schedule (record (set_status k k.current ready) { ready_list = ready_list })

pub find_tid : (ℕ → Thread) → ℕ → List ℕ → Option ℕ
find_tid thread tid [] = none
find_tid thread tid (t ∷ ts) = if (thread t).tid == tid then some t else find_tid thread tid ts

pub get_thread : Kernel → ℕ → Option ℕ
unfolding find_tid
get_thread k tid = find_tid k.thread tid k.all_list

-- The waiter of an exiting thread is made ready and given its exit status.
wake_waiter : Kernel → (cur : ℕ) → Option Kernel
unfolding thread_unblock get_thread
wake_waiter k cur = get_thread k (k.thread cur).waiting_thread >>= λ w. thread_unblock k w >>= λ k'.
    some
      (set_thread k' w (record (k'.thread w) { child_exit_status = (k'.thread cur).exit_status }))

-- thread_exit() behind process_exit(), which works on the thread's files and page directory:
-- from intr_disable() on.
pub thread_exit : Kernel → Option Kernel
unfolding erase wake_waiter schedule
thread_exit k =
    let cur = k.current in
    let k₁ = record k { all_list = erase cur k.all_list } in
    (if not ((k.thread cur).waiting_thread == 0) then wake_waiter k₁ cur else some k₁) >>= λ k₂.
    schedule (set_status k₂ cur dying)

-- What init_thread() makes of a page; name, stack and files are not modelled. The thread has no tid
-- yet.
abbrev pub init_thread : (priority : ℕ) → Thread
init_thread priority = record {
  tid = 0;
  status = blocked;
  priority = priority;
  wait_called = false;
  waiting_thread = 0;
  child_exit_status = 0;
  exit_status = 0;
  magic = thread_magic;
}

-- The tid, and the kernel with the next one.
abbrev pub allocate_tid : Kernel → ℕ × Kernel
allocate_tid k = (k.next_tid, record k { next_tid = (k.next_tid + 1) % 2 ^ 32 })

-- thread_tick(): whether it asks for a yield, and the new count.
pub thread_tick : Kernel → Bool × Kernel
thread_tick k =
    let ticks = (k.thread_ticks + 1) % 2 ^ 32 in
    (leb time_slice ticks, record k { thread_ticks = ticks })
