-- ===== src/Thread/Create.antt =====
-- threads/thread.c: thread_create(), step by step. Interrupts are on, so other threads may run between
-- any two of its steps.
use turbo_baker.Prelude.{
  List, zero, suc, ◌>>=◌, Option, ◌%◌, ◌^◌, ℕ, ◌+◌, ◌≤◌, ◌≡◌, refl, true, false, ◌&&◌, some, [],
  ◌∷◌, ◌++◌, arith, leb, ◌==◌, if◌then◌else◌, ==_refl, count, count-append,
}
use turbo_baker.Bitmap.{assert}
use turbo_baker.Thread.{
  ready, blocked, Thread, Kernel, is_thread, is_blocked, status, set_thread, tid_error,
  allocate_tid, thread_unblock, init_thread, pri_min, pri_max,
}
use turbo_baker.Thread.Inv.{Inv}

-- Where a call stands, with the tid that it has taken.
pub data CreatePc : Type 0 where
  starting numbering : CreatePc
  naming readying : (tid : ℕ) → CreatePc
  created : (tid : ℕ) → CreatePc

-- A step of a call at the page that palloc_get_page() returned, 0 if there was none: init_thread(),
-- which works on a page that no other thread knows until it is on the list, with interrupts off for
-- that; allocate_tid(), under its lock; the assignment of the tid; and thread_unblock(). The stack
-- frames of the new thread are not modelled.
pub create_step : (page priority : ℕ) → CreatePc → Kernel → Option (CreatePc × Kernel)
create_step page priority starting k =
    if page == 0
    then some (created tid_error, k)
    else assert (leb pri_min priority && leb priority pri_max) (
        some (
          numbering,
          record (set_thread k page (init_thread priority)) {
            all_list = k.all_list ++ (page ∷ []);
          },
        ))
create_step page priority numbering k = let (tid, k') = allocate_tid k in some (naming tid, k')
create_step page priority (naming tid) k =
    some (readying tid, set_thread k page (record (k.thread page) { tid = tid }))
create_step page priority (readying tid) k = thread_unblock k page >>= λ k'. some (created tid, k')
create_step page priority (created tid) k = some (created tid, k)

-- That many steps with no other thread in between.
pub create_steps : (count page priority : ℕ) → CreatePc → Kernel → Option (CreatePc × Kernel)
create_steps zero page priority pc k = some (pc, k)
create_steps (suc n) page priority pc k =
    create_step page priority pc k >>= λ r. create_steps n page priority r.0 r.1

-- What the call relies on at its next step, and what holds when it is done: the page belongs to no
-- thread, then it is as init_thread() made it, then a blocked thread which has its tid, and then a
-- ready one.
unfoldable pub Pending : (page priority : ℕ) → CreatePc → Kernel → Type 0
Pending page priority starting k =
    ((page == 0) ≡ false)
    × ((page == k.current) ≡ false)
    × ((page == k.idle_thread) ≡ false)
    × (count page k.ready_list ≡ 0)
Pending page priority numbering k =
    ((page == 0) ≡ false)
    × ((page == k.idle_thread) ≡ false)
    × (k.thread page ≡ init_thread priority)
Pending page priority (naming tid) k =
    ((page == 0) ≡ false)
    × ((page == k.idle_thread) ≡ false)
    × (k.thread page ≡ init_thread priority)
Pending page priority (readying tid) k =
    (is_thread k page ≡ true)
    × ((page == k.idle_thread) ≡ false)
    × (status k page ≡ blocked)
    × ((k.thread page).tid ≡ tid)
Pending page priority (created tid) k =
    (is_thread k page ≡ true) × (status k page ≡ ready) × ((k.thread page).tid ≡ tid)

-- Where the call stands behind its next step, and the lists and the next tid then.
abbrev pub pc_after : CreatePc → Kernel → CreatePc
pc_after starting k = numbering
pc_after numbering k = naming k.next_tid
pc_after (naming tid) k = readying tid
pc_after (readying tid) k = created tid
pc_after (created tid) k = created tid

abbrev pub all_after : (page : ℕ) → CreatePc → Kernel → List ℕ
all_after page starting k = k.all_list ++ (page ∷ [])
all_after page _ k = k.all_list

abbrev pub ready_after : (page : ℕ) → CreatePc → Kernel → List ℕ
ready_after page (readying tid) k = k.ready_list ++ (page ∷ [])
ready_after page _ k = k.ready_list

abbrev pub tid_after : CreatePc → Kernel → ℕ
tid_after numbering k = (k.next_tid + 1) % 2 ^ 32
tid_after _ k = k.next_tid

pub record Stepped (page priority : ℕ) (pc : CreatePc) (k k' : Kernel) : Type 0 where
  pub inv : Inv k'
  pub pending : Pending page priority (pc_after pc k) k'
  pub elsewhere : (t : ℕ) → (page == t) ≡ false → k'.thread t ≡ k.thread t
  pub all : k'.all_list ≡ all_after page pc k
  pub queue : k'.ready_list ≡ ready_after page pc k
  pub next : k'.next_tid ≡ tid_after pc k
  pub current : k'.current ≡ k.current

-- What a new thread starts as.
abbrev new_thread : (tid priority : ℕ) → Thread
new_thread tid priority = record (init_thread priority) { tid = tid; status = ready }

pub record Created (k : Kernel) (page priority : ℕ) (k' : Kernel) : Type 0 where
  pub inv : Inv k'
  pub here : k'.thread page ≡ new_thread k.next_tid priority
  pub elsewhere : (t : ℕ) → (page == t) ≡ false → k'.thread t ≡ k.thread t
  pub queued : k'.ready_list ≡ k.ready_list ++ (page ∷ [])
  pub listed : k'.all_list ≡ k.all_list ++ (page ∷ [])
  pub next : k'.next_tid ≡ (k.next_tid + 1) % 2 ^ 32
  pub current : k'.current ≡ k.current

-- The page is written three times: as it is made, with its tid, and as it is made ready.
made : Kernel → (page priority : ℕ) → Kernel
made k page priority =
    let t = new_thread k.next_tid priority in
    record (set_thread
      (set_thread (set_thread k page (init_thread priority)) page (record t { status = blocked }))
      page t) {
        all_list = k.all_list ++ (page ∷ []);
        ready_list = k.ready_list ++ (page ∷ []);
        next_tid = (k.next_tid + 1) % 2 ^ 32;
      }

made-Created :
    {k : Kernel}
    → Inv k
    → (page priority : ℕ) → (page == 0) ≡ false
    → (page == k.current) ≡ false
    → (page == k.idle_thread) ≡ false
    → count page k.ready_list ≡ 0
    → Created k page priority (made k page priority)
unfolding made
made-Created {k} v page priority p c i r = record {
  inv = record {
    one_running = λ u. ground (arith, v.one_running u, c);
    ready_once = λ u.
        ground
          (arith, v.ready_once u, v.one_running u, i, r, count-append u k.ready_list (page ∷ []));
    ready_thread = λ u e. ground (arith, v.ready_thread u, p, e);
    current_thread = ground (arith, v.current_thread, c);
    idle_is_thread = ground (arith, v.idle_is_thread, i);
    idle_alive = ground (arith, v.idle_alive, i);
  };
  here = rw (==_refl page) refl;
  elsewhere = λ t ne. rw ne refl;
  queued = refl;
  listed = refl;
  next = refl;
  current = refl;
}

create_steps-suc :
    (n page priority : ℕ) (pc : CreatePc) (k : Kernel) {pc' : CreatePc} {k' : Kernel}
    → create_step page priority pc k ≡ some (pc', k')
    → create_steps (suc n) page priority pc k ≡ create_steps n page priority pc' k'
unfolding create_steps
create_steps-suc n page priority pc k e = rw e refl

create_steps_lem :
    (k : Kernel) (page priority : ℕ)
    → (page == 0) ≡ false
    → priority ≤ pri_max
    → create_steps 4 page priority starting k ≡ some (created k.next_tid, made k page priority)
unfolding create_step create_steps made thread_unblock
create_steps_lem k page priority p le =
    let allowed : leb pri_min priority && leb priority pri_max ≡ true = ground (arith, le) in
    rw (p, allowed) (rw (==_refl page, p, is_blocked) refl)

-- In a well-formed kernel, if no other thread runs between its steps, thread_create() with a valid
-- priority, at a page that is not null and belongs to neither the current thread, the idle thread
-- nor a thread of the ready list, returns the next tid; the page is then a ready thread with that
-- tid and cleared wait fields, at the end of both lists, no other thread has changed, and the kernel
-- is well formed.
pub thread_create-Created :
    {k : Kernel}
    → Inv k
    → (page priority : ℕ) → (page == 0) ≡ false
    → (page == k.current) ≡ false
    → (page == k.idle_thread) ≡ false
    → count page k.ready_list ≡ 0
    → priority ≤ pri_max
    → (k' : Kernel) × (create_steps 4 page priority starting k ≡ some (created k.next_tid, k'))
      × Created k page priority k'
thread_create-Created {k} v page priority p c i r le = (
  made k page priority,
  create_steps_lem k page priority p le,
  made-Created v page priority p c i r,
)
