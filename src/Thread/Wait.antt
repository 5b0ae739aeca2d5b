-- ===== src/Thread/Wait.antt =====
-- userprog/process.c: process_wait(), step by step. Interrupts are on up to its intr_disable(), so
-- other threads may run between any two of its steps.
use turbo_baker.Prelude.{
  Bool, zero, suc, if◌then◌else◌, ◌>>=◌, ℕ, ◌≡◌, refl, sym, ◌∙◌, subst, ◌≢◌, ◌⊎◌, inl, inr, true,
  false, Option, none, some, List, [], ◌∷◌, arith, ◌==◌, Bool-cases, Option-cases,
}
use turbo_baker.Thread.{
  blocked, Thread, Kernel, status, set_thread, thread_block, get_thread, next_thread_to_run,
  find_tid, tid_error,
}
use turbo_baker.Thread.Inv.{Inv}
use turbo_baker.Thread.Steps.{thread_block-Switched}
use turbo_baker.Thread.Exit.{SameSchedule, same-Inv}

-- Where a call stands, with the child that it has found.
pub data WaitPc : Type 0 where
  looking : WaitPc
  testing marking noting : (child : ℕ) → WaitPc
  blocking waiting : WaitPc
  returned : (result : ℕ) → WaitPc

-- A step of the current thread, which is in a call of process_wait(): get_thread(), the test of
-- wait_called, the two assignments, the switch, and the return when the thread runs again.
pub wait_step : (child_tid : ℕ) → WaitPc → Kernel → Option (WaitPc × Kernel)
wait_step child_tid looking k = elim (get_thread k child_tid) [
  | none ↦ some (returned tid_error, k)
  | some t ↦ some (testing t, k)
]
wait_step child_tid (testing t) k =
    some (if (k.thread t).wait_called then returned tid_error else marking t, k)
wait_step child_tid (marking t) k =
    some (noting t, set_thread k t (record (k.thread t) { wait_called = true }))
wait_step child_tid (noting t) k =
    some
      (blocking, set_thread k t (record (k.thread t) { waiting_thread = (k.thread k.current).tid }))
wait_step child_tid blocking k = thread_block k >>= λ k'. some (waiting, k')
wait_step child_tid waiting k = some (returned (k.thread k.current).child_exit_status, k)
wait_step child_tid (returned n) k = some (returned n, k)

-- That many steps with no other thread in between.
unfoldable pub wait_steps : (count child_tid : ℕ) → WaitPc → Kernel → Option (WaitPc × Kernel)
wait_steps zero child_tid pc k = some (pc, k)
wait_steps (suc n) child_tid pc k = wait_step child_tid pc k >>= λ r. wait_steps n child_tid r.0 r.1

-- The child when the caller has written to it.
unfoldable pub marked : Kernel → ℕ → Kernel
marked k t =
    let k₁ = set_thread k t (record (k.thread t) { wait_called = true }) in
    set_thread k₁ t (record (k₁.thread t) { waiting_thread = (k₁.thread k₁.current).tid })

pub marked-SameSchedule : (k : Kernel) (t : ℕ) → SameSchedule k (marked k t)
unfolding marked
marked-SameSchedule k t = record {
  statuses = λ u. ground (arith);
  magics = λ u. ground (arith);
  readies = refl;
  currents = refl;
  idles = refl;
}

marked-tids : (k : Kernel) (t u : ℕ) → ((marked k t).thread u).tid ≡ (k.thread u).tid
unfolding marked
marked-tids k t u = ground (arith)

pub find_tid-same :
    (f g : ℕ → Thread) (tid : ℕ) (ts : List ℕ)
    → ((t : ℕ) → (f t).tid ≡ (g t).tid)
    → find_tid f tid ts ≡ find_tid g tid ts
unfolding find_tid
find_tid-same f g tid [] h = refl
find_tid-same f g tid (t ∷ ts) h = ground (arith, h t, find_tid-same f g tid ts h)

-- The caller that waits is blocked, the child is marked and knows its waiter, and the processor has
-- gone to the next thread.
pub record Waiting (k : Kernel) (child_tid : ℕ) (k' : Kernel) : Type 0 where
  pub child : ℕ
  pub found : get_thread k child_tid ≡ some child
  pub first : (k.thread child).wait_called ≡ false
  pub inv : Inv k'
  pub still_found : get_thread k' child_tid ≡ some child
  pub marked : (k'.thread child).wait_called ≡ true
  pub noted : (k'.thread child).waiting_thread ≡ (k.thread k.current).tid
  pub elsewhere :
      (u : ℕ)
      → (child == u) ≡ false
      → ((k'.thread u).wait_called ≡ (k.thread u).wait_called)
        × ((k'.thread u).waiting_thread ≡ (k.thread u).waiting_thread)
  pub picked : (k'.current, k'.ready_list) ≡ next_thread_to_run k.idle_thread k.ready_list
  pub blocked : (k.current == k'.current) ≡ false → status k' k.current ≡ blocked

abbrev pub Refused : Kernel → ℕ → Type 0
Refused k child_tid =
    (get_thread k child_tid ≡ none)
    ⊎ ((t : ℕ) × (get_thread k child_tid ≡ some t) × ((k.thread t).wait_called ≡ true))

wait-Waiting :
    {k : Kernel}
    → Inv k
    → (child_tid t : ℕ) → get_thread k child_tid ≡ some t
    → (k.thread t).wait_called ≡ false
    → (k' : Kernel) × (thread_block (marked k t) ≡ some k') × Waiting k child_tid k'
unfolding marked get_thread
wait-Waiting {k} v child_tid t found first =
    let (k', e, s) = thread_block-Switched (same-Inv (marked-SameSchedule k t) v) in
    (
      k',
      e,
      record {
        child = t;
        found = found;
        first = first;
        inv = s.inv;
        still_found = rw s.all (
            find_tid-same k'.thread k.thread child_tid k.all_list (λ u. s.tids u ∙ ground (arith))
            ∙ found);
        marked = s.waits t ∙ ground (arith);
        noted = s.waiters t ∙ ground (arith);
        elsewhere = λ u ne. (s.waits u ∙ ground (arith, ne), s.waiters u ∙ ground (arith, ne));
        picked = s.picked;
        blocked = λ ne. s.others k.current ne ∙ ground (arith);
      },
    )

wait_steps-suc :
    (n child_tid : ℕ) (pc : WaitPc) (k : Kernel) {pc' : WaitPc} {k' : Kernel}
    → wait_step child_tid pc k ≡ some (pc', k')
    → wait_steps (suc n) child_tid pc k ≡ wait_steps n child_tid pc' k'
unfolding wait_steps
wait_steps-suc n child_tid pc k e = rw e refl

looking-none :
    (k : Kernel) (child_tid : ℕ)
    → get_thread k child_tid ≡ none
    → wait_step child_tid looking k ≡ some (returned tid_error, k)
unfolding wait_step
looking-none k child_tid e = rw (e, wait_step) refl

looking-some :
    (k : Kernel) (child_tid t : ℕ)
    → get_thread k child_tid ≡ some t
    → wait_step child_tid looking k ≡ some (testing t, k)
unfolding wait_step
looking-some k child_tid t e = rw (e, wait_step) refl

testing_lem :
    (k : Kernel) (child_tid t : ℕ) (b : Bool)
    → (k.thread t).wait_called ≡ b
    → wait_step child_tid (testing t) k ≡ some (if b then returned tid_error else marking t, k)
unfolding wait_step
testing_lem k child_tid t b e = rw e refl

-- The two assignments.
marking_lem :
    (n : ℕ) (k : Kernel) (child_tid t : ℕ)
    → wait_steps (suc (suc n)) child_tid (marking t) k
      ≡ wait_steps n child_tid blocking (marked k t)
unfolding wait_steps wait_step marked
marking_lem n k child_tid t = refl

returned_lem :
    (n : ℕ) (k : Kernel) (child_tid result : ℕ)
    → wait_steps n child_tid (returned result) k ≡ some (returned result, k)
unfolding wait_steps wait_step
returned_lem zero k child_tid result = refl
returned_lem (suc n) k child_tid result = returned_lem n k child_tid result

-- The steps up to the switch.
pub to_blocking :
    (n : ℕ) (k : Kernel) (child_tid t : ℕ)
    → get_thread k child_tid ≡ some t
    → (k.thread t).wait_called ≡ false
    → wait_steps (suc (suc (suc (suc n)))) child_tid looking k
      ≡ wait_steps n child_tid blocking (marked k t)
to_blocking n k child_tid t found first =
    wait_steps-suc (suc (suc (suc n))) child_tid looking k (looking-some k child_tid t found)
    ∙ wait_steps-suc (suc (suc n)) child_tid (testing t) k (testing_lem k child_tid t false first)
    ∙ marking_lem n k child_tid t

blocking_lem :
    (k k' : Kernel) (child_tid : ℕ)
    → thread_block k ≡ some k'
    → wait_steps 1 child_tid blocking k ≡ some (waiting, k')
unfolding wait_steps wait_step
blocking_lem k k' child_tid e = rw e refl

refused_at :
    (k : Kernel) (child_tid t : ℕ)
    → get_thread k child_tid ≡ some t
    → (k.thread t).wait_called ≡ true
    → wait_steps 5 child_tid looking k ≡ some (returned tid_error, k)
refused_at k child_tid t e called =
    wait_steps-suc 4 child_tid looking k (looking-some k child_tid t e)
    ∙ wait_steps-suc 3 child_tid (testing t) k (testing_lem k child_tid t true called)
    ∙ returned_lem 3 k child_tid tid_error

-- In a well-formed kernel, if no other thread runs between its steps up to the switch,
-- process_wait() returns -1 at once, and changes nothing, only if no thread on the list of all
-- threads has the tid or that thread was waited for already; else it marks that thread as waited
-- for, leaves the tid of the caller in it, and no other thread changes in these two fields; the
-- first thread of the ready list runs, or the idle thread when the list is empty, the caller is
-- blocked if another thread than it runs now, and the kernel is well formed.
pub process_wait_lem :
    {k : Kernel}
    → Inv k
    → (child_tid : ℕ)
    → ((wait_steps 5 child_tid looking k ≡ some (returned tid_error, k)) × Refused k child_tid)
      ⊎ ((k' : Kernel) × (wait_steps 5 child_tid looking k ≡ some (waiting, k'))
          × Waiting k child_tid k')
process_wait_lem {k} v child_tid = elim (Option-cases (get_thread k child_tid)) [
  | inl e ↦ inl (
    wait_steps-suc 4 child_tid looking k (looking-none k child_tid e)
        ∙ returned_lem 4 k child_tid tid_error,
    inl e,
  )
  | inr (t, e) ↦ elim (Bool-cases ((k.thread t).wait_called)) [
    | inl called ↦ inl (refused_at k child_tid t e called, inr (t, e, called))
    | inr first ↦
        let (k', b, w) = wait-Waiting v child_tid t e first in
        inr (k', to_blocking 1 k child_tid t e first ∙ blocking_lem (marked k t) k' child_tid b, w)
  ]
]

result_ne :
    {n : ℕ} {k k' : Kernel}
    → ◌≢◌ {A = Option (WaitPc × Kernel)} (some (returned n, k)) (some (waiting, k'))
result_ne e = cc

result_eq :
    {k k' : Kernel}
    → ◌≡◌ {A = Option (WaitPc × Kernel)} (some (waiting, k)) (some (waiting, k'))
    → k ≡ k'
result_eq e = cc

-- In a well-formed kernel, if process_wait() makes its caller wait for a child and no other thread
-- runs between its steps, then a second call for the same tid returns -1 at once.
pub process_wait_twice :
    {k k' : Kernel}
    → Inv k
    → (child_tid : ℕ) → wait_steps 5 child_tid looking k ≡ some (waiting, k')
    → wait_steps 5 child_tid looking k' ≡ some (returned tid_error, k')
process_wait_twice {k} {k'} v child_tid e = elim (process_wait_lem v child_tid) [
  | inl (r, _) ↦ elim (result_ne (sym r ∙ e)) [ ]
  | inr (k₁, r, w) ↦
      refused_at k' child_tid w.child
        (subst (λ x. get_thread x child_tid ≡ some w.child) (result_eq (sym r ∙ e)) w.still_found)
        (subst (λ x. (x.thread w.child).wait_called ≡ true) (result_eq (sym r ∙ e)) w.marked)
]
