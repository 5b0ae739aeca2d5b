-- ===== src/Synch/Exclusion.antt =====
-- threads/synch.c: the invariant of a lock whose threads' steps are interleaved in any way.
use turbo_baker.Prelude.{
  ℕ, ◌+◌, ◌%◌, ◌^◌, ◌≡◌, refl, sym, ap, ◌∙◌, subst, ◌⊎◌, inl, inr, Bool, true, false, Option, none,
  some, List, [], ◌∷◌, arith, ◌==◌, if◌then◌else◌, true_ne_false, count, count-append,
}
use turbo_baker.Synch.{
  sema_init, sema_down_turn, sema_try_down, sema_up, lock_init, lock_held_by_current_thread, Place,
  outside, downing, taken, holding, releasing, Call, System, move, is_asleep, set_semaphore, down,
  try_down, up, set_holder, step,
}

unfoldable pub initial : System
unfolding lock_init
initial = record { lock = lock_init; place = λ t. outside }

pub data Reach : System → Type 0 where
  start : Reach initial
  next : {s s' : System} → Reach s → (t : ℕ) (call : Call) → step s t call ≡ some s' → Reach s'

-- Between taking the semaphore and giving it back.
abbrev pub is_inside : Place → Bool
is_inside taken = true
is_inside holding = true
is_inside releasing = true
is_inside _ = false

abbrev pub is_holding : Place → Bool
is_holding holding = true
is_holding _ = false

abbrev pub names : Option ℕ → ℕ → Bool
names none t = false
names (some o) t = o == t

-- `owner` is the one thread inside. The value says whether there is one; the holder is a thread
-- inside; the list has each blocked thread once; a lock that is free while a thread sleeps has one
-- that is about to take it.
pub record LockInv (owner : Option ℕ) (s : System) : Type 0 where
  pub inside : (t : ℕ) → is_inside (s.place t) ≡ names owner t
  pub free_value : owner ≡ none → s.lock.semaphore.value ≡ 1
  pub taken_value : (o : ℕ) → owner ≡ some o → s.lock.semaphore.value ≡ 0
  pub held : (t : ℕ) → lock_held_by_current_thread s.lock t ≡ is_holding (s.place t)
  pub queued : (t : ℕ) → count t s.lock.semaphore.waiters ≡ (if is_asleep (s.place t) then 1 else 0)
  pub waking : owner ≡ none → (s.lock.semaphore.waiters ≡ []) ⊎ ((t : ℕ) × (s.place t ≡ downing))

pub initial-LockInv : LockInv none initial
unfolding initial lock_init sema_init lock_held_by_current_thread
initial-LockInv = record {
  inside = λ t. refl;
  free_value = λ _. refl;
  taken_value = λ o e. cc;
  held = λ t. refl;
  queued = λ t. refl;
  waking = λ _. inl refl;
}

-- A thread that comes to lock_acquire().
pub acquire-LockInv :
    {owner : Option ℕ} {s : System}
    → LockInv owner s
    → (t : ℕ) → s.place t ≡ outside
    → LockInv owner (move s t downing)
unfolding lock_held_by_current_thread
acquire-LockInv {owner} {s} v t at = record {
  inside = λ u. ground (arith, v.inside u, at);
  free_value = v.free_value;
  taken_value = v.taken_value;
  held = λ u. ground (arith, v.held u, at);
  queued = λ u. ground (arith, v.queued u, at);
  waking = λ e. inr (t, ground (arith));
}

pub down-LockInv :
    (owner : Option ℕ) {s : System}
    → LockInv owner s
    → (t : ℕ) → s.place t ≡ downing
    → (owner' : Option ℕ) × LockInv owner' (down s t)
unfolding down sema_down_turn set_semaphore lock_held_by_current_thread
down-LockInv none {s} v t at = (
  some t,
  record {
    inside = λ u. ground (arith, v.inside u, v.free_value refl, at);
    free_value = λ e. cc;
    taken_value = λ o e. ground (arith, v.free_value refl);
    held = λ u. ground (arith, v.held u, v.free_value refl, at);
    queued = λ u. ground (arith, v.queued u, v.free_value refl, at);
    waking = λ e. cc;
  },
)
down-LockInv (some o) {s} v t at = (
  some o,
  record {
    inside = λ u. ground (arith, v.inside u, v.taken_value o refl, at);
    free_value = λ e. cc;
    taken_value = λ o' e. ground (arith, v.taken_value o refl);
    held = λ u. ground (arith, v.held u, v.taken_value o refl, at);
    queued = λ u. ground (
      arith,
      v.queued u,
      v.taken_value o refl,
      at,
      count-append u s.lock.semaphore.waiters (t ∷ []),
    );
    waking = λ e. cc;
  },
)

pub try_down-LockInv :
    (owner : Option ℕ) {s : System}
    → LockInv owner s
    → (t : ℕ) → s.place t ≡ outside
    → (owner' : Option ℕ) × LockInv owner' (try_down s t)
unfolding try_down sema_try_down set_semaphore lock_held_by_current_thread
try_down-LockInv none {s} v t at = (
  some t,
  record {
    inside = λ u. ground (arith, v.inside u, v.free_value refl, at);
    free_value = λ e. cc;
    taken_value = λ o e. ground (arith, v.free_value refl);
    held = λ u. ground (arith, v.held u, v.free_value refl, at);
    queued = λ u. ground (arith, v.queued u, v.free_value refl, at);
    waking = λ e. cc;
  },
)
try_down-LockInv (some o) {s} v t at = (
  some o,
  record {
    inside = λ u. ground (arith, v.inside u, v.taken_value o refl, at);
    free_value = λ e. cc;
    taken_value = λ o' e. ground (arith, v.taken_value o refl);
    held = λ u. ground (arith, v.held u, v.taken_value o refl, at);
    queued = λ u. ground (arith, v.queued u, v.taken_value o refl, at);
    waking = λ e. cc;
  },
)

pub own-LockInv :
    (owner : Option ℕ) {s : System}
    → LockInv owner s
    → (t : ℕ) → s.place t ≡ taken
    → LockInv owner (move (set_holder s (some t)) t holding)
unfolding set_holder lock_held_by_current_thread
own-LockInv none {s} v t at = elim (true_ne_false (sym (ap is_inside at) ∙ v.inside t)) [ ]
own-LockInv (some o) {s} v t at = record {
  inside = λ u. ground (arith, v.inside u, at);
  free_value = λ e. cc;
  taken_value = v.taken_value;
  held = λ u. ground (arith, v.inside u, v.inside t, at);
  queued = λ u. ground (arith, v.queued u, at);
  waking = λ e. cc;
}

pub release-LockInv :
    (owner : Option ℕ) {s : System}
    → LockInv owner s
    → (t : ℕ) → s.place t ≡ holding
    → LockInv owner (move (set_holder s none) t releasing)
unfolding set_holder lock_held_by_current_thread
release-LockInv none {s} v t at = elim (true_ne_false (sym (ap is_inside at) ∙ v.inside t)) [ ]
release-LockInv (some o) {s} v t at = record {
  inside = λ u. ground (arith, v.inside u, at);
  free_value = λ e. cc;
  taken_value = v.taken_value;
  held = λ u. ground (arith, v.inside u, v.inside t, at);
  queued = λ u. ground (arith, v.queued u, at);
  waking = λ e. cc;
}

module _ {s : System} {o : ℕ} (v : LockInv (some o) s) (t : ℕ) (at : s.place t ≡ releasing) where
  -- sema_up() when none waits.
  pub up-none : s.lock.semaphore.waiters ≡ [] → (s' : System) × (up s t ≡ some s') × LockInv none s'
  unfolding up sema_up set_semaphore lock_held_by_current_thread
  up-none e =
      let s₁ = record s {
        lock = record (s.lock) {
          semaphore = record {
            value = (s.lock.semaphore.value + 1) % 2 ^ 32;
            waiters = s.lock.semaphore.waiters;
          };
        };
      } in
      (
        move s₁ t outside,
        rw e refl,
        record {
          inside = λ u. ground (arith, v.inside u, v.inside t, at);
          free_value = λ _. ground (arith, v.taken_value o refl);
          taken_value = λ o e. cc;
          held = λ u. ground (arith, v.held u, at);
          queued = λ u. ground (arith, v.queued u, at);
          waking = λ _. inl e;
        },
      )

  -- sema_up() when `w` waits first.
  pub up-wakes :
      (w : ℕ) (ws : List ℕ)
      → s.lock.semaphore.waiters ≡ w ∷ ws
      → (s' : System) × (up s t ≡ some s') × LockInv none s'
  unfolding up sema_up set_semaphore lock_held_by_current_thread
  up-wakes w ws e =
      let s₁ = record s {
        lock = record (s.lock) {
          semaphore = record { value = (s.lock.semaphore.value + 1) % 2 ^ 32; waiters = ws };
        };
      } in
      let queue : (u : ℕ) → count u (w ∷ ws) ≡ (if is_asleep (s.place u) then 1 else 0) =
        λ u. subst (λ x. count u x ≡ (if is_asleep (s.place u) then 1 else 0)) e (v.queued u) in
      let sleeps : is_asleep (s.place w) ≡ true = ground (arith, queue w) in
      (
        move (move s₁ w downing) t outside,
        rw e rw sleeps refl,
        record {
          inside = λ u. ground (arith, v.inside u, v.inside t, at, sleeps);
          free_value = λ _. ground (arith, v.taken_value o refl);
          taken_value = λ o e. cc;
          held = λ u. ground (arith, v.held u, at, sleeps);
          queued = λ u. ground (arith, queue u, at, sleeps);
          waking = λ _. inr (w, ground (arith, at, sleeps));
        },
      )
