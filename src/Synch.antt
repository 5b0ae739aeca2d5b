-- ===== src/Synch.antt =====
-- threads/synch.c: semaphores and locks, and the threads that use one lock.
-- A part that runs with interrupts off is one step; between two steps any thread may run. The
-- assertions on the interrupt level and on null pointers are not modelled.
pub mod Exclusion
pub mod Safety
pub mod Tests
use turbo_baker.Prelude.{
  ℕ, zero, suc, ◌+◌, ◌-◌, ◌*◌, ◌/◌, ◌%◌, ◌^◌, ◌≤◌, ◌<◌, min, max, ◌≡◌, refl, sym, ap, ◌∙◌, subst,
  fun_ext, ◌≢◌, ◌↔◌, ◌⊎◌, inl, inr, Bool, true, false, not, ◌&&◌, ◌||◌, Option, none, some, List,
  [], ◌∷◌, ◌++◌, map, arith, ltb, leb, ◌==◌, if◌then◌else◌, same_bool, ltb→lt, ltb→ge, leb→le,
  leb→gt, ==→eq, ==→ne, ne→==, ==_refl, tests, Bool-cases, Option-cases, length, get_or, set,
  replicate, length-append, length-set, length-replicate, get_or-set_self, get_or-set_ne, Mem,
  write, within, ◌>>=◌, is_some, true_ne_false, count, count-append,
}
use turbo_baker.Bitmap.{assert}

pub record Sema : Type 0 where
  pub value : ℕ
  pub waiters : List ℕ

-- `none` is the null pointer.
pub record Lock : Type 0 where
  pub holder : Option ℕ
  pub semaphore : Sema

pub sema_init : ℕ → Sema
sema_init value = record { value = value; waiters = [] }

-- One turn of the loop of sema_down() by thread `t`: whether it took the semaphore; if not, the
-- thread has put itself on the list and is blocked.
pub sema_down_turn : Sema → (t : ℕ) → Bool × Sema
sema_down_turn s t =
    if s.value == 0
    then (false, record s { waiters = s.waiters ++ (t ∷ []) })
    else (true, record s { value = s.value - 1 })

pub sema_try_down : Sema → Bool × Sema
sema_try_down s = if ltb 0 s.value then (true, record s { value = s.value - 1 }) else (false, s)

-- The thread that it unblocks, if there is one.
pub sema_up : Sema → Option ℕ × Sema
sema_up s = elim s.waiters [
  | [] ↦ (none, record s { value = (s.value + 1) % 2 ^ 32 })
  | w ∷ ws ↦ (some w, record { value = (s.value + 1) % 2 ^ 32; waiters = ws })
]

pub lock_init : Lock
unfolding sema_init
lock_init = record { holder = none; semaphore = sema_init 1 }

pub lock_held_by_current_thread : Lock → (t : ℕ) → Bool
lock_held_by_current_thread l t = elim l.holder [ none ↦ false | some h ↦ h == t ]

-- Where a thread is: outside the operations, in the loop of sema_down() and about to test the
-- value, blocked there, past it and not yet the holder, the holder, or past the first line of
-- lock_release().
pub data Place : Type 0 where
  outside downing asleep taken holding releasing : Place

pub data Call : Type 0 where
  acquire try_acquire : Call

pub record System : Type 0 where
  pub lock : Lock
  pub place : ℕ → Place

abbrev pub move : System → ℕ → Place → System
move s t p = record s { place = λ u. if t == u then p else s.place u }

abbrev pub is_asleep : Place → Bool
is_asleep asleep = true
is_asleep _ = false

pub set_semaphore : System → Sema → System
set_semaphore s sema = record s { lock = record (s.lock) { semaphore = sema } }

-- sema_down() in lock_acquire().
pub down : System → ℕ → System
unfolding sema_down_turn set_semaphore
down s t =
    let (took, sema) = sema_down_turn s.lock.semaphore t in
    move (set_semaphore s sema) t (if took then taken else asleep)

-- sema_try_down() in lock_try_acquire().
pub try_down : System → ℕ → System
unfolding sema_try_down set_semaphore
try_down s t =
    let (took, sema) = sema_try_down s.lock.semaphore in
    move (set_semaphore s sema) t (if took then taken else outside)

-- sema_up() in lock_release(); thread_unblock() wants a blocked thread.
pub up : System → ℕ → Option System
unfolding sema_up set_semaphore
up s t =
    let (woken, sema) = sema_up s.lock.semaphore in
    let s' = set_semaphore s sema in
    elim woken [
      | none ↦ some (move s' t outside)
      | some w ↦ assert (is_asleep (s.place w)) (some (move (move s' w downing) t outside))
    ]

pub set_holder : System → Option ℕ → System
set_holder s h = record s { lock = record (s.lock) { holder = h } }

pub enter : System → ℕ → Call → System
unfolding try_down
enter s t acquire = move s t downing
enter s t try_acquire = try_down s t

pub step_at : System → ℕ → Call → Place → Option System
unfolding lock_held_by_current_thread enter down set_holder up
step_at s t call outside =
    assert (not (lock_held_by_current_thread s.lock t)) (some (enter s t call))
step_at s t call downing = some (down s t)
step_at s t call asleep = none
step_at s t call taken = some (move (set_holder s (some t)) t holding)
step_at s t call holding =
    assert (lock_held_by_current_thread s.lock t) (some (move (set_holder s none) t releasing))
step_at s t call releasing = up s t

-- The next step of thread `t`, with the operation it calls if it is outside.
pub step : System → ℕ → Call → Option System
unfolding step_at
step s t call = step_at s t call (s.place t)
