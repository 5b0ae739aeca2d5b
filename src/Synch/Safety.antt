-- ===== src/Synch/Safety.antt =====
-- threads/synch.c: a lock in the states that its threads can reach.
use turbo_baker.Prelude.{
  ◌==◌, false, ℕ, ◌≡◌, refl, sym, ap, ◌∙◌, subst, ◌≢◌, ◌⊎◌, inl, inr, true, Option, none, some,
  List, [], ◌∷◌, arith, if◌then◌else◌, ==_refl, true_ne_false, count,
}
use turbo_baker.Synch.{
  Place, outside, downing, asleep, taken, holding, releasing, Call, acquire, try_acquire, System,
  move, is_asleep, down, try_down, up, set_holder, enter, step_at, step,
}
use turbo_baker.Synch.Exclusion.{
  Reach, start, next, is_inside, is_holding, names, LockInv, initial-LockInv, acquire-LockInv,
  down-LockInv, try_down-LockInv, own-LockInv, release-LockInv, up-none, up-wakes,
}

zero_ne_one : ◌≢◌ {A = ℕ} 0 1
zero_ne_one = omega arith

Stepped : Option System → Type 0
Stepped o = (s' : System) × (o ≡ some s') × (owner : Option ℕ) × LockInv owner s'

list-cases : (xs : List ℕ) → (xs ≡ []) ⊎ ((y : ℕ) × (ys : List ℕ) × (xs ≡ y ∷ ys))
list-cases [] = inl refl
list-cases (x ∷ xs) = inr (x, xs, refl)

up-Stepped :
    (owner : Option ℕ) {s : System}
    → LockInv owner s
    → (t : ℕ) → s.place t ≡ releasing
    → Stepped (up s t)
unfolding Stepped
up-Stepped none {s} v t at = elim (true_ne_false (sym (ap is_inside at) ∙ v.inside t)) [ ]
up-Stepped (some o) {s} v t at = elim (list-cases s.lock.semaphore.waiters) [
  | inl e ↦ let (s', r, w) = up-none v t at e in (s', r, none, w)
  | inr (w, ws, e) ↦ let (s', r, i) = up-wakes v t at w ws e in (s', r, none, i)
]

module _ (owner : Option ℕ) {s : System} (v : LockInv owner s) (t : ℕ) (call : Call) where
  outside-Stepped : (c : Call) → s.place t ≡ outside → Stepped (step_at s t c outside)
  unfolding step_at enter Stepped
  outside-Stepped acquire at =
      (move s t downing, rw (v.held t ∙ ap is_holding at) refl, owner, acquire-LockInv v t at)
  outside-Stepped try_acquire at =
      let (owner', w) = try_down-LockInv owner v t at in
      (try_down s t, rw (v.held t ∙ ap is_holding at) refl, owner', w)

  step_at-Stepped : (p : Place) → s.place t ≡ p → (p ≡ asleep) ⊎ Stepped (step_at s t call p)
  unfolding step_at Stepped
  step_at-Stepped outside at = inr (outside-Stepped call at)
  step_at-Stepped downing at =
      inr (let (owner', w) = down-LockInv owner v t at in (down s t, refl, owner', w))
  step_at-Stepped asleep at = inl refl
  step_at-Stepped taken at =
      inr (move (set_holder s (some t)) t holding, refl, owner, own-LockInv owner v t at)
  step_at-Stepped holding at = inr (
    move (set_holder s none) t releasing,
    rw (v.held t ∙ ap is_holding at) refl,
    owner,
    release-LockInv owner v t at,
  )
  step_at-Stepped releasing at = inr (up-Stepped owner v t at)

  step-Stepped : ((s.place t ≡ asleep) × (step s t call ≡ none)) ⊎ Stepped (step s t call)
  unfolding step
  step-Stepped = elim (step_at-Stepped (s.place t) refl) [
    | inl e ↦ inl (e, rw e refl)
    | inr r ↦ inr r
  ]

none_ne : {s : System} → ◌≢◌ {A = Option System} none (some s)
none_ne e = cc

some_eq : {s s' : System} → ◌≡◌ {A = Option System} (some s) (some s') → s ≡ s'
some_eq e = cc

pub Reach-LockInv : {s : System} → Reach s → (owner : Option ℕ) × LockInv owner s
unfolding Stepped
Reach-LockInv start = (none, initial-LockInv)
Reach-LockInv (next {s} {s'} r t call e) =
    let (owner, v) = Reach-LockInv r in
    elim (step-Stepped owner v t call) [
      | inl (_, stuck) ↦ elim (none_ne (sym stuck ∙ e)) [ ]
      | inr (s₂, e₂, owner', v') ↦ (owner', subst (LockInv owner') (some_eq (sym e₂ ∙ e)) v')
    ]

other_name :
    (owner : Option ℕ) (t u : ℕ) → names owner t ≡ true → (t == u) ≡ false → names owner u ≡ false
other_name none t u e ne = refl
other_name (some o) t u e ne = ground (arith, e, ne)

-- In every state that the threads can reach, at most one thread is between taking the lock's
-- semaphore and giving it back: if one is, no other is.
pub mutual_exclusion :
    {s : System}
    → Reach s
    → (t u : ℕ) → is_inside (s.place t) ≡ true
    → (t == u) ≡ false
    → is_inside (s.place u) ≡ false
mutual_exclusion r t u e ne =
    let (owner, v) = Reach-LockInv r in v.inside u ∙ other_name owner t u (sym (v.inside t) ∙ e) ne

Served : System → Type 0
Served s = ((u : ℕ) × (is_inside (s.place u) ≡ true)) ⊎ ((u : ℕ) × (s.place u ≡ downing))

sleeper-Served :
    (owner : Option ℕ) {s : System} → LockInv owner s → (t : ℕ) → s.place t ≡ asleep → Served s
unfolding Served
sleeper-Served none {s} v t e = elim (v.waking refl) [
  | inl empty ↦
      elim (zero_ne_one
        (sym (ap (count t) empty) ∙ v.queued t ∙ ap (λ p. if is_asleep p then 1 else 0) e)) [ ]
  | inr (u, d) ↦ inr (u, d)
]
sleeper-Served (some o) v t e = inl (o, v.inside o ∙ ==_refl o)

-- In every reachable state in which a thread sleeps for the lock, some thread is between taking the
-- semaphore and giving it back, or is awake in lock_acquire() and about to test the value.
pub no_lost_wakeup :
    {s : System}
    → Reach s
    → (t : ℕ) → s.place t ≡ asleep
    → ((u : ℕ) × (is_inside (s.place u) ≡ true)) ⊎ ((u : ℕ) × (s.place u ≡ downing))
unfolding Served
no_lost_wakeup r t e = let (owner, v) = Reach-LockInv r in sleeper-Served owner v t e

-- In every reachable state the next step of a thread that does not sleep exists: no assertion of the
-- lock's operations fails, and none of sema_up()'s thread_unblock().
pub never_fails :
    {s : System}
    → Reach s
    → (t : ℕ) (call : Call) → s.place t ≢ asleep
    → (s' : System) × (step s t call ≡ some s')
unfolding Stepped
never_fails r t call awake =
    let (owner, v) = Reach-LockInv r in
    elim (step-Stepped owner v t call) [
      | inl (e, _) ↦ elim (awake e) [ ]
      | inr (s', e, _, _) ↦ (s', e)
    ]
