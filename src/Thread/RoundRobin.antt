-- ===== src/Thread/RoundRobin.antt =====
-- threads/thread.c: the order in which thread_yield() serves the ready list.
use turbo_baker.Prelude.{
  ℕ, zero, suc, ◌≡◌, refl, sym, ap, ◌∙◌, subst, inl, inr, Option, none, some, List, [], ◌∷◌, ◌++◌,
  ◌==◌, Bool-cases, ◌>>=◌,
}
use turbo_baker.Thread.{Kernel, next_thread_to_run, thread_yield}
use turbo_baker.Thread.Inv.{Inv}
use turbo_baker.Thread.Steps.{requeue, yielding, thread_yield-Switched}

-- Each running thread in turn calls thread_yield().
pub yields : ℕ → Kernel → Option Kernel
yields zero k = some k
yields (suc n) k = thread_yield k >>= yields n

unfoldable pub get_elem? : List ℕ → ℕ → Option ℕ
get_elem? [] i = none
get_elem? (x ∷ xs) zero = some x
get_elem? (x ∷ xs) (suc i) = get_elem? xs i

get_elem?-append :
    (xs ys : List ℕ) (i t : ℕ) → get_elem? xs i ≡ some t → get_elem? (xs ++ ys) i ≡ some t
unfolding get_elem?
get_elem?-append [] ys i t e = cc
get_elem?-append (x ∷ xs) ys zero t e = e
get_elem?-append (x ∷ xs) ys (suc i) t e = get_elem?-append xs ys i t e

requeue-get :
    (k : Kernel) (i t : ℕ) → get_elem? k.ready_list i ≡ some t → get_elem? (requeue k) i ≡ some t
unfolding requeue
requeue-get k i t e = elim (Bool-cases (k.current == k.idle_thread)) [
  | inl idle ↦ rw idle e
  | inr busy ↦ rw busy (get_elem?-append k.ready_list (k.current ∷ []) i t e)
]

-- The head of the list runs next, and every other entry moves up by one.
next-head :
    (idle : ℕ) (xs : List ℕ) (t : ℕ) → get_elem? xs 0 ≡ some t → (next_thread_to_run idle xs).0 ≡ t
unfolding next_thread_to_run get_elem?
next-head idle [] t e = cc
next-head idle (x ∷ xs) t e = cc

next-tail :
    (idle : ℕ) (xs : List ℕ) (i t : ℕ)
    → get_elem? xs (suc i) ≡ some t
    → get_elem? (next_thread_to_run idle xs).1 i ≡ some t
unfolding next_thread_to_run get_elem?
next-tail idle [] i t e = cc
next-tail idle (x ∷ xs) i t e = e

-- In a well-formed kernel, the thread at position i of the ready list is the current thread after
-- each running thread in turn has called thread_yield(), i + 1 calls in all; the calls succeed,
-- and the kernel is then well formed.
pub yields-served :
    (i : ℕ) {k : Kernel}
    → Inv k
    → (t : ℕ) → get_elem? k.ready_list i ≡ some t
    → (k' : Kernel) × (yields (suc i) k ≡ some k') × (k'.current ≡ t) × Inv k'
unfolding yields yielding
yields-served zero {k} v t e =
    let (k', y, s) = thread_yield-Switched v in
    (
      k',
      rw y refl,
      ap (λ p. p.0) s.picked ∙ next-head k.idle_thread (requeue k) t (requeue-get k 0 t e),
      s.inv,
    )
yields-served (suc i) {k} v t e =
    let (k', y, s) = thread_yield-Switched v in
    let moved : get_elem? k'.ready_list i ≡ some t =
      subst (λ xs. get_elem? xs i ≡ some t) (sym (ap (λ p. p.1) s.picked))
        (next-tail k.idle_thread (requeue k) i t (requeue-get k (suc i) t e)) in
    let (k₂, ys, c, v₂) = yields-served i s.inv t moved in (k₂, rw y ys, c, v₂)
