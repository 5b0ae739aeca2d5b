-- ===== src/HashTable/Iterate.antt =====
-- lib/kernel/hash.c: the iteration by hash_first() and hash_next(), and hash_apply().
use turbo_baker.Prelude.{
  ℕ, zero, suc, ◌+◌, ◌-◌, ◌≤◌, ◌<◌, ◌≡◌, refl, sym, ap, ◌∙◌, subst, inl, inr, Bool, Option, none,
  some, List, [], ◌∷◌, ◌++◌, arith, leb, leb→le, leb→gt, Bool-cases, length, get_or,
}
use turbo_baker.HashTable.Find.{Respects, count_alike}
use turbo_baker.HashTable.Buckets.{IsValid}
use turbo_baker.HashTable.Rehash.{flat_lem}
use turbo_baker.HashTable.{
  Hash, Iterator, find_elem, find_bucket, hash_find, clear_buckets, hash_first, next_loop,
  hash_next, hash_apply,
}

-- `while (hash_next (&i)) …`, for at most so many turns: the elements, in order.
pub iterate : (turns : ℕ) → Hash → Iterator → List ℕ
iterate zero h i = []
iterate (suc turns) h i =
    let (e, i') = hash_next h i in elim e [ none ↦ [] | some x ↦ x ∷ iterate turns h i' ]

-- What the buckets from `b` on hold.
from : List (List ℕ) → ℕ → List ℕ
from [] b = []
from (x ∷ xs) zero = clear_buckets (x ∷ xs)
from (x ∷ xs) (suc b) = from xs b

from-zero : (xs : List (List ℕ)) → from xs 0 ≡ clear_buckets xs
unfolding from clear_buckets
from-zero [] = refl
from-zero (x ∷ xs) = refl

from_step :
    (xs : List (List ℕ)) (b : ℕ) → b < length xs → from xs b ≡ get_or xs b [] ++ from xs (suc b)
unfolding from clear_buckets
from_step [] b h = absurd (omega arith)
from_step (x ∷ xs) zero h = ap (λ (r : List ℕ). x ++ r) (sym (from-zero xs))
from_step (x ∷ xs) (suc b) h = from_step xs b (omega arith)

from_end : (xs : List (List ℕ)) (b : ℕ) → length xs ≤ b → from xs b ≡ []
unfolding from
from_end [] b h = refl
from_end (x ∷ xs) zero h = absurd (omega arith)
from_end (x ∷ xs) (suc b) h = from_end xs b (omega arith)

-- What hash_next() returns where `rest` is left.
abbrev Next : Hash → List ℕ → Option ℕ × Iterator → Type 0
Next h [] out = out.0 ≡ none
Next h (x ∷ xs) out =
    (out.0 ≡ some x)
    × (out.1.bucket < h.bucket_cnt)
    × (out.1.ahead ++ from h.buckets (suc out.1.bucket) ≡ xs)

iterate-none :
    (turns : ℕ) (h : Hash) (i : Iterator) → (hash_next h i).0 ≡ none → iterate (suc turns) h i ≡ []
unfolding iterate
iterate-none turns h i e = rw (e, iterate) refl

iterate-some :
    (turns : ℕ) (h : Hash) (i : Iterator) (x : ℕ)
    → (hash_next h i).0 ≡ some x
    → iterate (suc turns) h i ≡ x ∷ iterate turns h (hash_next h i).1
unfolding iterate
iterate-some turns h i x e = rw (e, iterate) refl

module _ (h : Hash) (width : length h.buckets ≡ h.bucket_cnt) where
  next_loop_lem :
      (fuel b : ℕ) (ahead : List ℕ)
      → b < h.bucket_cnt
      → h.bucket_cnt - b < fuel
      → Next h (ahead ++ from h.buckets (suc b)) (next_loop fuel h b ahead)
  unfolding next_loop
  next_loop_lem zero b ahead l f = absurd (omega arith)
  next_loop_lem (suc fuel) b (e ∷ es) l f = (refl, l, refl)
  next_loop_lem (suc fuel) b [] l f = elim (Bool-cases (leb h.bucket_cnt (b + 1))) [
    | inl last_one ↦
        rw
          (
            from_end h.buckets (suc b) (omega (arith, leb→le h.bucket_cnt (b + 1) last_one, width)),
            last_one,
          )
          refl
    | inr more ↦
        let inside : suc b < h.bucket_cnt = omega (arith, leb→gt h.bucket_cnt (b + 1) more) in
        let ih = next_loop_lem fuel (suc b) (get_or h.buckets (suc b) []) inside (omega arith) in
        let same : b + 1 ≡ suc b = omega arith in
        rw (from_step h.buckets (suc b) (omega (arith, width)), more, same) ih
  ]

  iterate_lem :
      (turns : ℕ) (i : Iterator) (rest : List ℕ)
      → i.bucket < h.bucket_cnt
      → i.ahead ++ from h.buckets (suc i.bucket) ≡ rest
      → length rest < turns
      → iterate turns h i ≡ rest
  unfolding hash_next
  iterate_lem zero i rest l e n = absurd (omega arith)
  iterate_lem (suc turns) i [] l e n =
      let out = next_loop_lem (suc h.bucket_cnt) i.bucket i.ahead l (omega arith) in
      iterate-none turns h i
        (subst (λ (r : List ℕ). Next h r (next_loop (suc h.bucket_cnt) h i.bucket i.ahead)) e out)
  iterate_lem (suc turns) i (x ∷ xs) l e n =
      let out = next_loop_lem (suc h.bucket_cnt) i.bucket i.ahead l (omega arith) in
      let (got, l', e') =
        subst (λ (r : List ℕ). Next h r (next_loop (suc h.bucket_cnt) h i.bucket i.ahead)) e out in
      iterate-some turns h i x got
      ∙ ap (λ (r : List ℕ). x ∷ r)
          (iterate_lem turns (next_loop (suc h.bucket_cnt) h i.bucket i.ahead).1 xs l' e'
            (omega (arith, n)))

  -- hash_first() and hash_next().
  pub iterate-hash_first :
      (turns : ℕ)
      → 0 < h.bucket_cnt
      → length (hash_apply h) < turns
      → iterate turns h (hash_first h) ≡ hash_apply h
  unfolding hash_first hash_apply
  iterate-hash_first turns p n =
      iterate_lem turns (hash_first h) (clear_buckets h.buckets) p
        (sym (from_step h.buckets 0 (omega (arith, width))) ∙ from-zero h.buckets) n

module _ (hash : ℕ → ℕ) (less : ℕ → ℕ → Bool) (r : Respects hash less) (h : Hash)
    (v : IsValid hash less r h) where
  hash_apply-length : length (hash_apply h) ≡ h.elem_cnt
  unfolding hash_apply
  hash_apply-length = v.counted

  -- In a well-formed table, more turns of hash_next() from hash_first() than there are elements
  -- yield the elements that hash_apply() visits, in its order and as many as hash_size() says; no
  -- two are equal, and a search among them finds what hash_find() finds.
  pub iterate-hash_find :
      (turns : ℕ)
      → h.elem_cnt < turns
      → let es = iterate turns h (hash_first h) in
        (es ≡ hash_apply h)
        × (length es ≡ h.elem_cnt)
        × ((q : ℕ) → find_elem less es q ≡ hash_find hash less h q)
        × ((q : ℕ) → count_alike hash less r q es ≤ 1)
  unfolding hash_find hash_apply
  iterate-hash_find turns n =
      let flat = λ (q : ℕ).
        flat_lem hash less r q h.buckets (find_bucket hash h.bucket_cnt q)
          (λ i ne. (v.placed q i).1 ne) in
      rw (iterate-hash_first h v.width turns v.positive (omega (arith, hash_apply-length))) (
        refl,
        v.counted,
        (λ q. (flat q).1),
        (λ q. omega (arith, (flat q).0, (v.placed q (find_bucket hash h.bucket_cnt q)).0)),
      )
