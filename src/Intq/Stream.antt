-- ===== src/Intq/Stream.antt =====
-- devices/intq.c: bytes that are put into the queue and taken out.
use turbo_baker.Prelude.{
  ℕ, zero, suc, ◌+◌, ◌≤◌, ◌<◌, ◌≡◌, refl, sym, ◌∙◌, subst, List, [], ◌∷◌, ◌++◌, arith, length,
  length-append,
}
use turbo_baker.Intq.{Intq, Turn, done, sleeps, intq_getc, intq_putc}
use turbo_baker.Intq.Fifo.{
  IsIntq, contents, PutcOutcome, GetcOutcome, intq_putc-PutcOutcome, intq_getc-GetcOutcome,
}

after : {A : Type 0} → Turn A → Intq
after (done a woken q) = q
after (sleeps q) = q

-- The bytes added one after the other.
pub put_all : Intq → List ℕ → Intq
unfolding after
put_all q [] = q
put_all q (b ∷ bs) = put_all (after (intq_putc q 0 b)) bs

-- What intq_getc() returns when it is called `n` times, up to a call that sleeps.
pub get_all : ℕ → Intq → List ℕ
get_all zero q = []
get_all (suc n) q = elim (intq_getc q 0) [
  | sleeps q' ↦ []
  | done byte woken q' ↦ byte ∷ get_all n q'
]

append_assoc : (xs : List ℕ) (y : ℕ) (ys : List ℕ) → (xs ++ (y ∷ [])) ++ ys ≡ xs ++ (y ∷ ys)
append_assoc [] y ys = refl
append_assoc (x ∷ xs) y ys = rw (append_assoc xs y ys) refl

append_none : (xs : List ℕ) → xs ++ [] ≡ xs
append_none [] = refl
append_none (x ∷ xs) = rw (append_none xs) refl

put-after :
    (q : Intq) (b : ℕ) (r : Turn Unit)
    → PutcOutcome q 0 b r
    → length (contents q) < 63
    → (contents (after r) ≡ contents q ++ (b ∷ [])) × IsIntq (after r)
unfolding PutcOutcome after
put-after q b (done _ woken q') (_, c, _, _, v) h = (c, v)
put-after q b (sleeps q') (full, _, _, _) h = absurd (omega (arith, full))

put_all-contents :
    (bs : List ℕ) {q : Intq}
    → IsIntq q
    → length (contents q) + length bs ≤ 63
    → (contents (put_all q bs) ≡ contents q ++ bs) × IsIntq (put_all q bs)
unfolding put_all
put_all-contents [] {q} v h = (sym (append_none (contents q)), v)
put_all-contents (b ∷ bs) {q} v h =
    let (c, w) = put-after q b (intq_putc q 0 b) (intq_putc-PutcOutcome v 0 b) (omega arith) in
    let (d, u) =
      put_all-contents bs w (rw c (omega (arith, length-append (contents q) (b ∷ [])))) in
    (d ∙ rw c (append_assoc (contents q) b bs), u)

got :
    (q : Intq) (x n : ℕ) (xs : List ℕ) (r : Turn ℕ)
    → GetcOutcome q 0 r
    → contents q ≡ x ∷ xs
    → ((q' : Intq) → IsIntq q' → contents q' ≡ xs → get_all n q' ≡ xs)
    → elim r [ sleeps q' ↦ [] | done byte woken q' ↦ byte ∷ get_all n q' ] ≡ x ∷ xs
unfolding GetcOutcome
got q x n xs (sleeps q') (empty, _, _, _) e ih = cc
got q x n xs (done byte woken q') (c, _, _, v) e ih =
    let same : byte ∷ contents q' ≡ x ∷ xs = sym c ∙ e in
    let tails : contents q' ≡ xs = cc in let heads : byte ≡ x = cc in rw (ih q' v tails, heads) refl

get_all-contents :
    (xs : List ℕ) (q : Intq) → IsIntq q → contents q ≡ xs → get_all (length xs) q ≡ xs
unfolding get_all
get_all-contents [] q v e = refl
get_all-contents (x ∷ xs) q v e =
    got q x (length xs) xs (intq_getc q 0) (intq_getc-GetcOutcome v 0) e (get_all-contents xs)

-- If bytes are added by intq_putc() to a well-formed queue that has room for all of them, then as
-- many calls of intq_getc() as there are bytes return what the queue held and then the new bytes,
-- in order.
pub get_all-put_all :
    {q : Intq} (bs : List ℕ)
    → IsIntq q
    → length (contents q) + length bs ≤ 63
    → get_all (length (contents q) + length bs) (put_all q bs) ≡ contents q ++ bs
get_all-put_all {q} bs v h =
    let (c, w) = put_all-contents bs v h in
    subst (λ n. get_all n (put_all q bs) ≡ contents q ++ bs) (length-append (contents q) bs)
      (get_all-contents (contents q ++ bs) (put_all q bs) w c)
