-- ===== src/Intq/Fifo.antt =====
-- devices/intq.c: the ring buffer read as a queue of bytes.
use turbo_baker.Prelude.{
  ℕ, zero, suc, ◌+◌, ◌-◌, ◌%◌, ◌≤◌, ◌<◌, ◌≡◌, refl, ap, ◌∙◌, inl, inr, true, false, none, some,
  List, [], ◌∷◌, ◌++◌, arith, ◌==◌, ==→eq, ==→ne, Bool-cases, length, get_or, set, length-set,
  get_or-set_self, get_or-set_ne,
}
use turbo_baker.Intq.{
  intq_bufsize, Intq, Turn, done, sleeps, next, intq_empty, intq_full, intq_getc, intq_putc,
}

pub record IsIntq (q : Intq) : Type 0 where
  pub room : length q.buf ≡ intq_bufsize
  pub head_in : q.head < intq_bufsize
  pub tail_in : q.tail < intq_bufsize

-- The number of bytes in the queue, and the bytes, oldest first.
abbrev pub used : Intq → ℕ
used q = (q.head + intq_bufsize - q.tail) % intq_bufsize

unfoldable pub items : List ℕ → (pos n : ℕ) → List ℕ
unfolding next
items buf pos zero = []
items buf pos (suc n) = get_or buf pos 0 ∷ items buf (next pos) n

abbrev pub contents : Intq → List ℕ
contents q = items q.buf q.tail (used q)

next-lt : (pos : ℕ) → next pos < intq_bufsize
unfolding next
next-lt pos = omega arith

next-add : (pos n : ℕ) → (next pos + n) % intq_bufsize ≡ (pos + suc n) % intq_bufsize
unfolding next
next-add pos n = omega arith

next-room :
    (i n pos : ℕ)
    → pos < intq_bufsize
    → suc n ≤ (i + intq_bufsize - pos) % intq_bufsize
    → i < intq_bufsize
    → n ≤ (i + intq_bufsize - next pos) % intq_bufsize
unfolding next
next-room i n pos h r l = omega arith

suc_add : (n : ℕ) → suc n + 1 ≡ suc (n + 1)
suc_add n = omega arith

items-snoc :
    (buf : List ℕ) (n pos : ℕ)
    → pos < intq_bufsize
    → items buf pos (n + 1) ≡ items buf pos n ++ (get_or buf ((pos + n) % intq_bufsize) 0 ∷ [])
unfolding items next
items-snoc buf zero pos h = ap (λ i. get_or buf i 0 ∷ []) (omega arith)
items-snoc buf (suc n) pos h =
    rw (suc_add n, items-snoc buf n (next pos) (next-lt pos), next-add pos n) refl

items-set :
    (buf : List ℕ) (i v n pos : ℕ)
    → pos < intq_bufsize
    → n ≤ (i + intq_bufsize - pos) % intq_bufsize
    → i < intq_bufsize
    → items (set buf i v) pos n ≡ items buf pos n
unfolding items next
items-set buf i v zero pos h r l = refl
items-set buf i v (suc n) pos h r l =
    rw
      (
        get_or-set_ne buf i pos v 0 (omega arith),
        items-set buf i v n (next pos) (next-lt pos) (next-room i n pos h r l) l,
      )
      refl

-- What intq_putc() does: a full queue is left as it is and the thread sleeps, else the byte is
-- behind all others.
unfoldable pub PutcOutcome : Intq → (t byte : ℕ) → Turn Unit → Type 0
PutcOutcome q t byte (sleeps q') =
    (length (contents q) ≡ 63) × (contents q' ≡ contents q) × (q'.not_full ≡ some t) × IsIntq q'
PutcOutcome q t byte (done _ woken q') =
    (length (contents q) < 63)
    × (contents q' ≡ contents q ++ (byte ∷ []))
    × (woken ≡ q.not_empty)
    × (q'.not_empty ≡ none)
    × IsIntq q'

unfoldable pub GetcOutcome : Intq → (t : ℕ) → Turn ℕ → Type 0
GetcOutcome q t (sleeps q') =
    (contents q ≡ []) × (contents q' ≡ []) × (q'.not_empty ≡ some t) × IsIntq q'
GetcOutcome q t (done byte woken q') =
    (contents q ≡ byte ∷ contents q') × (woken ≡ q.not_full) × (q'.not_full ≡ none) × IsIntq q'

length-items : (buf : List ℕ) (pos n : ℕ) → length (items buf pos n) ≡ n
unfolding items
length-items buf pos zero = refl
length-items buf pos (suc n) = omega (arith, length-items buf (next pos) n)

-- How the number of bytes changes.
module _ {q : Intq} (v : IsIntq q) where
  used_full : (next q.head == q.tail) ≡ true → used q ≡ 63
  unfolding next
  used_full e = omega (arith, ==→eq (next q.head) q.tail e, v.head_in)

  used_empty : (q.head == q.tail) ≡ true → used q ≡ 0
  used_empty e = omega (arith, ==→eq q.head q.tail e)

  used_more :
      (next q.head == q.tail) ≡ false
      → ((next q.head + intq_bufsize - q.tail) % intq_bufsize ≡ used q + 1) × (used q < 63)
  unfolding next
  used_more e =
      let ne = ==→ne (next q.head) q.tail e in
      (omega (arith, ne, v.head_in, v.tail_in), omega (arith, ne, v.head_in, v.tail_in))

  used_less :
      (q.head == q.tail) ≡ false
      → used q ≡ suc ((q.head + intq_bufsize - next q.tail) % intq_bufsize)
  unfolding next
  used_less e = omega (arith, ==→ne q.head q.tail e, v.head_in, v.tail_in)

  head_at : (q.tail + used q) % intq_bufsize ≡ q.head
  head_at = omega (arith, v.head_in, v.tail_in)

  contents-put :
      (byte : ℕ)
      → (next q.head == q.tail) ≡ false
      → items (set q.buf q.head byte) q.tail ((next q.head + intq_bufsize - q.tail) % intq_bufsize)
        ≡ contents q ++ (byte ∷ [])
  contents-put byte e =
      let in_buf : q.head < length q.buf = omega (arith, v.room, v.head_in) in
      rw
        (
          (used_more e).0,
          items-snoc (set q.buf q.head byte) (used q) q.tail v.tail_in,
          head_at,
          get_or-set_self q.buf q.head byte 0 in_buf,
          items-set q.buf q.head byte (used q) q.tail v.tail_in (omega arith) v.head_in,
        )
        refl

  put-IsIntq :
      (byte : ℕ)
      → IsIntq (record q { buf = set q.buf q.head byte; head = next q.head; not_empty = none })
  put-IsIntq byte = record {
    room = length-set q.buf q.head byte ∙ v.room;
    head_in = next-lt q.head;
    tail_in = v.tail_in;
  }

-- One turn of intq_putc() on a well-formed queue: if the queue holds 63 bytes it is left as it is,
-- with the thread down as the waiter; else the byte stands behind the bytes the queue had, and the
-- thread that waited for a byte is unblocked and taken off.
pub intq_putc-PutcOutcome :
    {q : Intq} → IsIntq q → (t byte : ℕ) → PutcOutcome q t byte (intq_putc q t byte)
unfolding intq_putc intq_full PutcOutcome
intq_putc-PutcOutcome {q} v t byte = elim (Bool-cases (next q.head == q.tail)) [
  | inl e ↦ rw e (
    length-items q.buf q.tail (used q) ∙ used_full v e,
    refl,
    refl,
    record { room = v.room; head_in = v.head_in; tail_in = v.tail_in },
  )
  | inr e ↦ rw e (
    omega (arith, length-items q.buf q.tail (used q), (used_more v e).1),
    contents-put v byte e,
    refl,
    refl,
    put-IsIntq v byte,
  )
]

-- One turn of intq_getc() on a well-formed queue: if the queue is empty it stays so, with the
-- thread down as the waiter; else the oldest byte is returned and the others remain, in order, and
-- the thread that waited for room is unblocked and taken off.
pub intq_getc-GetcOutcome : {q : Intq} → IsIntq q → (t : ℕ) → GetcOutcome q t (intq_getc q t)
unfolding intq_getc intq_empty GetcOutcome items
intq_getc-GetcOutcome {q} v t = elim (Bool-cases (q.head == q.tail)) [
  | inl e ↦
      let empty : contents q ≡ [] = ap (items q.buf q.tail) (used_empty v e) in
      rw e (empty, empty, refl, record { room = v.room; head_in = v.head_in; tail_in = v.tail_in })
  | inr e ↦ rw e (
    ap (items q.buf q.tail) (used_less v e),
    refl,
    refl,
    record { room = v.room; head_in = v.head_in; tail_in = next-lt q.tail },
  )
]
