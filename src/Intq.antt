-- ===== src/Intq.antt =====
-- devices/intq.c: the queue of bytes between an interrupt handler and the threads.
-- A turn of a loop runs with interrupts off and is one step. The queue's lock, which keeps a second
-- thread from waiting, and the assertions on the interrupt level are not modelled.
pub mod Fifo
pub mod Stream
pub mod Tests
use turbo_baker.Prelude.{
  ℕ, zero, suc, ◌+◌, ◌-◌, ◌*◌, ◌/◌, ◌%◌, ◌^◌, ◌≤◌, ◌<◌, min, max, ◌≡◌, refl, sym, ap, ◌∙◌, subst,
  fun_ext, ◌≢◌, ◌↔◌, ◌⊎◌, inl, inr, Bool, true, false, not, ◌&&◌, ◌||◌, Option, none, some, List,
  [], ◌∷◌, ◌++◌, map, arith, ltb, leb, ◌==◌, if◌then◌else◌, same_bool, ltb→lt, ltb→ge, leb→le,
  leb→gt, ==→eq, ==→ne, ne→==, ==_refl, tests, Bool-cases, Option-cases, length, get_or, set,
  replicate, length-append, length-set, length-replicate, get_or-set_self, get_or-set_ne, Mem,
  write, within, ◌>>=◌, is_some, true_ne_false, count, count-append,
}
use turbo_baker.Bitmap.{assert}

abbrev pub intq_bufsize : ℕ
intq_bufsize = 64

-- `none` is the null pointer.
pub record Intq : Type 0 where
  pub not_full : Option ℕ
  pub not_empty : Option ℕ
  pub buf : List ℕ
  pub head : ℕ
  pub tail : ℕ

-- What the code does in one turn: it takes or adds a byte, and unblocks a thread if one waited; or
-- it has put its own thread down as the waiter and is blocked.
pub data Turn (A : Type 0) : Type 0 where
  done : A → (woken : Option ℕ) → Intq → Turn A
  sleeps : Intq → Turn A

pub next : ℕ → ℕ
next pos = (pos + 1) % intq_bufsize

-- intq_init() of a queue that has these bytes in its buffer.
pub intq_init : List ℕ → Intq
intq_init buf = record { not_full = none; not_empty = none; buf = buf; head = 0; tail = 0 }

pub intq_empty : Intq → Bool
intq_empty q = q.head == q.tail

pub intq_full : Intq → Bool
unfolding next
intq_full q = next q.head == q.tail

-- One turn of intq_getc() by thread `t`.
pub intq_getc : Intq → (t : ℕ) → Turn ℕ
unfolding intq_empty next
intq_getc q t =
    if intq_empty q
    then sleeps (record q { not_empty = some t })
    else done (get_or q.buf q.tail 0) q.not_full (record q { tail = next q.tail; not_full = none })

-- One turn of intq_putc() by thread `t`.
pub intq_putc : Intq → (t byte : ℕ) → Turn Unit
unfolding intq_full next
intq_putc q t byte =
    if intq_full q
    then sleeps (record q { not_full = some t })
    else done tt q.not_empty
        (record q { buf = set q.buf q.head byte; head = next q.head; not_empty = none })
