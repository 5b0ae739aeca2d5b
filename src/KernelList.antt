-- ===== src/KernelList.antt =====
-- lib/kernel/list.c: doubly linked lists that run through the elements they hold.
-- A list element is an address and 0 is NULL; `Links` holds the two pointers of every element. The
-- list at `l` has its head element at `l` and its tail element behind it. `none` is a failed
-- assertion, or a loop that has used up its fuel. `less` is the comparison with its AUX argument.
pub mod Chain
pub mod Detach
pub mod Attach
pub mod Positions
pub mod Ops
pub mod Ends
pub mod Splice
pub mod Steps
pub mod Less
pub mod Walk
pub mod Merge
pub mod Tests
use turbo_baker.Prelude.{
  ℕ, zero, suc, ◌+◌, ◌%◌, ◌^◌, Bool, true, false, not, ◌&&◌, ◌||◌, Option, none, some, ltb, ◌==◌,
  if◌then◌else◌, write, ◌>>=◌,
}
use turbo_baker.Bitmap.{assert}

-- `struct list_elem`, for every address.
pub record Links : Type 0 where
  pub prev : ℕ → ℕ
  pub next : ℕ → ℕ

-- `e->prev = v` and `e->next = v`.
abbrev pub set_prev : Links → ℕ → ℕ → Links
set_prev s e v = record s { prev = write s.prev e v }

abbrev pub set_next : Links → ℕ → ℕ → Links
set_next s e v = record s { next = write s.next e v }

-- `&list->tail`, behind the two pointers of the head.
abbrev pub tail_of : ℕ → ℕ
tail_of l = l + 8

pub is_head : Links → ℕ → Bool
is_head s e = not (e == 0) && ((s.prev e == 0) && not (s.next e == 0))

pub is_interior : Links → ℕ → Bool
is_interior s e = not (e == 0) && (not (s.prev e == 0) && not (s.next e == 0))

pub is_tail : Links → ℕ → Bool
is_tail s e = not (e == 0) && (not (s.prev e == 0) && (s.next e == 0))

pub list_init : ℕ → Links → Option Links
list_init l s = assert (not (l == 0)) (
    some (
      let s1 = set_prev s l 0 in
      let s2 = set_next s1 l (tail_of l) in
      let s3 = set_prev s2 (tail_of l) l in set_next s3 (tail_of l) 0))

pub list_begin : ℕ → Links → Option ℕ
list_begin l s = assert (not (l == 0)) (some (s.next l))

pub list_next : ℕ → Links → Option ℕ
unfolding is_head is_interior
list_next e s = assert (is_head s e || is_interior s e) (some (s.next e))

pub list_end : ℕ → Option ℕ
list_end l = assert (not (l == 0)) (some (tail_of l))

pub list_rbegin : ℕ → Links → Option ℕ
list_rbegin l s = assert (not (l == 0)) (some (s.prev (tail_of l)))

pub list_prev : ℕ → Links → Option ℕ
unfolding is_interior is_tail
list_prev e s = assert (is_interior s e || is_tail s e) (some (s.prev e))

pub list_rend : ℕ → Option ℕ
list_rend l = assert (not (l == 0)) (some l)

pub list_head : ℕ → Option ℕ
list_head l = assert (not (l == 0)) (some l)

pub list_tail : ℕ → Option ℕ
list_tail l = assert (not (l == 0)) (some (tail_of l))

-- The assignments that take FIRST through LAST out of their list.
pub detach : (first last : ℕ) → Links → Links
detach first last s =
    let s1 = set_next s (s.prev first) (s.next last) in set_prev s1 (s1.next last) (s1.prev first)

-- The assignments that put FIRST through LAST just before BEFORE.
pub attach : (before first last : ℕ) → Links → Links
attach before first last s =
    let s1 = set_prev s first (s.prev before) in
    let s2 = set_next s1 last before in
    let s3 = set_next s2 (s2.prev before) first in set_prev s3 before last

pub list_insert : (before elem : ℕ) → Links → Option Links
unfolding is_interior is_tail
list_insert before elem s =
    assert (is_interior s before || is_tail s before)
      (assert (not (elem == 0)) (some (attach before elem elem s)))

pub list_splice : (before first last : ℕ) → Links → Option Links
unfolding is_interior is_tail list_prev
list_splice before first last s = assert (is_interior s before || is_tail s before) (
    if first == last
    then some s
    else (list_prev last s >>= λ last'.
        assert (is_interior s first)
          (assert (is_interior s last') (some (attach before first last' (detach first last' s))))))

pub list_push_front : (l elem : ℕ) → Links → Option Links
unfolding list_begin list_insert
list_push_front l elem s = list_begin l s >>= λ before. list_insert before elem s

pub list_push_back : (l elem : ℕ) → Links → Option Links
unfolding list_end list_insert
list_push_back l elem s = list_end l >>= λ before. list_insert before elem s

pub list_remove : ℕ → Links → Option (ℕ × Links)
unfolding is_interior
list_remove elem s =
    assert (is_interior s elem) (let s' = detach elem elem s in some (s'.next elem, s'))

pub list_empty : ℕ → Links → Option Bool
unfolding list_begin list_end
list_empty l s = list_begin l s >>= λ b. list_end l >>= λ e. some (b == e)

pub list_front : ℕ → Links → Option ℕ
unfolding list_empty
list_front l s = list_empty l s >>= λ empty. assert (not empty) (some (s.next l))

pub list_back : ℕ → Links → Option ℕ
unfolding list_empty
list_back l s = list_empty l s >>= λ empty. assert (not empty) (some (s.prev (tail_of l)))

pub list_pop_front : ℕ → Links → Option (ℕ × Links)
unfolding list_front list_remove
list_pop_front l s = list_front l s >>= λ front. list_remove front s >>= λ r. some (front, r.1)

pub list_pop_back : ℕ → Links → Option (ℕ × Links)
unfolding list_back list_remove
list_pop_back l s = list_back l s >>= λ back. list_remove back s >>= λ r. some (back, r.1)
