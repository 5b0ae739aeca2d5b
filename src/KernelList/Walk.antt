-- ===== src/KernelList/Walk.antt =====
-- lib/kernel/list.c: the loops over a list: list_size(), list_reverse(), list_insert_ordered(),
-- list_unique(), list_max() and list_min(). Each takes fuel, one unit for a turn.
pub mod Size
pub mod Best
pub mod Place
pub mod Kept
pub mod Unique
pub mod Reverse
use turbo_baker.Prelude.{
  ℕ, zero, suc, ◌+◌, ◌%◌, ◌^◌, Bool, not, ◌&&◌, Option, none, some, ◌==◌, if◌then◌else◌, ◌>>=◌,
}
use turbo_baker.Bitmap.{assert}
use turbo_baker.KernelList.{
  Links, set_prev, set_next, tail_of, list_begin, list_next, list_end, list_insert, list_remove,
  list_push_back, list_empty,
}

pub size_loop : (fuel : ℕ) → Links → (end_ e cnt : ℕ) → Option ℕ
size_loop zero s end_ e cnt = none
size_loop (suc fuel) s end_ e cnt =
    let more = (list_next e s >>= λ e'. size_loop fuel s end_ e' ((cnt + 1) % 2 ^ 32)) in
    if e == end_ then some cnt else more

pub list_size : (fuel : ℕ) → ℕ → Links → Option ℕ
list_size fuel l s = list_begin l s >>= λ b. list_end l >>= λ end_. size_loop fuel s end_ b 0

-- `swap (&e->prev, &e->next)`.
abbrev pub swap_links : ℕ → Links → Links
swap_links e s = set_next (set_prev s e (s.next e)) e (s.prev e)

pub reverse_loop : (fuel : ℕ) → (end_ e : ℕ) → Links → Option Links
reverse_loop zero end_ e s = none
reverse_loop (suc fuel) end_ e s =
    let s' = swap_links e s in
    let more = reverse_loop fuel end_ (s'.prev e) s' in if e == end_ then some s else more

-- The two swaps behind the loop of list_reverse().
pub swap_ends : ℕ → Links → Links
swap_ends l s =
    let t = tail_of l in
    let s1 = set_prev (set_next s l (s.prev t)) t (s.next l) in
    let a = s1.next l in let b = s1.prev t in set_next (set_prev s1 a (s1.next b)) b (s1.prev a)

pub list_reverse : (fuel : ℕ) → ℕ → Links → Option Links
list_reverse fuel l s = list_empty l s >>= λ empty.
    if not empty
    then (list_begin l s >>= λ b.
        list_end l >>= λ end_. reverse_loop fuel end_ b s >>= λ s'. some (swap_ends l s'))
    else some s

-- A turn of list_unique() with equal neighbours. `duplicates` is 0 for a null pointer.
pub drop_next : (duplicates next : ℕ) → Links → Option Links
drop_next duplicates next s = list_remove next s >>= λ r.
    if not (duplicates == 0) then list_push_back duplicates next r.1 else some r.1

-- `less` is the comparison, with its auxiliary data.
module _ (less : ℕ → ℕ → Bool) where
  pub ordered_loop : (fuel : ℕ) → Links → (end_ elem e : ℕ) → Option ℕ
  ordered_loop zero s end_ elem e = none
  ordered_loop (suc fuel) s end_ elem e =
      let more = (list_next e s >>= λ e'. ordered_loop fuel s end_ elem e') in
      if e == end_ then some e else if less elem e then some e else more

  pub list_insert_ordered : (fuel : ℕ) → (l elem : ℕ) → Links → Option Links
  list_insert_ordered fuel l elem s = assert (not (l == 0)) (
      assert (not (elem == 0)) (
        list_begin l s >>= λ b.
        list_end l >>= λ end_. ordered_loop fuel s end_ elem b >>= λ e. list_insert e elem s))

  pub unique_loop : (fuel : ℕ) → (end_ duplicates elem : ℕ) → Links → Option Links
  unique_loop zero end_ duplicates elem s = none
  unique_loop (suc fuel) end_ duplicates elem s = list_next elem s >>= λ next.
      let same = (drop_next duplicates next s >>= λ s'. unique_loop fuel end_ duplicates elem s') in
      let other = unique_loop fuel end_ duplicates next s in
      if next == end_
      then some s
      else if not (less elem next) && not (less next elem)
      then same
      else other

  pub list_unique : (fuel : ℕ) → (l duplicates : ℕ) → Links → Option Links
  list_unique fuel l duplicates s = assert (not (l == 0)) (
      list_empty l s >>= λ empty.
      if empty
      then some s
      else (list_begin l s >>= λ b. list_end l >>= λ end_. unique_loop fuel end_ duplicates b s))

  -- `pick` tells whether `e` takes the place of the element found so far.
  pub best_loop : (pick : ℕ → ℕ → Bool) → (fuel : ℕ) → Links → (end_ best e : ℕ) → Option ℕ
  best_loop pick zero s end_ best e = none
  best_loop pick (suc fuel) s end_ best e =
      let more =
        (list_next e s >>= λ e'. best_loop pick fuel s end_ (if pick best e then e else best) e') in
      if e == end_ then some best else more

  pub list_best : (pick : ℕ → ℕ → Bool) → (fuel : ℕ) → ℕ → Links → Option ℕ
  list_best pick fuel l s = list_begin l s >>= λ best. list_end l >>= λ end_.
      if not (best == end_)
      then (list_next best s >>= λ e. best_loop pick fuel s end_ best e)
      else some best

  pub list_max : (fuel : ℕ) → ℕ → Links → Option ℕ
  list_max fuel l s = list_best (λ max e. less max e) fuel l s

  pub list_min : (fuel : ℕ) → ℕ → Links → Option ℕ
  list_min fuel l s = list_best (λ min e. less e min) fuel l s
