-- ===== src/Search.antt =====
-- lib/stdlib.c: binary_search() of an array in memory.
-- The comparison of the key with an element is a parameter, as a function of the element's bytes.
-- A null pointer is `none`; addresses do not wrap around.
pub mod Found
pub mod Tests
use turbo_baker.Prelude.{
  ℕ, zero, suc, ◌+◌, ◌-◌, ◌*◌, ◌/◌, ◌%◌, ◌^◌, ◌≤◌, ◌<◌, min, max, ◌≡◌, refl, sym, ap, ◌∙◌, subst,
  fun_ext, ◌≢◌, ◌↔◌, ◌⊎◌, inl, inr, Bool, true, false, not, ◌&&◌, ◌||◌, Option, none, some, List,
  [], ◌∷◌, ◌++◌, map, arith, ltb, leb, ◌==◌, if◌then◌else◌, same_bool, ltb→lt, ltb→ge, leb→le,
  leb→gt, ==→eq, ==→ne, ne→==, ==_refl, tests, Bool-cases, Option-cases, length, get_or, set,
  replicate, length-append, length-set, length-replicate, get_or-set_self, get_or-set_ne, Mem,
  write, within, ◌>>=◌, is_some, true_ne_false, count, count-append,
}
use turbo_baker.Str.Block.{Cmp, less, equal, greater}
use turbo_baker.Sort.{Element, element}

-- The loop between `first` and `last`; `none` is out of fuel.
search_loop :
    (compare : Element → Cmp) (limit : ℕ) → Mem → (size first last : ℕ) → Option (Option ℕ)
search_loop compare zero m size first last = none
search_loop compare (suc limit) m size first last =
    let range = (last - first) / size in
    let middle = first + range / 2 * size in
    let lower = search_loop compare limit m size first middle in
    let upper = search_loop compare limit m size (middle + size) last in
    if ltb first last
    then elim (compare (element m middle size)) [
      | less ↦ lower
      | greater ↦ upper
      | equal ↦ some (some middle)
    ]
    else some none

pub binary_search : (compare : Element → Cmp) → Mem → (array cnt size : ℕ) → Option (Option ℕ)
unfolding search_loop
binary_search compare m array cnt size =
    search_loop compare (cnt + 1) m size array (array + size * cnt)
