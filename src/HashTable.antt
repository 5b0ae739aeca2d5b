-- ===== src/HashTable.antt =====
-- lib/kernel/hash.c: the hash table. An element is an address and 0 is NULL. The buckets are
-- lists of KernelList, held here as the sequences that those hold.
-- The table's `hash` and `less`, with their AUX argument, are parameters; so is, at each call that
-- may allocate, whether malloc() grants it.
pub mod Find
pub mod Buckets
pub mod Move
pub mod Rehash
pub mod Laws
pub mod Views
pub mod Iterate
pub mod Fnv
pub mod Tests
use turbo_baker.Prelude.{
  ℕ, zero, suc, ◌+◌, ◌-◌, ◌*◌, ◌/◌, ◌%◌, ◌^◌, ◌≤◌, ◌<◌, min, max, ◌≡◌, refl, sym, ap, ◌∙◌, subst,
  fun_ext, ◌≢◌, ◌↔◌, ◌⊎◌, inl, inr, Bool, true, false, not, ◌&&◌, ◌||◌, Option, none, some, List,
  [], ◌∷◌, ◌++◌, map, arith, ltb, leb, ◌==◌, if◌then◌else◌, same_bool, ltb→lt, ltb→ge, leb→le,
  leb→gt, ==→eq, ==→ne, ne→==, ==_refl, tests, Bool-cases, Option-cases, length, get_or, set,
  replicate, length-append, length-set, length-replicate, get_or-set_self, get_or-set_ne, Mem,
  write, within, ◌>>=◌, is_some, true_ne_false, count, count-append,
}
use Prim.Native.Nat.{bit_and, bit_xor}
use turbo_baker.Bitmap.{assert}

pub record Hash : Type 0 where
  pub elem_cnt : ℕ
  pub bucket_cnt : ℕ
  pub buckets : List (List ℕ)

-- `x - 1` on size_t.
abbrev pub pred32 : ℕ → ℕ
pred32 x = (x + 2 ^ 32 - 1) % 2 ^ 32

pub turn_off_least_1bit : ℕ → ℕ
turn_off_least_1bit x = bit_and x (pred32 x)

pub is_power_of_2 : ℕ → Bool
is_power_of_2 x = not (x == 0) && (turn_off_least_1bit x == 0)

-- The loop of rehash() that rounds the number of buckets down. The fuel is above `n`.
pub round_down : (fuel : ℕ) → ℕ → ℕ
round_down zero n = n
round_down (suc fuel) n =
    let rest = round_down fuel (turn_off_least_1bit n) in if not (is_power_of_2 n) then rest else n

pub new_bucket_cnt : Hash → ℕ
new_bucket_cnt h =
    let n = h.elem_cnt / 2 in let least = (if ltb n 4 then 4 else n) in round_down (suc least) least

-- `list_remove (&e->list_elem)`, on the bucket that holds `e`.
unfoldable pub take_out : ℕ → List ℕ → List ℕ
take_out e [] = []
take_out e (x ∷ xs) = if e == x then xs else x ∷ take_out e xs

pub remove_elem : Hash → ℕ → Hash
remove_elem h e = record h { elem_cnt = pred32 h.elem_cnt; buckets = map (take_out e) h.buckets }

pub insert_elem : Hash → (bucket e : ℕ) → Hash
insert_elem h bucket e = record h {
  elem_cnt = (h.elem_cnt + 1) % 2 ^ 32;
  buckets = set h.buckets bucket (e ∷ get_or h.buckets bucket []);
}

pub list_inits : ℕ → List (List ℕ)
list_inits n = replicate n []

pub hash_init : (granted : Bool) → Option Hash
hash_init granted =
    if granted then some (record { elem_cnt = 0; bucket_cnt = 4; buckets = list_inits 4 }) else none

-- hash_clear(), with the elements in the order in which the destructor is called for them.
pub clear_buckets : List (List ℕ) → List ℕ
clear_buckets [] = []
clear_buckets (b ∷ bs) = b ++ clear_buckets bs

pub hash_clear : Hash → List ℕ × Hash
hash_clear h =
    (clear_buckets h.buckets, record h { elem_cnt = 0; buckets = list_inits h.bucket_cnt })

pub hash_size : Hash → ℕ
hash_size h = h.elem_cnt

pub hash_empty : Hash → Bool
hash_empty h = h.elem_cnt == 0

module _ (less : ℕ → ℕ → Bool) where
  -- Two elements are equal to the table when neither is less.
  abbrev pub alike : ℕ → ℕ → Bool
  alike x e = not (less x e) && not (less e x)

  pub find_elem : List ℕ → ℕ → Option ℕ
  find_elem [] e = none
  find_elem (hi ∷ his) e = if alike hi e then some hi else find_elem his e

module _ (hash : ℕ → ℕ) where
  pub find_bucket : (bucket_cnt : ℕ) → ℕ → ℕ
  find_bucket bucket_cnt e = bit_and (hash e) (pred32 bucket_cnt)

  -- The bucket that `e` belongs in.
  abbrev pub bucket_of : Hash → ℕ → List ℕ
  bucket_of h e = get_or h.buckets (find_bucket h.bucket_cnt e) []

  pub move_bucket : (bucket_cnt : ℕ) → List ℕ → List (List ℕ) → List (List ℕ)
  move_bucket n [] new = new
  move_bucket n (e ∷ es) new =
      let i = find_bucket n e in move_bucket n es (set new i (e ∷ get_or new i []))

  pub move_all : (bucket_cnt : ℕ) → List (List ℕ) → List (List ℕ) → List (List ℕ)
  move_all n [] new = new
  move_all n (b ∷ bs) new = move_all n bs (move_bucket n b new)

  pub rehash : (granted : Bool) → Hash → Hash
  rehash granted h =
      let n = new_bucket_cnt h in
      if n == h.bucket_cnt
      then h
      else if not granted
      then h
      else record h { bucket_cnt = n; buckets = move_all n h.buckets (list_inits n) }

module _ (hash : ℕ → ℕ) (less : ℕ → ℕ → Bool) where
  pub hash_find : Hash → ℕ → Option ℕ
  hash_find h e = find_elem less (bucket_of hash h e) e

  pub hash_insert : (granted : Bool) → Hash → ℕ → Option ℕ × Hash
  hash_insert granted h new =
      let old = find_elem less (bucket_of hash h new) new in
      let h' : Hash = elim old [
        | none ↦ insert_elem h (find_bucket hash h.bucket_cnt new) new
        | some x ↦ h
      ] in
      (old, rehash hash granted h')

  pub hash_replace : (granted : Bool) → Hash → ℕ → Option ℕ × Hash
  hash_replace granted h new =
      let old = find_elem less (bucket_of hash h new) new in
      let h' : Hash = elim old [ none ↦ h | some x ↦ remove_elem h x ] in
      (old, rehash hash granted (insert_elem h' (find_bucket hash h.bucket_cnt new) new))

  pub hash_delete : (granted : Bool) → Hash → ℕ → Option ℕ × Hash
  hash_delete granted h e =
      let found = find_elem less (bucket_of hash h e) e in
      (found, elim found [ none ↦ h | some x ↦ rehash hash granted (remove_elem h x) ])

-- An iterator: the bucket, and what is left of it from the current element on; before the first
-- hash_next() the current element is the head of the bucket's list.
pub record Iterator : Type 0 where
  pub bucket : ℕ
  pub elem : Option ℕ
  pub ahead : List ℕ

pub hash_first : Hash → Iterator
hash_first h = record { bucket = 0; elem = none; ahead = get_or h.buckets 0 [] }

-- The loop of hash_next(), at a bucket of which `ahead` is left.
pub next_loop : (fuel : ℕ) → Hash → (bucket : ℕ) → List ℕ → Option ℕ × Iterator
next_loop zero h bucket ahead = (none, record { bucket = bucket; elem = none; ahead = ahead })
next_loop (suc fuel) h bucket (e ∷ es) =
    (some e, record { bucket = bucket; elem = some e; ahead = es })
next_loop (suc fuel) h bucket [] =
    let rest = next_loop fuel h (bucket + 1) (get_or h.buckets (bucket + 1) []) in
    if leb h.bucket_cnt (bucket + 1)
    then (none, record { bucket = bucket + 1; elem = none; ahead = [] })
    else rest

pub hash_next : Hash → Iterator → Option ℕ × Iterator
hash_next h i = next_loop (suc h.bucket_cnt) h i.bucket i.ahead

pub hash_cur : Iterator → Option ℕ
hash_cur i = i.elem

-- hash_apply(), as the elements in the order in which ACTION is called for them.
pub hash_apply : Hash → List ℕ
hash_apply h = clear_buckets h.buckets

abbrev pub fnv_32_prime : ℕ
fnv_32_prime = 16777619

abbrev pub fnv_32_basis : ℕ
fnv_32_basis = 2166136261

pub fnv_step : ℕ → ℕ → ℕ
fnv_step hash byte = bit_xor ((hash * fnv_32_prime) % 2 ^ 32) byte

pub bytes_loop : (size : ℕ) → Mem → (buf hash : ℕ) → ℕ
bytes_loop zero m buf hash = hash
bytes_loop (suc size) m buf hash = bytes_loop size m (buf + 1) (fnv_step hash (m buf))

pub hash_bytes : Mem → (buf size : ℕ) → Option ℕ
hash_bytes m buf size = assert (not (buf == 0)) (some (bytes_loop size m buf fnv_32_basis))

-- `none`: the fuel is used up.
pub string_loop : (fuel : ℕ) → Mem → (s hash : ℕ) → Option ℕ
string_loop zero m s hash = none
string_loop (suc fuel) m s hash =
    let rest = string_loop fuel m (s + 1) (fnv_step hash (m s)) in
    if not (m s == 0) then rest else some hash

pub hash_string : (fuel : ℕ) → Mem → ℕ → Option ℕ
hash_string fuel m s = assert (not (s == 0)) (string_loop fuel m s fnv_32_basis)

-- `i` as an unsigned number, stored at `at` with its low byte first.
pub hash_int : (at i : ℕ) → Option ℕ
hash_int at i = hash_bytes (λ a. (i / 256 ^ (a - at)) % 256) at 4
