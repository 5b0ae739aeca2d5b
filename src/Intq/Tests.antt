-- ===== src/Intq/Tests.antt =====
-- devices/intq.c at a queue whose positions wrap around.
use turbo_baker.Prelude.{
  ℕ, ◌+◌, ◌≡◌, refl, none, [], ◌∷◌, ◌++◌, arith, length, replicate, length-replicate,
}
use turbo_baker.Intq.{Intq, next}
use turbo_baker.Intq.Fifo.{IsIntq, items, contents}
use turbo_baker.Intq.Stream.{put_all, get_all, get_all-put_all}

-- Two bytes, at positions 62 and 63.
abbrev two : Intq
two = record { not_full = none; not_empty = none; buf = replicate 64 7; head = 0; tail = 62 }

two-IsIntq : IsIntq two
two-IsIntq = record {
  room = length-replicate {A = ℕ} 64 7;
  head_in = omega arith;
  tail_in = omega arith;
}

two_bytes : length (contents two) ≡ 2
unfolding items next
two_bytes = refl

get_all-put_all_example :
    get_all (length (contents two) + 3) (put_all two (1 ∷ 2 ∷ 3 ∷ []))
    ≡ contents two ++ (1 ∷ 2 ∷ 3 ∷ [])
get_all-put_all_example = get_all-put_all (1 ∷ 2 ∷ 3 ∷ []) two-IsIntq (omega (arith, two_bytes))
