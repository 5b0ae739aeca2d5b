-- ===== src/HashTable/Fnv.antt =====
-- lib/kernel/hash.c: hash_string() against hash_bytes().
use turbo_baker.Prelude.{ℕ, zero, suc, ◌+◌, ◌<◌, ◌≡◌, refl, ap, ◌∙◌, ◌≢◌, some, arith, ne→==, Mem}
use turbo_baker.HashTable.{fnv_step, fnv_32_basis, bytes_loop, string_loop, hash_bytes, hash_string}

string_loop_lem :
    (fuel : ℕ) (m : Mem) (s n hash : ℕ)
    → n < fuel
    → ((i : ℕ) → i < n → m (s + i) ≢ 0)
    → m (s + n) ≡ 0
    → string_loop fuel m s hash ≡ some (bytes_loop n m s hash)
unfolding string_loop bytes_loop
string_loop_lem zero m s n hash f h e = absurd (omega arith)
string_loop_lem (suc fuel) m s zero hash f h e =
    let at : m s ≡ 0 = ap (λ (a : ℕ). m a) (omega arith) ∙ e in rw at refl
string_loop_lem (suc fuel) m s (suc n) hash f h e =
    let at : m s ≢ 0 = λ z. h 0 (omega arith) (ap (λ (a : ℕ). m a) (omega arith) ∙ z) in
    rw (ne→== (m s) 0 at) (
      string_loop_lem fuel m (s + 1) n (fnv_step hash (m s)) (omega arith)
        (λ i l z. h (suc i) (omega arith) (ap (λ (a : ℕ). m a) (omega arith) ∙ z))
        (ap (λ (a : ℕ). m a) (omega arith) ∙ e))

-- With fuel above the length.
pub hash_string-hash_bytes :
    (fuel : ℕ) (m : Mem) (s n : ℕ)
    → n < fuel
    → ((i : ℕ) → i < n → m (s + i) ≢ 0)
    → m (s + n) ≡ 0
    → hash_string fuel m s ≡ hash_bytes m s n
unfolding hash_string hash_bytes
hash_string-hash_bytes fuel m s n f h e = rw (string_loop_lem fuel m s n fnv_32_basis f h e) refl
