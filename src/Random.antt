-- ===== src/Random.antt =====
-- src/random.hpp and random.cc: filling a buffer from a generator. The generator's words are a parameter:
-- `next k j` is byte `j` of the word that the call number `k` of `next()` gives, of four bytes.
use indecorous.Base.{
  ℕ, zero, suc, ◌+◌, ◌-◌, ◌/◌, ◌%◌, ◌≤◌, ◌<◌, ◌≡◌, refl, List, [], ◌∷◌, length, get_elem?, set,
  length-set, ltb, if◌then◌else◌, arith,
}

-- `sizeof(val_t)`, of a `std::random_device` and of a `std::mt19937` with 32 bits.
abbrev sizeof_val : ℕ
sizeof_val = 4

-- `memcpy(&buffer[i], &w.c[0], n)`
unfoldable pub copy : ℕ → ℕ → (ℕ → ℕ) → List ℕ → List ℕ
copy zero i w buffer = buffer
copy (suc n) i w buffer = set (copy n i w buffer) (i + n) (w n)

-- The loop of `fill_internal`, from the index `i` and the call `k` of the generator on: the calls made
-- so far, and the buffer. The fuel is the number of rounds that are left at most.
unfoldable pub fill_loop : ℕ → ℕ → ℕ → (ℕ → ℕ → ℕ) → List ℕ → ℕ × List ℕ
fill_loop zero i k next buffer = (k, buffer)
fill_loop (suc fuel) i k next buffer =
    let rest = fill_loop fuel (i + sizeof_val) (k + 1) next (copy sizeof_val i (next k) buffer) in
    if ltb i (length buffer / sizeof_val) then rest else (k, buffer)

-- `fill_internal`: the index grows in every round, so `length` rounds are enough.
unfoldable pub fill_internal : (ℕ → ℕ → ℕ) → List ℕ → List ℕ
unfolding fill_loop
fill_internal next buffer =
    let (k, filled) = fill_loop (length buffer) 0 0 next buffer in
    let remainder = length buffer % sizeof_val in
    if ltb 0 remainder then copy remainder (length buffer - remainder) (next k) filled else filled

-- `uuid_t::generate`: a buffer of sixteen bytes, as it stands, is filled.
unfoldable pub generate : (ℕ → ℕ → ℕ) → List ℕ → List ℕ
unfolding fill_internal
generate next buffer = fill_internal next buffer

get_elem?-set : (xs : List ℕ) (i j v : ℕ) → i < j → get_elem? (set xs i v) j ≡ get_elem? xs j
get_elem?-set [] i j v h = refl
get_elem?-set (x ∷ xs) zero zero v h = absurd (omega arith)
get_elem?-set (x ∷ xs) zero (suc j) v h = refl
get_elem?-set (x ∷ xs) (suc i) zero v h = absurd (omega arith)
get_elem?-set (x ∷ xs) (suc i) (suc j) v h = get_elem?-set xs i j v (omega arith)

length-copy : (n i : ℕ) (w : ℕ → ℕ) (buffer : List ℕ) → length (copy n i w buffer) ≡ length buffer
unfolding copy
length-copy zero i w buffer = refl
length-copy (suc n) i w buffer =
    omega (arith, length-set (copy n i w buffer) (i + n) (w n), length-copy n i w buffer)

get_elem?-copy :
    (n i j : ℕ) (w : ℕ → ℕ) (buffer : List ℕ)
    → i + n ≤ j
    → get_elem? (copy n i w buffer) j ≡ get_elem? buffer j
unfolding copy
get_elem?-copy zero i j w buffer h = refl
get_elem?-copy (suc n) i j w buffer h =
    rw (get_elem?-set (copy n i w buffer) (i + n) j (w n) (omega arith))
      (get_elem?-copy n i j w buffer (omega arith))

-- The bytes of a new uuid from the fourth on are what the memory held before, whatever the generator.
generate_unfilled :
    (next : ℕ → ℕ → ℕ) (buffer : List ℕ) (i : ℕ)
    → length buffer ≡ 16
    → 4 ≤ i
    → get_elem? (generate next buffer) i ≡ get_elem? buffer i
unfolding generate fill_internal fill_loop
generate_unfilled next buffer i sixteen h =
    rw (sixteen, length-copy sizeof_val 0 (next 0) buffer, sixteen)
      (get_elem?-copy 4 0 i (next 0) buffer h)
