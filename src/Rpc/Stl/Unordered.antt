-- ===== src/Rpc/Stl/Unordered.antt =====
-- src/rpc/serialize_stl.hpp: `std::unordered_set`, `unordered_multiset`, `unordered_map` and
-- `unordered_multimap`. A table is the list that iterating over it visits. Where a new element is visited
-- is up to the table (`place`), and `same` is its equality (on a map, that of the keys).
pub mod Elements
use indecorous.Base.{ℕ, ◌+◌, Bool, List, [], ◌∷◌, ltb, if◌then◌else◌}
use indecorous.Rpc.Serializer.{Serializer}
use indecorous.Rpc.Stl.Sequence.{counted_size, counted_write, counted_read}
use indecorous.Rpc.Stl.Fixed.{pair}

-- How many elements pass a test.
abbrev pub count : {A : Type 0} → (A → Bool) → List A → ℕ
count p [] = 0
count p (x ∷ xs) = (if p x then 1 else 0) + count p xs

-- `emplace` on a table of unique elements: one that is there already is not inserted.
unfoldable pub emplace_distinct :
    {A : Type 0} → (A → A → Bool) → (List A → A → List A) → List A → A → List A
emplace_distinct same place res x = if ltb 0 (count (same x) res) then res else place res x

abbrev pub same_key : {K V : Type 0} → (K → K → Bool) → K × V → K × V → Bool
same_key same p q = same p.0 q.0

module _ {A : Type 0} (same : A → A → Bool) (place : List A → A → List A) (s : Serializer A) where
  -- `serializer_t<std::unordered_set<T, H, E>>`
  unfoldable pub unordered_set : Serializer (List A)
  unordered_set = record {
    size = counted_size s;
    write = counted_write s;
    read = counted_read s (emplace_distinct same place) [];
  }

  -- `serializer_t<std::unordered_multiset<T, H, E>>`
  unfoldable pub unordered_multiset : Serializer (List A)
  unordered_multiset = record {
    size = counted_size s;
    write = counted_write s;
    read = counted_read s place [];
  }

module _ {K V : Type 0} (same : K → K → Bool) (place : List (K × V) → K × V → List (K × V))
    (s : Serializer K) (t : Serializer V) where
  -- `serializer_t<std::unordered_map<K, V, H, E>>`
  unfoldable pub unordered_map : Serializer (List (K × V))
  unordered_map = record {
    size = counted_size (pair s t);
    write = counted_write (pair s t);
    read = counted_read (pair s t) (emplace_distinct (same_key same) place) [];
  }

  -- `serializer_t<std::unordered_multimap<K, V, H, E>>`
  unfoldable pub unordered_multimap : Serializer (List (K × V))
  unordered_multimap = record {
    size = counted_size (pair s t);
    write = counted_write (pair s t);
    read = counted_read (pair s t) place [];
  }
