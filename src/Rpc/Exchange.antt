-- ===== src/Rpc/Exchange.antt =====
-- src/rpc: a value on its way through a message: it is written into a buffer of just its size, the
-- buffer is released, and the value is read from it.
use indecorous.Base.{
  ℕ, ◌≡◌, Bool, List, [], ◌++◌, length, append-nil, arith, ap, refl, ◌<◌, ◌^◌, All, Result, ok,
  ◌>>=◌, ==_refl, ◌==◌, true,
}
use indecorous.Rpc.Wire.{Ids, writing, release}
use indecorous.Rpc.Serializer.{Serializer, IsLawful}
use indecorous.Rpc.Message.{unparsed, no_id}
use indecorous.Rpc.Stl.Sequence.{vector, vector-IsLawful}
use indecorous.Rpc.Stl.Fixed.{
  string, array, forward_list, string-IsLawful, array-IsLawful, forward_list-IsLawful,
}
use indecorous.Rpc.Stl.Ordered.{
  ordered_set, multiset, ordered_map, multimap, Below, NotAbove, Ascending, less_key, set-IsLawful,
  multiset-IsLawful, map-IsLawful, multimap-IsLawful,
}

-- The values of `size_t`.
abbrev pub word : ℕ
word = 2 ^ 64

-- The value that is read, and where the reading stops.
abbrev pub exchange : {A : Type 0} → List ℕ → Serializer A → A → Result (A × ℕ)
exchange room s a = do
  w ← s.write (writing [] room) a
  buffer ← release w
  (b, m) ← s.read (unparsed buffer)
  ok (b, m.offset)

module _ {A : Type 0} {s : Serializer A} {P : A → Type 0} (l : IsLawful s P) (room : List ℕ) where
  pub exchange_lem : (a : A) → length room ≡ s.size a → P a → exchange room s a ≡ ok (a, s.size a)
  unfolding release
  exchange_lem a h v =
      let none_yet : Ids = record { source = no_id; rpc = no_id; request = no_id } in
      let wrote : s.write (writing [] room) a ≡ ok (writing (l.encode a) []) =
        rw (append-nil room) at (l.write-encode [] room [] a (omega (arith, h, l.size-encode a))) in
      let full : (length (l.encode a) == length (l.encode a ++ [])) ≡ true =
        rw (append-nil (l.encode a), ==_refl (length (l.encode a))) in
      rw (wrote, full, l.read-encode none_yet [] [] a v)
        (ap (λ n. ok (a, n)) (omega (arith, l.size-encode a)))

-- A string of a `size_t` length, written into room of just its size, comes back as it was.
pub exchange-string :
    (room cs : List ℕ)
    → length cs < word
    → length room ≡ string.size cs
    → exchange room string cs ≡ ok (cs, string.size cs)
exchange-string room cs fits h = exchange_lem string-IsLawful room cs h fits

module _ {A : Type 0} {s : Serializer A} {P : A → Type 0} (l : IsLawful s P) (room : List ℕ)
    (xs : List A) where
  -- A vector of a `size_t` length comes back with its elements in order, if the element's serializer
  -- keeps its laws and may hold each of them.
  pub exchange-vector :
      length xs < word
      → All P xs
      → length room ≡ (vector s).size xs
      → exchange room (vector s) xs ≡ ok (xs, (vector s).size xs)
  exchange-vector fits v h = exchange_lem (vector-IsLawful l) room xs h (fits, v)

  -- A forward list of a `size_t` length comes back with its elements in order, if the element's
  -- serializer keeps its laws and may hold each of them.
  pub exchange-forward_list :
      length xs < word
      → All P xs
      → length room ≡ (forward_list s).size xs
      → exchange room (forward_list s) xs ≡ ok (xs, (forward_list s).size xs)
  exchange-forward_list fits v h = exchange_lem (forward_list-IsLawful l) room xs h (fits, v)

  -- An array whose length is that of its type comes back as it was, if the element's serializer keeps
  -- its laws and may hold each of its elements.
  pub exchange-array :
      All P xs
      → length room ≡ (array (length xs) s).size xs
      → exchange room (array (length xs) s) xs ≡ ok (xs, (array (length xs) s).size xs)
  exchange-array v h = exchange_lem (array-IsLawful (length xs) l) room xs h (refl, v)

  -- A set of a `size_t` size that is in the order of its comparator comes back, in that order and
  -- without a loss, if the element's serializer keeps its laws and may hold each of them.
  pub exchange-set :
      (less : A → A → Bool)
      → length xs < word
      → All P xs
      → Ascending (Below less) xs
      → length room ≡ (ordered_set less s).size xs
      → exchange room (ordered_set less s) xs ≡ ok (xs, (ordered_set less s).size xs)
  exchange-set less fits v a h = exchange_lem (set-IsLawful less l) room xs h ((fits, v), a)

  -- A multiset of a `size_t` size that is in order comes back with its equivalent elements in the order
  -- in which they stood, if the element's serializer keeps its laws and may hold each of them.
  pub exchange-multiset :
      (less : A → A → Bool)
      → length xs < word
      → All P xs
      → Ascending (NotAbove less) xs
      → length room ≡ (multiset less s).size xs
      → exchange room (multiset less s) xs ≡ ok (xs, (multiset less s).size xs)
  exchange-multiset less fits v a h =
      exchange_lem (multiset-IsLawful less l) room xs h ((fits, v), a)

module _ {K V : Type 0} {s : Serializer K} {t : Serializer V} {P : K → Type 0} {Q : V → Type 0}
    (ls : IsLawful s P) (lt : IsLawful t Q) (less : K → K → Bool) (room : List ℕ)
    (xs : List (K × V)) where
  -- A map of a `size_t` size that is in the order of its keys comes back with each key's value, if the
  -- serializers of keys and values keep their laws and may hold them.
  pub exchange-map :
      length xs < word
      → All (λ p. P p.0 × Q p.1) xs
      → Ascending (Below (less_key less)) xs
      → length room ≡ (ordered_map less s t).size xs
      → exchange room (ordered_map less s t) xs ≡ ok (xs, (ordered_map less s t).size xs)
  exchange-map fits v a h = exchange_lem (map-IsLawful less ls lt) room xs h ((fits, v), a)

  -- A multimap of a `size_t` size in order comes back with the values of each key in the order in which
  -- they stood, if the serializers of keys and values keep their laws and may hold them.
  pub exchange-multimap :
      length xs < word
      → All (λ p. P p.0 × Q p.1) xs
      → Ascending (NotAbove (less_key less)) xs
      → length room ≡ (multimap less s t).size xs
      → exchange room (multimap less s t) xs ≡ ok (xs, (multimap less s t).size xs)
  exchange-multimap fits v a h =
      exchange_lem (multimap-IsLawful less ls lt) room xs h ((fits, v), a)
