-- ===== src/Rpc/Stl/Unordered/Elements.antt =====
-- src/rpc/serialize_stl.hpp: the elements of a table come back, in whatever order.
use indecorous.Base.{
  ℕ, ◌+◌, ◌<◌, ◌≡◌, refl, ap, Bool, true, false, List, [], ◌∷◌, ◌++◌, length, append-nil, All, ok,
  ◌==◌, ==_refl, arith,
}
use indecorous.Rpc.Wire.{Ids, writing, release}
use indecorous.Rpc.Serializer.{Serializer, IsLawful}
use indecorous.Rpc.Message.{no_id}
use indecorous.Rpc.Exchange.{exchange, word}
use indecorous.Rpc.Stl.Elements.{fill}
use indecorous.Rpc.Stl.Sequence.{
  counted_size, counted_write, counted_read, encode_counted, counted_size-encode,
  counted_write-encode, counted_read-encode,
}
use indecorous.Rpc.Stl.Fixed.{pair, pair-IsLawful}
use indecorous.Rpc.Stl.Ordered.{Ascending}
use indecorous.Rpc.Stl.Unordered.{
  count, emplace_distinct, same_key, unordered_set, unordered_multiset, unordered_map,
  unordered_multimap,
}

-- Every test passes as many elements of the one as of the other: each element stands in both equally
-- often.
abbrev pub SameElements : {A : Type 0} → List A → List A → Type 0
SameElements {A} xs ys = (p : A → Bool) → count p xs ≡ count p ys

-- A table that visits a new element somewhere among those it has.
abbrev pub Places : {A : Type 0} → (List A → A → List A) → Type 0
Places {A} place = (res : List A) (x : A) → SameElements (place res x) (x ∷ res)

-- No element is the same as an earlier one.
abbrev pub AllDistinct : {A : Type 0} → (A → A → Bool) → List A → Type 0
AllDistinct same xs = Ascending (λ y x. same x y ≡ false) xs

fill-place :
    {A : Type 0} (place : List A → A → List A)
    → Places place
    → (res xs : List A) (p : A → Bool) → count p (fill place res xs) ≡ count p res + count p xs
fill-place place h res [] p = omega arith
fill-place place h res (x ∷ xs) p = omega (arith, fill-place place h (place res x) xs p, h res x p)

fresh_after :
    {A : Type 0} (same : A → A → Bool) (place : List A → A → List A)
    → Places place
    → (res : List A) (x : A) (xs : List A) → All (λ z. count (same z) res ≡ 0) xs
    → All (λ z. same z x ≡ false) xs
    → All (λ z. count (same z) (place res x) ≡ 0) xs
fresh_after same place h res x [] c d = tt
fresh_after same place h res x (z ∷ zs) c d =
    (ground (arith, h res x (same z), c.0, d.0), fresh_after same place h res x zs c.1 d.1)

fill-distinct :
    {A : Type 0} (same : A → A → Bool) (place : List A → A → List A)
    → Places place
    → (res xs : List A) (p : A → Bool) → All (λ z. count (same z) res ≡ 0) xs
    → AllDistinct same xs
    → count p (fill (emplace_distinct same place) res xs) ≡ count p res + count p xs
unfolding emplace_distinct
fill-distinct same place h res [] p c d = omega arith
fill-distinct same place h res (x ∷ xs) p c d = rw c.0 (
    omega (
      arith,
      fill-distinct same place h (place res x) xs p (fresh_after same place h res x xs c.1 d.0) d.1,
      h res x p,
    ))

none_yet : {A : Type 0} (same : A → A → Bool) (xs : List A) → All (λ z. count (same z) [] ≡ 0) xs
none_yet same [] = tt
none_yet same (x ∷ xs) = (refl, none_yet same xs)

module _ {A : Type 0} {s : Serializer A} {P : A → Type 0} (l : IsLawful s P) (room : List ℕ)
    (xs : List A) (fits : length xs < word) (v : All P xs)
    (h : length room ≡ counted_size s xs) where
  -- What is read is what `emplace` makes of the elements.
  exchange-fill :
      (emplace : List A → A → List A)
      → exchange room
          (record {
            size = counted_size s;
            write = counted_write s;
            read = counted_read s emplace [];
          })
          xs
        ≡ ok (fill emplace [] xs, counted_size s xs)
  unfolding release
  exchange-fill emplace =
      let ids : Ids = record { source = no_id; rpc = no_id; request = no_id } in
      let bytes = encode_counted l xs in
      let wrote : counted_write s (writing [] room) xs ≡ ok (writing bytes []) =
        rw (append-nil room) at
          (counted_write-encode l [] room [] xs (omega (arith, h, counted_size-encode l xs))) in
      let full : (length bytes == length (bytes ++ [])) ≡ true =
        rw (append-nil bytes, ==_refl (length bytes)) in
      rw (wrote, full, counted_read-encode l emplace [] ids [] [] xs (fits, v))
        (ap (λ n. ok (fill emplace [] xs, n)) (omega (arith, counted_size-encode l xs)))

  filled-distinct :
      (same : A → A → Bool) (place : List A → A → List A)
      → Places place
      → AllDistinct same xs
      → SameElements (fill (emplace_distinct same place) [] xs) xs
  filled-distinct same place places d p =
      omega (arith, fill-distinct same place places [] xs p (none_yet same xs) d)

  filled : (place : List A → A → List A) → Places place → SameElements (fill place [] xs) xs
  filled place places p = omega (arith, fill-place place places [] xs p)

  module _ (same : A → A → Bool) (place : List A → A → List A) (places : Places place) where
    -- The elements of an unordered set of a `size_t` size come back, each of them once, if no two of
    -- them are the same and the element's serializer keeps its laws and may hold them.
    pub exchange-unordered_set :
        AllDistinct same xs
        → (ys : List A) × (exchange room (unordered_set same place s) xs
            ≡ ok (ys, counted_size s xs))
          × SameElements ys xs
    unfolding unordered_set
    exchange-unordered_set d = (
      fill (emplace_distinct same place) [] xs,
      exchange-fill (emplace_distinct same place),
      filled-distinct same place places d,
    )

    pub exchange-unordered_multiset :
        (ys : List A) × (exchange room (unordered_multiset same place s) xs
          ≡ ok (ys, counted_size s xs))
        × SameElements ys xs
    unfolding unordered_multiset
    exchange-unordered_multiset = (fill place [] xs, exchange-fill place, filled place places)

module _ {K V : Type 0} {s : Serializer K} {t : Serializer V} {P : K → Type 0} {Q : V → Type 0}
    (ls : IsLawful s P) (lt : IsLawful t Q) (room : List ℕ) (xs : List (K × V))
    (fits : length xs < word) (v : All (λ p. P p.0 × Q p.1) xs)
    (h : length room ≡ counted_size (pair s t) xs) (same : K → K → Bool)
    (place : List (K × V) → K × V → List (K × V)) (places : Places place) where
  -- The keys of an unordered map of a `size_t` size come back with their values, each of them once, if no
  -- two keys are the same and the serializers of keys and values keep their laws and may hold them.
  exchange-unordered_map :
      AllDistinct (same_key same) xs
      → (ys : List (K × V)) × (exchange room (unordered_map same place s t) xs
          ≡ ok (ys, counted_size (pair s t) xs))
        × SameElements ys xs
  unfolding unordered_map
  exchange-unordered_map d = (
    fill (emplace_distinct (same_key same) place) [] xs,
    exchange-fill (pair-IsLawful ls lt) room xs fits v h (emplace_distinct (same_key same) place),
    filled-distinct (pair-IsLawful ls lt) room xs fits v h (same_key same) place places d,
  )

  -- The pairs of an unordered multimap come back as often as they were in it.
  pub exchange-unordered_multimap :
      (ys : List (K × V)) × (exchange room (unordered_multimap same place s t) xs
        ≡ ok (ys, counted_size (pair s t) xs))
      × SameElements ys xs
  unfolding unordered_multimap
  exchange-unordered_multimap = (
    fill place [] xs,
    exchange-fill (pair-IsLawful ls lt) room xs fits v h place,
    filled (pair-IsLawful ls lt) room xs fits v h place places,
  )
