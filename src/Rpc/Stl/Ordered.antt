-- ===== src/Rpc/Stl/Ordered.antt =====
-- src/rpc/serialize_stl.hpp: `std::set`, `std::multiset`, `std::map` and `std::multimap`. A tree is
-- the list that iterating over it visits, and `less` its comparator (on a map, that of the keys).
use indecorous.Base.{
  ◌≡◌, refl, ap, ◌∙◌, Bool, true, false, List, [], ◌∷◌, ◌++◌, append_assoc, append-nil, All,
  if◌then◌else◌,
}
use indecorous.Rpc.Serializer.{Serializer, IsLawful}
use indecorous.Rpc.Stl.Elements.{fill}
use indecorous.Rpc.Stl.Sequence.{
  counted_size, counted_write, counted_read, Sendable, encode_counted, counted_size-encode,
  counted_write-encode, counted_read-encode,
}
use indecorous.Rpc.Stl.Fixed.{pair, pair-IsLawful}

module _ {A : Type 0} (less : A → A → Bool) where
  -- `emplace_hint(end, x)` on a container of unique keys: an element that is equivalent to one inside
  -- is not inserted.
  unfoldable pub emplace_unique : List A → A → List A
  emplace_unique [] x = x ∷ []
  emplace_unique (y ∷ ys) x =
      if less x y then x ∷ y ∷ ys else if less y x then y ∷ emplace_unique ys x else y ∷ ys

  -- The same where equivalent elements may stand together: as near to the end as the order allows.
  unfoldable pub emplace_equal : List A → A → List A
  emplace_equal [] x = x ∷ []
  emplace_equal (y ∷ ys) x = if less x y then x ∷ y ∷ ys else y ∷ emplace_equal ys x

  -- `y` goes before `x`, and `x` does not go before `y`.
  abbrev pub Below : A → A → Type 0
  Below y x = (less y x ≡ true) × (less x y ≡ false)

  abbrev pub NotAbove : A → A → Type 0
  NotAbove y x = less x y ≡ false

-- Every earlier element is related to every later one.
abbrev pub Ascending : {A : Type 0} → (A → A → Type 0) → List A → Type 0
Ascending R [] = Unit {0}
Ascending R (x ∷ xs) = All (R x) xs × Ascending R xs

module _ {A : Type 0} (less : A → A → Bool) (s : Serializer A) where
  -- `serializer_t<std::set<T, C>>`
  unfoldable pub ordered_set : Serializer (List A)
  ordered_set = record {
    size = counted_size s;
    write = counted_write s;
    read = counted_read s (emplace_unique less) [];
  }

  -- `serializer_t<std::multiset<T, C>>`
  unfoldable pub multiset : Serializer (List A)
  multiset = record {
    size = counted_size s;
    write = counted_write s;
    read = counted_read s (emplace_equal less) [];
  }

abbrev pub less_key : {K V : Type 0} → (K → K → Bool) → K × V → K × V → Bool
less_key less p q = less p.0 q.0

module _ {K V : Type 0} (less : K → K → Bool) (s : Serializer K) (t : Serializer V) where
  -- `serializer_t<std::map<K, V, C>>`
  unfoldable pub ordered_map : Serializer (List (K × V))
  ordered_map = record {
    size = counted_size (pair s t);
    write = counted_write (pair s t);
    read = counted_read (pair s t) (emplace_unique (less_key less)) [];
  }

  -- `serializer_t<std::multimap<K, V, C>>`
  unfoldable pub multimap : Serializer (List (K × V))
  multimap = record {
    size = counted_size (pair s t);
    write = counted_write (pair s t);
    read = counted_read (pair s t) (emplace_equal (less_key less)) [];
  }

-- `res` stands before every element of `xs`.
abbrev Before : {A : Type 0} → (A → A → Type 0) → List A → List A → Type 0
Before R res xs = All (λ x. All (λ y. R y x) res) xs

All-snoc :
    {A : Type 0} (P : A → Type 0) (xs : List A) (x : A) → All P xs → P x → All P (xs ++ x ∷ [])
All-snoc P [] x h p = (p, tt)
All-snoc P (y ∷ ys) x h p = (h.0, All-snoc P ys x h.1 p)

Before-snoc :
    {A : Type 0} (R : A → A → Type 0) (res xs : List A) (x : A)
    → Before R res xs
    → All (R x) xs
    → Before R (res ++ x ∷ []) xs
Before-snoc R res [] x h k = tt
Before-snoc R res (y ∷ ys) x h k =
    (All-snoc (λ z. R z y) res x h.0 k.0, Before-snoc R res ys x h.1 k.1)

Before-nil : {A : Type 0} (R : A → A → Type 0) (xs : List A) → Before R [] xs
Before-nil R [] = tt
Before-nil R (x ∷ xs) = (tt, Before-nil R xs)

-- Elements that come in order are added at the end, one after another.
fill-append :
    {A : Type 0} (R : A → A → Type 0) (emplace : List A → A → List A)
    → ((res : List A) (x : A) → All (λ y. R y x) res → emplace res x ≡ res ++ x ∷ [])
    → (res xs : List A) → Before R res xs
    → Ascending R xs
    → fill emplace res xs ≡ res ++ xs
fill-append R emplace last res [] b a = rw append-nil
fill-append R emplace last res (x ∷ xs) b a = rw (last res x b.0) (
    fill-append R emplace last (res ++ x ∷ []) xs (Before-snoc R res xs x b.1 a.0) a.1
    ∙ append_assoc res (x ∷ []) xs)

module _ {A : Type 0} (less : A → A → Bool) where
  emplace_unique_last :
      (res : List A) (x : A)
      → All (λ y. Below less y x) res
      → emplace_unique less res x ≡ res ++ x ∷ []
  unfolding emplace_unique
  emplace_unique_last [] x h = refl
  emplace_unique_last (y ∷ ys) x h = rw (h.0.1, h.0.0) (ap (◌∷◌ y) (emplace_unique_last ys x h.1))

  emplace_equal_last :
      (res : List A) (x : A)
      → All (λ y. NotAbove less y x) res
      → emplace_equal less res x ≡ res ++ x ∷ []
  unfolding emplace_equal
  emplace_equal_last [] x h = refl
  emplace_equal_last (y ∷ ys) x h = rw h.0 (ap (◌∷◌ y) (emplace_equal_last ys x h.1))

-- A serializer whose reader fills in a way that gives the ordered list back.
tree_like :
    {A : Type 0} {s : Serializer A} {P : A → Type 0} (l : IsLawful s P) (R : A → A → Type 0)
    (emplace : List A → A → List A)
    → ((res : List A) (x : A) → All (λ y. R y x) res → emplace res x ≡ res ++ x ∷ [])
    → IsLawful
        (record {
          size = counted_size s;
          write = counted_write s;
          read = counted_read s emplace [];
        })
        (λ xs. Sendable l xs × Ascending R xs)
tree_like l R emplace last = record {
  encode = encode_counted l;
  size-encode = counted_size-encode l;
  write-encode = counted_write-encode l;
  read-encode = λ ids taken rest xs v.
      counted_read-encode l emplace [] ids taken rest xs v.0
      ∙ rw (fill-append R emplace last [] xs (Before-nil R xs) v.1);
}

module _ {A : Type 0} {s : Serializer A} {P : A → Type 0} (less : A → A → Bool)
    (l : IsLawful s P) where
  pub set-IsLawful : IsLawful (ordered_set less s) (λ xs. Sendable l xs × Ascending (Below less) xs)
  unfolding ordered_set
  set-IsLawful = tree_like l (Below less) (emplace_unique less) (emplace_unique_last less)

  pub multiset-IsLawful :
      IsLawful (multiset less s) (λ xs. Sendable l xs × Ascending (NotAbove less) xs)
  unfolding multiset
  multiset-IsLawful = tree_like l (NotAbove less) (emplace_equal less) (emplace_equal_last less)

module _ {K V : Type 0} {s : Serializer K} {t : Serializer V} {P : K → Type 0} {Q : V → Type 0}
    (less : K → K → Bool) (ls : IsLawful s P) (lt : IsLawful t Q) where
  pub map-IsLawful :
      IsLawful
        (ordered_map less s t)
        (λ xs. Sendable (pair-IsLawful ls lt) xs × Ascending (Below (less_key less)) xs)
  unfolding ordered_map
  map-IsLawful =
      tree_like (pair-IsLawful ls lt) (Below (less_key less)) (emplace_unique (less_key less))
        (emplace_unique_last (less_key less))

  pub multimap-IsLawful :
      IsLawful
        (multimap less s t)
        (λ xs. Sendable (pair-IsLawful ls lt) xs × Ascending (NotAbove (less_key less)) xs)
  unfolding multimap
  multimap-IsLawful =
      tree_like (pair-IsLawful ls lt) (NotAbove (less_key less)) (emplace_equal (less_key less))
        (emplace_equal_last (less_key less))
