-- ===== src/Rpc/Stl/Sequence.antt =====
-- src/rpc/serialize_stl.hpp and serialize_stl.cc: the sequences, whose elements keep their order. Each
-- specialisation writes the number of elements as a `uint64_t` and then the elements.
use indecorous.Base.{
  ℕ, ◌≡◌, ap, ◌∙◌, List, [], ◌∷◌, ◌++◌, length, length-append, append_assoc, append-nil, All,
  Result, ok, ◌>>=◌, arith,
}
use indecorous.Rpc.Wire.{WriteMessage, ReadMessage, Ids, writing, reading}
use indecorous.Rpc.Serializer.{Serializer, IsLawful, split_room}
use indecorous.Rpc.Integral.{uint64, Fits, write-integral, read-integral, size-integral, be_bytes}
use indecorous.Rpc.Stl.Elements.{
  sum_sizes, serialize_container, read_into, fill, encode_all, sum_sizes-encode,
  serialize_container-encode, read_into-encode,
}

module _ {A : Type 0} (s : Serializer A) where
  unfoldable pub counted_size : List A → ℕ
  counted_size xs = sum_sizes s (uint64.size (length xs)) xs

  unfoldable pub counted_write : WriteMessage → List A → Result WriteMessage
  counted_write m xs = do m' ← uint64.write m (length xs); serialize_container s m' xs

  unfoldable pub counted_read :
      {C : Type 0} → (C → A → C) → C → ReadMessage → Result (C × ReadMessage)
  counted_read emplace empty m = do (n, m') ← uint64.read m; read_into s emplace n empty m'

abbrev pub emplace_back : {A : Type 0} → List A → A → List A
emplace_back xs x = xs ++ x ∷ []

module _ {A : Type 0} (s : Serializer A) where
  -- `serializer_t<std::vector<T>>`
  unfoldable pub vector : Serializer (List A)
  vector = record {
    size = counted_size s;
    write = counted_write s;
    read = counted_read s emplace_back [];
  }

  -- `serializer_t<std::list<T>>`
  unfoldable pub list : Serializer (List A)
  list = record {
    size = counted_size s;
    write = counted_write s;
    read = counted_read s emplace_back [];
  }

  -- `serializer_t<std::deque<T>>`
  unfoldable pub deque : Serializer (List A)
  deque = record {
    size = counted_size s;
    write = counted_write s;
    read = counted_read s emplace_back [];
  }

module _ {A : Type 0} {s : Serializer A} {P : A → Type 0} (l : IsLawful s P) where
  -- A container is sent by its number of elements, and what each element may hold.
  abbrev pub Sendable : List A → Type 0
  Sendable xs = Fits 8 (length xs) × All P xs

  pub encode_counted : List A → List ℕ
  encode_counted xs = be_bytes 8 (length xs) ++ encode_all l xs

  pub counted_size-encode : (xs : List A) → counted_size s xs ≡ length (encode_counted xs)
  unfolding counted_size encode_counted
  counted_size-encode xs = omega (
    arith,
    sum_sizes-encode l (uint64.size (length xs)) xs,
    size-integral 8 (length xs),
    length-append (be_bytes 8 (length xs)) (encode_all l xs),
  )

  pub counted_write-encode :
      (written gap room : List ℕ) (xs : List A)
      → length gap ≡ length (encode_counted xs)
      → counted_write s (writing written (gap ++ room)) xs
        ≡ ok (writing (written ++ encode_counted xs) room)
  unfolding counted_write encode_counted
  counted_write-encode written gap room xs h =
      let (front, back, e, hf, hb) = split_room (be_bytes 8 (length xs)) (encode_all l xs) gap h in
      rw
        (
          e,
          append_assoc front back room,
          write-integral 8 written front (back ++ room) (length xs) hf,
        )
        (serialize_container-encode l xs (written ++ be_bytes 8 (length xs)) back room hb
          ∙ ap (λ w. ok (writing w room))
              (append_assoc written (be_bytes 8 (length xs)) (encode_all l xs)))

  pub counted_read-encode :
      {C : Type 0} (emplace : C → A → C) (empty : C) (ids : Ids) (taken rest : List ℕ) (xs : List A)
      → Fits 8 (length xs) × All P xs
      → counted_read s emplace empty (reading ids taken (encode_counted xs ++ rest))
        ≡ ok (fill emplace empty xs, reading ids (taken ++ encode_counted xs) rest)
  unfolding counted_read encode_counted
  counted_read-encode emplace empty ids taken rest xs v =
      rw
        (
          append_assoc (be_bytes 8 (length xs)) (encode_all l xs) rest,
          read-integral 8 ids taken (encode_all l xs ++ rest) (length xs) v.0,
        )
        (read_into-encode l emplace empty xs ids (taken ++ be_bytes 8 (length xs)) rest v.1
          ∙ ap (λ w. ok (fill emplace empty xs, reading ids w rest))
              (append_assoc taken (be_bytes 8 (length xs)) (encode_all l xs)))

pub fill-emplace_back : {A : Type 0} (done xs : List A) → fill emplace_back done xs ≡ done ++ xs
fill-emplace_back done [] = rw append-nil
fill-emplace_back done (x ∷ xs) =
    fill-emplace_back (done ++ x ∷ []) xs ∙ append_assoc done (x ∷ []) xs

-- Any serializer made of the three functions above over `emplace_back`.
list_like :
    {A : Type 0} {s : Serializer A} {P : A → Type 0} (l : IsLawful s P)
    → IsLawful
        (record {
          size = counted_size s;
          write = counted_write s;
          read = counted_read s emplace_back [];
        })
        (Sendable l)
list_like l = record {
  encode = encode_counted l;
  size-encode = counted_size-encode l;
  write-encode = counted_write-encode l;
  read-encode = λ ids taken rest xs v.
      counted_read-encode l emplace_back [] ids taken rest xs v ∙ rw (fill-emplace_back [] xs);
}

module _ {A : Type 0} {s : Serializer A} {P : A → Type 0} (l : IsLawful s P) where
  pub vector-IsLawful : IsLawful (vector s) (Sendable l)
  unfolding vector
  vector-IsLawful = list_like l

  pub list-IsLawful : IsLawful (list s) (Sendable l)
  unfolding list
  list-IsLawful = list_like l

  pub deque-IsLawful : IsLawful (deque s) (Sendable l)
  unfolding deque
  deque-IsLawful = list_like l
