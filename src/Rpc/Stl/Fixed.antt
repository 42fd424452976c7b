-- ===== src/Rpc/Stl/Fixed.antt =====
-- src/rpc/serialize_stl.hpp and serialize_stl.cc: strings, pairs, arrays, forward lists, and the
-- adaptors `std::stack` and `std::queue`.
use indecorous.Base.{
  ℕ, zero, suc, ◌+◌, ◌-◌, ◌≡◌, refl, ap, ◌∙◌, List, [], ◌∷◌, ◌++◌, length, length-append,
  append_assoc, All, ok, ◌>>=◌, >>=-congr, ltb, lt→ltb, if◌then◌else◌, arith,
}
use indecorous.Rpc.Wire.{WriteMessage, ReadMessage, Ids, writing, reading}
use indecorous.Rpc.Serializer.{
  Serializer, IsLawful, split_room, push_all, pop_n, push_all-writing, pop_n-reading, pack_nil,
  pack_cons, pack_nil-IsLawful, pack_cons-IsLawful,
}
use indecorous.Rpc.Integral.{
  integral, uint64, Fits, write-integral, read-integral, size-integral, be_bytes,
}
use indecorous.Rpc.Stl.Elements.{
  sum_sizes, serialize_container, read_into, encode_all, sum_sizes-encode,
  serialize_container-encode, read_into-encode,
}
use indecorous.Rpc.Stl.Sequence.{
  counted_size, counted_write, counted_read, emplace_back, Sendable, fill-emplace_back,
}
use indecorous.Rpc.Stl.Sequence.{vector, vector-IsLawful, deque}
use native.Mathlib.Nat.{zero-add}

-- `serializer_t<std::string>`: the length, then the characters as bytes.
unfoldable pub string : Serializer (List ℕ)
string = record {
  size = λ cs. uint64.size (length cs) + length cs;
  write = λ m cs. (do m' ← uint64.write m (length cs); push_all m' cs);
  read = λ m. (do (n, m') ← uint64.read m; pop_n n m');
}

encode_string : List ℕ → List ℕ
encode_string cs = be_bytes 8 (length cs) ++ cs

pub string-IsLawful : IsLawful string (λ cs. Fits 8 (length cs))
unfolding string encode_string
string-IsLawful = record {
  encode = encode_string;
  size-encode =
      λ cs. omega (arith, size-integral 8 (length cs), length-append (be_bytes 8 (length cs)) cs);
  write-encode = λ written gap room cs h.
      let (front, back, e, hf, hb) = split_room (be_bytes 8 (length cs)) cs gap h in
      rw
        (
          e,
          append_assoc front back room,
          write-integral 8 written front (back ++ room) (length cs) hf,
        )
        (push_all-writing cs (written ++ be_bytes 8 (length cs)) back room hb
          ∙ ap (λ w. ok (writing w room)) (append_assoc written (be_bytes 8 (length cs)) cs));
  read-encode = λ ids taken rest cs v.
      rw
        (
          append_assoc (be_bytes 8 (length cs)) cs rest,
          read-integral 8 ids taken (cs ++ rest) (length cs) v,
        )
        (pop_n-reading ids cs (taken ++ be_bytes 8 (length cs)) rest
          ∙ ap (λ w. ok (cs, reading ids w rest)) (append_assoc taken (be_bytes 8 (length cs)) cs));
}

-- `serializer_t<std::pair<A, B>>`: the two parts as a pack of two arguments.
unfoldable pub pair : {A B : Type 0} → Serializer A → Serializer B → Serializer (A × B)
pair s t = record {
  size = λ p. s.size p.0 + t.size p.1;
  write = λ m p. (pack_cons s (pack_cons t pack_nil)).write m (p.0, (p.1, tt));
  read = λ m. (do (p, m') ← (pack_cons s (pack_cons t pack_nil)).read m; ok ((p.0, p.1.0), m'));
}

module _ {A B : Type 0} {s : Serializer A} {t : Serializer B} {P : A → Type 0} {Q : B → Type 0}
    (ls : IsLawful s P) (lt : IsLawful t Q) where
  pack_of_two : IsLawful (pack_cons s (pack_cons t pack_nil)) (λ p. P p.0 × (Q p.1.0 × Unit {0}))
  pack_of_two = pack_cons-IsLawful ls (pack_cons-IsLawful lt pack_nil-IsLawful)

  size-pack_of_two :
      (a : A) (b : B) → s.size a + t.size b ≡ length (pack_of_two.encode (a, (b, tt)))
  unfolding pack_cons pack_nil
  size-pack_of_two a b = omega (arith, pack_of_two.size-encode (a, (b, tt)))

  pub pair-IsLawful : IsLawful (pair s t) (λ p. P p.0 × Q p.1)
  unfolding pair
  pair-IsLawful = record {
    encode = λ p. pack_of_two.encode (p.0, (p.1, tt));
    size-encode = λ p. size-pack_of_two p.0 p.1;
    write-encode =
        λ written gap room p h. pack_of_two.write-encode written gap room (p.0, (p.1, tt)) h;
    read-encode = λ ids taken rest p v.
        rw (pack_of_two.read-encode ids taken rest (p.0, (p.1, tt)) (v.0, (v.1, tt)));
  }

-- `serializer_t<std::array<T, N>>`: the elements alone.
unfoldable pub array : {A : Type 0} → ℕ → Serializer A → Serializer (List A)
array n s = record {
  size = sum_sizes s 0;
  write = serialize_container s;
  read = read_into s emplace_back n [];
}

read-array :
    {A : Type 0} {s : Serializer A} {P : A → Type 0} (l : IsLawful s P) (n : ℕ) (ids : Ids)
    (taken rest : List ℕ) (xs : List A)
    → length xs ≡ n
    → All P xs
    → (array n s).read (reading ids taken (encode_all l xs ++ rest))
      ≡ ok (xs, reading ids (taken ++ encode_all l xs) rest)
unfolding array
read-array l n ids taken rest xs h v =
    rw (← h) (read_into-encode l emplace_back [] xs ids taken rest v ∙ rw (fill-emplace_back [] xs))

pub array-IsLawful :
    {A : Type 0} {s : Serializer A} {P : A → Type 0} (n : ℕ)
    → IsLawful s P
    → IsLawful (array n s) (λ xs. (length xs ≡ n) × All P xs)
unfolding array
array-IsLawful n l = record {
  encode = encode_all l;
  size-encode = λ xs. omega (arith, sum_sizes-encode l 0 xs);
  write-encode = λ written gap room xs h. serialize_container-encode l xs written gap room h;
  read-encode = λ ids taken rest xs v. read-array l n ids taken rest xs v.0 v.1;
}

-- `serializer_t<std::forward_list<T>>`: it has no `size()`, so its elements are counted, and the first
-- one is read before the loop. `emplace_after` at the last element adds behind it.
count_elements : {A : Type 0} → ℕ → List A → ℕ
count_elements size [] = size
count_elements size (x ∷ xs) = count_elements (size + 1) xs

unfoldable pub forward_list : {A : Type 0} → Serializer A → Serializer (List A)
unfolding count_elements
forward_list s = record {
  size = λ xs. sum_sizes s 0 xs + uint64.size (count_elements 0 xs);
  write = λ m xs. (do m' ← uint64.write m (count_elements 0 xs); serialize_container s m' xs);
  read = λ m. (do
    (n, m') ← uint64.read m
    let rest = (do (x, m'') ← s.read m'; read_into s emplace_back (n - 1) (x ∷ []) m'')
    if ltb 0 n then rest else ok ([], m'));
}

count_elements-length :
    {A : Type 0} (size : ℕ) (xs : List A) → count_elements size xs ≡ size + length xs
unfolding count_elements
count_elements-length size [] = omega arith
count_elements-length size (x ∷ xs) = omega (arith, count_elements-length (size + 1) xs)

module _ {A : Type 0} {s : Serializer A} {P : A → Type 0} (l : IsLawful s P) where
  read-first :
      (n : ℕ) (m : ReadMessage)
      → (let rest = (do (x, m') ← s.read m; read_into s emplace_back (n - 1) (x ∷ []) m') in
          if ltb 0 n then rest else ok ([], m))
        ≡ read_into s emplace_back n [] m
  unfolding read_into
  read-first zero m = refl
  read-first (suc n) m =
      let e : suc n - 1 ≡ n = omega arith in rw (e, lt→ltb 0 (suc n) (omega arith))

  -- The two readers agree, element for element.
  forward_list-vector_read : (m : ReadMessage) → (forward_list s).read m ≡ (vector s).read m
  unfolding forward_list vector counted_read read_into
  forward_list-vector_read m = >>=-congr (uint64.read m) _ _ λ p. read-first p.0 p.1

  forward_list-vector_write :
      (m : WriteMessage) (xs : List A) → (forward_list s).write m xs ≡ (vector s).write m xs
  unfolding forward_list vector counted_write
  forward_list-vector_write m xs = rw (count_elements-length 0 xs, zero-add)

  forward_list-vector_size : (xs : List A) → (forward_list s).size xs ≡ (vector s).size xs
  unfolding forward_list vector counted_size integral
  forward_list-vector_size xs =
      omega (arith, sum_sizes-encode l 0 xs, sum_sizes-encode l (uint64.size (length xs)) xs)

  pub forward_list-IsLawful : IsLawful (forward_list s) (Sendable l)
  forward_list-IsLawful = record {
    encode = lv.encode;
    size-encode = λ xs. forward_list-vector_size xs ∙ lv.size-encode xs;
    write-encode = λ written gap room xs h.
        forward_list-vector_write _ xs ∙ lv.write-encode written gap room xs h;
    read-encode =
        λ ids taken rest xs v. forward_list-vector_read _ ∙ lv.read-encode ids taken rest xs v;
  }
    where
      lv : IsLawful (vector s) (Sendable l)
      lv = vector-IsLawful l

-- `serializer_t<std::stack<T>>` and `serializer_t<std::queue<T>>`: the container inside, a deque.
unfoldable pub stack : {A : Type 0} → Serializer A → Serializer (List A)
stack s = record { size = (deque s).size; write = (deque s).write; read = (deque s).read }

unfoldable pub queue : {A : Type 0} → Serializer A → Serializer (List A)
queue s = record { size = (deque s).size; write = (deque s).write; read = (deque s).read }
