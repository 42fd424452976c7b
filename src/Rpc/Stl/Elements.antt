-- ===== src/Rpc/Stl/Elements.antt =====
-- src/rpc/serialize_stl.hpp: the loops over the elements of a container.
use indecorous.Base.{
  ℕ, zero, suc, ◌+◌, ◌≡◌, ap, ◌∙◌, List, [], ◌∷◌, ◌++◌, length, length-append, append_assoc,
  append-nil, eq-nil_of_length, All, Result, ok, ◌>>=◌, arith,
}
use indecorous.Rpc.Wire.{WriteMessage, ReadMessage, Ids, writing, reading}
use indecorous.Rpc.Serializer.{Serializer, IsLawful, split_room}

module _ {A : Type 0} (s : Serializer A) where
  -- `for (auto const &i : item) { res += serializer_t<T>::size(i); }`
  unfoldable pub sum_sizes : ℕ → List A → ℕ
  sum_sizes res [] = res
  sum_sizes res (x ∷ xs) = sum_sizes (res + s.size x) xs

  -- `serialize_container`
  unfoldable pub serialize_container : WriteMessage → List A → Result WriteMessage
  serialize_container m [] = ok m
  serialize_container m (x ∷ xs) = do m' ← s.write m x; serialize_container m' xs

  -- `for (i = 0; i < n; ++i) { res.emplace(serializer_t<T>::read(msg)); }`, where `emplace` takes an
  -- element into the container that is filled.
  unfoldable pub read_into :
      {C : Type 0} → (C → A → C) → ℕ → C → ReadMessage → Result (C × ReadMessage)
  read_into emplace zero res m = ok (res, m)
  read_into emplace (suc n) res m = do (x, m') ← s.read m; read_into emplace n (emplace res x) m'

-- Filling a container one element after another.
abbrev pub fill : {A C : Type 0} → (C → A → C) → C → List A → C
fill emplace res [] = res
fill emplace res (x ∷ xs) = fill emplace (emplace res x) xs

module _ {A : Type 0} {s : Serializer A} {P : A → Type 0} (l : IsLawful s P) where
  pub encode_all : List A → List ℕ
  encode_all [] = []
  encode_all (x ∷ xs) = l.encode x ++ encode_all xs

  pub sum_sizes-encode : (res : ℕ) (xs : List A) → sum_sizes s res xs ≡ res + length (encode_all xs)
  unfolding sum_sizes encode_all
  sum_sizes-encode res [] = omega arith
  sum_sizes-encode res (x ∷ xs) = omega (
    arith,
    sum_sizes-encode (res + s.size x) xs,
    l.size-encode x,
    length-append (l.encode x) (encode_all xs),
  )

  pub serialize_container-encode :
      (xs : List A) (written gap room : List ℕ)
      → length gap ≡ length (encode_all xs)
      → serialize_container s (writing written (gap ++ room)) xs
        ≡ ok (writing (written ++ encode_all xs) room)
  unfolding serialize_container encode_all
  serialize_container-encode [] written gap room h = rw (eq-nil_of_length gap h, append-nil written)
  serialize_container-encode (x ∷ xs) written gap room h =
      let (front, back, e, hf, hb) = split_room (l.encode x) (encode_all xs) gap h in
      rw (e, append_assoc front back room, l.write-encode written front (back ++ room) x hf)
        (serialize_container-encode xs (written ++ l.encode x) back room hb
          ∙ ap (λ w. ok (writing w room)) (append_assoc written (l.encode x) (encode_all xs)))

  pub read_into-encode :
      {C : Type 0} (emplace : C → A → C) (res : C) (xs : List A) (ids : Ids) (taken rest : List ℕ)
      → All P xs
      → read_into s emplace (length xs) res (reading ids taken (encode_all xs ++ rest))
        ≡ ok (fill emplace res xs, reading ids (taken ++ encode_all xs) rest)
  unfolding read_into encode_all
  read_into-encode emplace res [] ids taken rest v = rw append-nil
  read_into-encode emplace res (x ∷ xs) ids taken rest v =
      rw
        (
          append_assoc (l.encode x) (encode_all xs) rest,
          l.read-encode ids taken (encode_all xs ++ rest) x v.0,
        )
        (read_into-encode emplace (emplace res x) xs ids (taken ++ l.encode x) rest v.1
          ∙ ap (λ w. ok (fill emplace (emplace res x) xs, reading ids w rest))
              (append_assoc taken (l.encode x) (encode_all xs)))
