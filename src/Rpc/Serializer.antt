-- ===== src/Rpc/Serializer.antt =====
-- src/rpc/serialize.hpp: the interface `serializer_t`, its laws, and packs of arguments.
use indecorous.Base.{
  ℕ, zero, suc, ◌+◌, ◌≡◌, refl, ap, List, [], ◌∷◌, ◌++◌, length, length-append, append_assoc,
  eq-nil_of_length, append-nil, ◌∙◌, Result, ok, ◌>>=◌, arith,
}
use indecorous.Rpc.Wire.{
  WriteMessage, ReadMessage, Ids, writing, reading, push_back, pop, push_back-writing, pop-reading,
}

-- `serializer_t<T>`
pub record Serializer (A : Type 0) : Type 0 where
  pub size : A → ℕ
  pub write : WriteMessage → A → Result WriteMessage
  pub read : ReadMessage → Result (A × ReadMessage)

-- What the rest of src/rpc relies on, for the values that the type can hold (`Valid`): `size` is the
-- number of bytes written, `write` uses that room and no more, and `read` takes back what was written
-- and leaves what follows.
pub record IsLawful {A : Type 0} (s : Serializer A) (Valid : A → Type 0) : Type 0 where
  pub encode : A → List ℕ
  pub size-encode : (a : A) → s.size a ≡ length (encode a)
  pub write-encode :
      (written gap room : List ℕ) (a : A)
      → length gap ≡ length (encode a)
      → s.write (writing written (gap ++ room)) a ≡ ok (writing (written ++ encode a) room)
  pub read-encode :
      (ids : Ids) (taken rest : List ℕ) (a : A)
      → Valid a
      → s.read (reading ids taken (encode a ++ rest)) ≡ ok (a, reading ids (taken ++ encode a) rest)

-- `for (i = 0; i < n; ++i) msg->push_back(c[i]);`
unfoldable pub push_all : WriteMessage → List ℕ → Result WriteMessage
push_all m [] = ok m
push_all m (c ∷ cs) = do m' ← push_back m c; push_all m' cs

-- `for (i = 0; i < n; ++i) c[i] = msg->pop();`
unfoldable pub pop_n : ℕ → ReadMessage → Result (List ℕ × ReadMessage)
pop_n zero m = ok ([], m)
pop_n (suc n) m = do (c, m') ← pop m; (cs, m'') ← pop_n n m'; ok (c ∷ cs, m'')

pub push_all-writing :
    (cs written gap room : List ℕ)
    → length gap ≡ length cs
    → push_all (writing written (gap ++ room)) cs ≡ ok (writing (written ++ cs) room)
unfolding push_all
push_all-writing [] written [] room h = rw append-nil
push_all-writing [] written (g ∷ gap) room h = absurd (omega arith)
push_all-writing (c ∷ cs) written [] room h = absurd (omega arith)
push_all-writing (c ∷ cs) written (g ∷ gap) room h =
    rw (push_back-writing written (gap ++ room) g c) (
      push_all-writing cs (written ++ c ∷ []) gap room (omega arith)
      ∙ ap (λ w. ok (writing w room)) (append_assoc written (c ∷ []) cs))

pub pop_n-reading :
    (ids : Ids) (cs taken rest : List ℕ)
    → pop_n (length cs) (reading ids taken (cs ++ rest)) ≡ ok (cs, reading ids (taken ++ cs) rest)
unfolding pop_n
pop_n-reading ids [] taken rest = rw append-nil
pop_n-reading ids (c ∷ cs) taken rest =
    rw (pop-reading ids taken (cs ++ rest) c, pop_n-reading ids cs (taken ++ c ∷ []) rest)
      (ap (λ w. ok (c ∷ cs, reading ids w rest)) (append_assoc taken (c ∷ []) cs))

-- Room for two parts is room for the first, then room for the second.
pub split_room :
    (xs ys gap : List ℕ)
    → length gap ≡ length (xs ++ ys)
    → (front : List ℕ) × (back : List ℕ) × (gap ≡ front ++ back)
      × (length front ≡ length xs)
      × (length back ≡ length ys)
split_room [] ys gap h = ([], gap, refl, refl, h)
split_room (x ∷ xs) ys [] h = absurd (omega arith)
split_room (x ∷ xs) ys (g ∷ gap) h =
    let (front, back, e, hf, hb) = split_room xs ys gap (omega arith) in
    (g ∷ front, back, ap (◌∷◌ g) e, ap suc hf, hb)

-- No arguments: `full_serialized_size<>()`, `full_serialize<>(msg)`.
unfoldable pub pack_nil : Serializer (Unit {0})
pack_nil = record { size = λ _. 0; write = λ m _. ok m; read = λ m. ok (tt, m) }

-- One argument in front of a pack: sizes are added, and the arguments are written and read in order.
unfoldable pub pack_cons : {A B : Type 0} → Serializer A → Serializer B → Serializer (A × B)
pack_cons s t = record {
  size = λ p. s.size p.0 + t.size p.1;
  write = λ m p. (do m' ← s.write m p.0; t.write m' p.1);
  read = λ m. (do (a, m') ← s.read m; (b, m'') ← t.read m'; ok ((a, b), m''));
}

pub pack_nil-IsLawful : IsLawful pack_nil (λ _. Unit {0})
unfolding pack_nil
pack_nil-IsLawful = record {
  encode = λ _. [];
  size-encode = λ _. refl;
  write-encode = λ written gap room a h. rw (eq-nil_of_length gap h, append-nil written);
  read-encode = λ ids taken rest a v. rw append-nil;
}

module _ {A B : Type 0} {s : Serializer A} {t : Serializer B} {P : A → Type 0} {Q : B → Type 0}
    (ls : IsLawful s P) (lt : IsLawful t Q) where
  encode_pair : A × B → List ℕ
  encode_pair p = ls.encode p.0 ++ lt.encode p.1

  write-encode_pair :
      (written gap room : List ℕ) (a : A) (b : B)
      → length gap ≡ length (ls.encode a ++ lt.encode b)
      → (pack_cons s t).write (writing written (gap ++ room)) (a, b)
        ≡ ok (writing (written ++ (ls.encode a ++ lt.encode b)) room)
  unfolding pack_cons
  write-encode_pair written gap room a b h =
      let (front, back, e, hf, hb) = split_room (ls.encode a) (lt.encode b) gap h in
      rw (e, append_assoc front back room, ls.write-encode written front (back ++ room) a hf)
        (lt.write-encode (written ++ ls.encode a) back room b hb
          ∙ ap (λ w. ok (writing w room)) (append_assoc written (ls.encode a) (lt.encode b)))

  read-encode_pair :
      (ids : Ids) (taken rest : List ℕ) (a : A) (b : B)
      → P a
      → Q b
      → (pack_cons s t).read (reading ids taken ((ls.encode a ++ lt.encode b) ++ rest))
        ≡ ok ((a, b), reading ids (taken ++ (ls.encode a ++ lt.encode b)) rest)
  unfolding pack_cons
  read-encode_pair ids taken rest a b va vb =
      rw
        (
          append_assoc (ls.encode a) (lt.encode b) rest,
          ls.read-encode ids taken (lt.encode b ++ rest) a va,
          lt.read-encode ids (taken ++ ls.encode a) rest b vb,
        )
        (ap (λ w. ok ((a, b), reading ids w rest)) (append_assoc taken (ls.encode a) (lt.encode b)))

  pub pack_cons-IsLawful : IsLawful (pack_cons s t) (λ p. P p.0 × Q p.1)
  unfolding pack_cons encode_pair
  pack_cons-IsLawful = record {
    encode = encode_pair;
    size-encode = λ p. omega (
      arith,
      ls.size-encode p.0,
      lt.size-encode p.1,
      length-append (ls.encode p.0) (lt.encode p.1),
    );
    write-encode = λ written gap room p h. write-encode_pair written gap room p.0 p.1 h;
    read-encode = λ ids taken rest p v. read-encode_pair ids taken rest p.0 p.1 v.0 v.1;
  }
