-- ===== src/Rpc/Integral.antt =====
-- src/rpc/serialize.cc and serialize_macros.hpp: numbers, booleans, enums and pointers. A value is
-- its bit pattern: a signed integer is what its `sizeof` bytes hold. `float` and `double` are left out:
-- `htobe` converts their value to an integer.
use indecorous.Base.{
  ℕ, zero, suc, ◌+◌, ◌*◌, ◌/◌, ◌%◌, ◌^◌, ◌<◌, ◌≡◌, refl, Bool, true, false, not, List, [], ◌∷◌,
  ◌++◌, length, length-append, ok, ◌>>=◌, ◌==◌, if◌then◌else◌, arith,
}
use indecorous.Rpc.Wire.{Ids, writing, reading, push_back, pop, push_back-writing, pop-reading}
use indecorous.Rpc.Serializer.{
  Serializer, IsLawful, push_all, pop_n, push_all-writing, pop_n-reading,
}
use mathlib.Core.List.{foldl, foldl-append}
use native.Mathlib.Nat.{pow-suc}

-- The bytes of `htobe(v)` in memory, for a type of `n` bytes: the most significant first.
unfoldable pub be_bytes : ℕ → ℕ → List ℕ
be_bytes zero v = []
be_bytes (suc n) v = be_bytes n (v / 256) ++ v % 256 ∷ []

-- `betoh` of the bytes read.
unfoldable pub from_be : List ℕ → ℕ
from_be = foldl (λ acc c. acc * 256 + c) 0

pub length-be_bytes : (n v : ℕ) → length (be_bytes n v) ≡ n
unfolding be_bytes
length-be_bytes zero v = refl
length-be_bytes (suc n) v =
    omega (arith, length-append (be_bytes n (v / 256)) (v % 256 ∷ []), length-be_bytes n (v / 256))

from_be-snoc : (cs : List ℕ) (c : ℕ) → from_be (cs ++ c ∷ []) ≡ from_be cs * 256 + c
unfolding from_be
from_be-snoc cs c = rw foldl-append

-- The big-endian bytes of a number that fits in `n` bytes give the number back.
pub from_be-be_bytes : (n v : ℕ) → v < 256 ^ n → from_be (be_bytes n v) ≡ v
unfolding be_bytes
from_be-be_bytes zero v h = unfold from_be in omega arith
from_be-be_bytes (suc n) v h = omega (
  arith,
  from_be-snoc (be_bytes n (v / 256)) (v % 256),
  from_be-be_bytes n (v / 256) (omega (arith, pow-suc 256 n)),
)

-- IMPL_SERIALIZABLE_INTEGRAL, for a type of `n` bytes.
unfoldable pub integral : ℕ → Serializer ℕ
integral n = record {
  size = λ _. n;
  write = λ m v. push_all m (be_bytes n v);
  read = λ m. (do (cs, m') ← pop_n n m; ok (from_be cs, m'));
}

abbrev pub Fits : ℕ → ℕ → Type 0
Fits n v = v < 256 ^ n

pub read-integral :
    (n : ℕ) (ids : Ids) (taken rest : List ℕ) (v : ℕ)
    → Fits n v
    → (integral n).read (reading ids taken (be_bytes n v ++ rest))
      ≡ ok (v, reading ids (taken ++ be_bytes n v) rest)
unfolding integral
read-integral n ids taken rest v h =
    let popped = pop_n-reading ids (be_bytes n v) taken rest in
    rw (rw (length-be_bytes n v) at popped, from_be-be_bytes n v h)

pub write-integral :
    (n : ℕ) (written gap room : List ℕ) (v : ℕ)
    → length gap ≡ length (be_bytes n v)
    → (integral n).write (writing written (gap ++ room)) v
      ≡ ok (writing (written ++ be_bytes n v) room)
unfolding integral
write-integral n written gap room v h = push_all-writing (be_bytes n v) written gap room h

pub size-integral : (n v : ℕ) → (integral n).size v ≡ length (be_bytes n v)
unfolding integral
size-integral n v = omega (arith, length-be_bytes n v)

pub integral-IsLawful : (n : ℕ) → IsLawful (integral n) (Fits n)
integral-IsLawful n = record {
  encode = be_bytes n;
  size-encode = size-integral n;
  write-encode = write-integral n;
  read-encode = read-integral n;
}

-- IMPL_SERIALIZABLE_BYTE of `int8_t` and `uint8_t`.
unfoldable pub byte : Serializer ℕ
byte = record { size = λ _. 1; write = λ m v. push_back m (v % 256); read = pop }

-- IMPL_SERIALIZABLE_BYTE of `bool`: read back by `static_cast<bool>`.
unfoldable pub bool : Serializer Bool
bool = record {
  size = λ _. 1;
  write = λ m b. push_back m (if b then 1 else 0);
  read = λ m. (do (c, m') ← pop m; ok (not (c == 0), m'));
}

-- One byte of room.
write-one :
    (written gap room : List ℕ) (c : ℕ)
    → length gap ≡ 1
    → push_back (writing written (gap ++ room)) c ≡ ok (writing (written ++ c ∷ []) room)
write-one written [] room c h = absurd (omega arith)
write-one written (g ∷ []) room c h = push_back-writing written room g c
write-one written (g ∷ g' ∷ gap) room c h = absurd (omega arith)

pub byte-IsLawful : IsLawful byte (Fits 1)
unfolding byte
byte-IsLawful = record {
  encode = λ v. v % 256 ∷ [];
  size-encode = λ v. refl;
  write-encode = λ written gap room v h. write-one written gap room (v % 256) h;
  read-encode = λ ids taken rest v h.
      let e : v % 256 ≡ v = omega arith in rw (e, pop-reading ids taken rest v);
}

abbrev of_bool : Bool → ℕ
of_bool b = if b then 1 else 0

read-bool :
    (ids : Ids) (taken rest : List ℕ) (b : Bool)
    → bool.read (reading ids taken (of_bool b ∷ rest))
      ≡ ok (b, reading ids (taken ++ of_bool b ∷ []) rest)
unfolding bool
read-bool ids taken rest true = rw (pop-reading ids taken rest 1)
read-bool ids taken rest false = rw (pop-reading ids taken rest 0)

pub bool-IsLawful : IsLawful bool (λ _. Unit {0})
unfolding bool
bool-IsLawful = record {
  encode = λ b. of_bool b ∷ [];
  size-encode = λ b. refl;
  write-encode = λ written gap room b h. write-one written gap room (of_bool b) h;
  read-encode = λ ids taken rest b v. read-bool ids taken rest b;
}

-- The specialisations of serialize.cc, by the width of the type.
abbrev pub uint16 : Serializer ℕ
uint16 = integral 2

abbrev pub uint32 : Serializer ℕ
uint32 = integral 4

abbrev pub uint64 : Serializer ℕ
uint64 = integral 8

-- SERIALIZABLE_POINTER: the address, as a `uint64_t`.
unfoldable pub pointer : Serializer ℕ
pointer = record { size = uint64.size; write = uint64.write; read = uint64.read }

-- SERIALIZABLE_ENUM over the underlying type's serializer.
unfoldable pub enum : {E V : Type 0} → (E → V) → (V → E) → Serializer V → Serializer E
enum to_value of_value s = record {
  size = λ e. s.size (to_value e);
  write = λ m e. s.write m (to_value e);
  read = λ m. (do (v, m') ← s.read m; ok (of_value v, m'));
}

-- An enum keeps its serializer's laws, if its values come back from their numbers.
pub enum-IsLawful :
    {E V : Type 0} {s : Serializer V} {P : V → Type 0} (to_value : E → V) (of_value : V → E)
    → ((e : E) → of_value (to_value e) ≡ e)
    → IsLawful s P
    → IsLawful (enum to_value of_value s) (λ e. P (to_value e))
unfolding enum
enum-IsLawful to_value of_value back l = record {
  encode = λ e. l.encode (to_value e);
  size-encode = λ e. l.size-encode (to_value e);
  write-encode = λ written gap room e h. l.write-encode written gap room (to_value e) h;
  read-encode = λ ids taken rest e v. rw (l.read-encode ids taken rest (to_value e) v, back e);
}

-- MAKE_SERIALIZABLE and IMPL_SERIALIZABLE: a struct by the pack of its members, and the constructor
-- that takes them.
unfoldable pub members : {T F : Type 0} → (T → F) → (F → T) → Serializer F → Serializer T
members fields make s = record {
  size = λ t. s.size (fields t);
  write = λ m t. s.write m (fields t);
  read = λ m. (do (f, m') ← s.read m; ok (make f, m'));
}

pub members-IsLawful :
    {T F : Type 0} {s : Serializer F} {P : F → Type 0} (fields : T → F) (make : F → T)
    → ((t : T) → make (fields t) ≡ t)
    → IsLawful s P
    → IsLawful (members fields make s) (λ t. P (fields t))
unfolding members enum
members-IsLawful fields make back l = enum-IsLawful fields make back l
