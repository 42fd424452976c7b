-- ===== src/Tests/Messages.antt =====
-- Messages of src/rpc at concrete inputs.
use indecorous.Base.{
  ℕ, ◌≡◌, refl, Bool, true, List, [], ◌∷◌, replicate, length-replicate, ok, ltb, arith,
}
use indecorous.Containers.Buffer.{Memory}
use indecorous.Rpc.Serializer.{
  Serializer, pack_nil, pack_cons, pack_nil-IsLawful, pack_cons-IsLawful,
}
use indecorous.Rpc.Integral.{integral, bool, integral-IsLawful, bool-IsLawful, be_bytes}
use indecorous.Rpc.Stl.Elements.{sum_sizes}
use indecorous.Rpc.Stl.Sequence.{counted_size}
use indecorous.Rpc.Stl.Fixed.{string, pair, string-IsLawful}
use indecorous.Rpc.Stl.Ordered.{ordered_set, ordered_map, set-IsLawful}
use indecorous.Rpc.Exchange.{exchange, exchange-map}
use indecorous.Rpc.Message.RoundTrip.{carry, parse-create}

-- Memory that held zeros before.
abbrev zeros : Memory
zeros n = replicate n 0

-- A call with a string, a set of 16-bit numbers and a flag.
abbrev Call : Type 0
Call = List ℕ × (List ℕ × (Bool × Unit {0}))

abbrev call : Serializer Call
call = pack_cons string (pack_cons (ordered_set ltb (integral 2)) (pack_cons bool pack_nil))

abbrev call_value : Call
call_value = (104 ∷ 105 ∷ [], (3 ∷ 700 ∷ [], (true, tt)))

parse-create_example : carry zeros call 1 77 5 call_value ≡ ok (call_value, 1, 77, 5, 63)
unfolding pack_cons pack_nil string ordered_set bool integral counted_size sum_sizes
parse-create_example =
    parse-create
      (pack_cons-IsLawful string-IsLawful (
        pack_cons-IsLawful (set-IsLawful ltb (integral-IsLawful 2))
          (pack_cons-IsLawful bool-IsLawful pack_nil-IsLawful)))
      zeros (λ n. length-replicate n 0) 1 77 5 call_value (omega arith) (omega arith) (omega arith)
      (omega arith)
      (
        omega arith,
        (
          ((omega arith, (omega arith, (omega arith, tt))), (((refl, refl), tt), (tt, tt))),
          (tt, tt),
        ),
      )

abbrev room : ℕ → List ℕ
room n = replicate n 0

abbrev two_words : List ℕ
two_words = 700 ∷ 3 ∷ []

abbrev named : List (ℕ × List ℕ)
named = (3, 97 ∷ []) ∷ (700, []) ∷ []

exchange-map_example :
    exchange (room 29) (ordered_map ltb (integral 2) string) named ≡ ok (named, 29)
unfolding ordered_map integral string pair counted_size sum_sizes
exchange-map_example =
    exchange-map (integral-IsLawful 2) string-IsLawful ltb (room 29) named (omega arith)
      ((omega arith, omega arith), ((omega arith, omega arith), tt)) (((refl, refl), tt), (tt, tt))
      refl

abbrev twice : List (ℕ × List ℕ)
twice = (3, 97 ∷ []) ∷ (3, []) ∷ []

be_bytes_run : be_bytes 4 0xdeadbeef ≡ 0xde ∷ 0xad ∷ 0xbe ∷ 0xef ∷ []
unfolding be_bytes
be_bytes_run = refl
