-- ===== src/Io/Tcp/Until.antt =====
-- src/io/tcp.cc: `tcp_conn_t::read_until` and `peek`, and what becomes of bytes without the delimiter.
use indecorous.Base.{
  ℕ, zero, suc, ◌+◌, ◌-◌, ◌<◌, ◌≡◌, inl, inr, refl, ap, ◌∙◌, false, Bool-cases, Option, none, some,
  List, [], ◌∷◌, ◌++◌, append_assoc, length, length-append, length-drop, length-snoc, drop, Result,
  ok, err, undefined, ◌>>=◌, ◌==◌, if◌then◌else◌, Among, first, later, arith,
}
use indecorous.Io.Tcp.{Socket, Conn, Loop, refilled, read_into_buffer, go_on}

-- The inner loop of `read_until`, which ends at the delimiter alone: behind the bytes of the buffer it
-- reads what is not there, and behind `count` bytes it writes past the caller's buffer. With the bytes
-- that it has copied.
abbrev pub copy_until : ℕ → ℕ → List ℕ → List ℕ → Result (List ℕ)
copy_until delim count out [] = err undefined
copy_until delim zero out (x ∷ xs) = err undefined
copy_until delim (suc count) out (x ∷ xs) =
    let rest = copy_until delim count (out ++ x ∷ []) xs in
    if x == delim then ok (out ++ x ∷ []) else rest

module _ {S : Type 0} (k : Socket S) where
  -- The loop of `read_until`, with at most `fuel` rounds: `none` is one that goes on.
  unfoldable pub until_loop : ℕ → ℕ → Loop S → Result (Option (Loop S))
  until_loop zero delim l = ok (if l.count == 0 then some l else none)
  until_loop (suc fuel) delim l =
      let c = l.conn in
      if l.count == 0
      then ok (some l)
      else if length c.buffer - c.offset == 0
      then (read_into_buffer k fuel c >>= λ full.
          go_on k (until_loop fuel delim) (refilled k l.count l.out full))
      else (do
        copied ← copy_until delim l.count [] (drop c.offset c.buffer)
        ok (
            some (record {
              count = l.count - length copied;
              out = l.out ++ copied;
              conn = record c { offset = c.offset + length copied };
            })))

  -- `read_until`
  unfoldable pub read_until : ℕ → ℕ → ℕ → Conn S → Result (Option (Loop S))
  read_until fuel delim count c =
      until_loop fuel delim (record { count = count; out = []; conn = c })

copy_until-finds :
    (delim count : ℕ) (out xs ys : List ℕ)
    → (Among delim xs → ⊥)
    → length xs < count
    → copy_until delim count out (xs ++ delim ∷ ys) ≡ ok (out ++ (xs ++ delim ∷ []))
copy_until-finds delim zero out xs ys h p = absurd (omega arith)
copy_until-finds delim (suc count) out [] ys h p = ground arith
copy_until-finds delim (suc count) out (x ∷ xs) ys h p = elim (Bool-cases (x == delim)) [
  | inl e ↦ let same : delim ≡ x = ground arith in absurd (h (rw same first))
  | inr e ↦ rw e (
      copy_until-finds delim count (out ++ x ∷ []) xs ys (λ a. h (later a)) (omega arith)
      ∙ ap ok (append_assoc out (x ∷ []) (xs ++ delim ∷ [])))
]

copy_until-overruns :
    (delim count : ℕ) (out xs : List ℕ)
    → (Among delim xs → ⊥)
    → copy_until delim count out xs ≡ err undefined
copy_until-overruns delim count out [] h = refl
copy_until-overruns delim zero out (x ∷ xs) h = refl
copy_until-overruns delim (suc count) out (x ∷ xs) h = elim (Bool-cases (x == delim)) [
  | inl e ↦ let same : delim ≡ x = ground arith in absurd (h (rw same first))
  | inr e ↦ rw e (copy_until-overruns delim count (out ++ x ∷ []) xs (λ a. h (later a)))
]

module _ {S : Type 0} (k : Socket S) where
  -- Where the delimiter stands in the buffer among the first `count` bytes, `read_until` returns the bytes
  -- up to it, the delimiter included.
  pub read_until-finds :
      (fuel delim count : ℕ) (c : Conn S) (xs ys : List ℕ)
      → drop c.offset c.buffer ≡ xs ++ delim ∷ ys
      → (Among delim xs → ⊥)
      → length xs < count
      → (t : Loop S) × ((read_until k (suc fuel) delim count c ≡ ok (some t))
          × ((t.out ≡ xs ++ delim ∷ []) × (t.conn.offset ≡ c.offset + length xs + 1)))
  unfolding read_until until_loop
  read_until-finds fuel delim count c xs ys e h p =
      let long = length-append xs (delim ∷ ys) in
      let held : length (drop c.offset c.buffer) ≡ length xs + suc (length ys) = (rw e long) in
      let some_left : (count == 0) ≡ false = ground (arith, p) in
      let filled : (length c.buffer - c.offset == 0) ≡ false =
        ground (arith, held, length-drop c.offset c.buffer) in
      let copied = copy_until-finds delim count [] xs ys h p in
      (
        record {
          count = count - length (xs ++ delim ∷ []);
          out = xs ++ delim ∷ [];
          conn = record c { offset = c.offset + length (xs ++ delim ∷ []) };
        },
        (rw (some_left, filled, e, copied) refl, (refl, omega (arith, length-snoc xs delim))),
      )

  -- Where the buffer holds bytes and the delimiter is not among them, `read_until` leaves its buffer or the
  -- caller's: the inner loop does not count down the bytes that it may copy.
  pub read_until-overruns :
      (fuel delim count : ℕ) (c : Conn S)
      → 0 < count
      → c.offset < length c.buffer
      → (Among delim (drop c.offset c.buffer) → ⊥)
      → read_until k (suc fuel) delim count c ≡ err undefined
  unfolding read_until until_loop
  read_until-overruns fuel delim count c p q h =
      let some_left : (count == 0) ≡ false = ground arith in
      let filled : (length c.buffer - c.offset == 0) ≡ false = ground arith in
      rw (some_left, filled, copy_until-overruns delim count [] (drop c.offset c.buffer) h) refl
