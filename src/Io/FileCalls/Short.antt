-- ===== src/Io/FileCalls/Short.antt =====
-- src/io/file.cc: what short reads and writes do to the loops.
use indecorous.Base.{
  ℕ, zero, suc, ◌+◌, ◌-◌, ◌≤◌, ◌<◌, ◌≡◌, inl, inr, refl, false, Bool-cases, none, some, ◌==◌, arith,
}
use indecorous.Io.FileCalls.{
  Moved, failed, moved, Outcome, done, einval, errno, read_loop, read, write_loop, write,
}

-- What the manual says of `preadv` and `pwritev`: never more bytes than were asked for.
abbrev pub IsBounded : {S : Type 0} → (ℕ → ℕ → S → Moved × S) → Type 0
IsBounded {S} call = (offset length n : ℕ) (s : S) → (call offset length s).0 ≡ moved n → n ≤ length

module _ {S : Type 0} (call : ℕ → ℕ → S → Moved × S) (bounded : IsBounded call) where
  -- Behind a call that was asked for less than the size, the loop of `read` never returns 0.
  read_loop-short :
      (fuel size offset length : ℕ) (r : Moved × S) (t : S)
      → length < size
      → ((n : ℕ) → r.0 ≡ moved n → n ≤ length)
      → read_loop call fuel size offset length r ≡ some (done, t)
      → ⊥
  unfolding read_loop
  read_loop-short fuel size offset length (failed e, s) t short b h = cc
  read_loop-short zero size offset length (moved n, s) t short b h =
      let le = b n refl in
      elim (Bool-cases (n == size)) [
        | inl e ↦ ground (arith, le, e)
        | inr e ↦ elim (Bool-cases (n == 0)) [
          | inl z ↦ cc (rw (e, z) at h)
          | inr z ↦ cc (rw (e, z) at h)
        ]
      ]
  read_loop-short (suc fuel) size offset length (moved n, s) t short b h =
      let le = b n refl in
      elim (Bool-cases (n == size)) [
        | inl e ↦ ground (arith, le, e)
        | inr e ↦ elim (Bool-cases (n == 0)) [
          | inl z ↦ cc (rw (e, z) at h)
          | inr z ↦
              read_loop-short fuel size (offset + n) (length - n) _ t (omega arith)
                (λ m q. bounded (offset + n) (length - n) m s q) (rw (e, z) at h)
        ]
      ]

  at_once :
      (fuel size offset : ℕ) (r : Moved × S) (t : S)
      → ((n : ℕ) → r.0 ≡ moved n → n ≤ size)
      → 0 < size
      → read_loop call fuel size offset size r ≡ some (done, t)
      → r ≡ (moved size, t)
  unfolding read_loop
  at_once fuel size offset (failed e, s) t b p h = cc
  at_once zero size offset (moved n, s) t b p h = elim (Bool-cases (n == size)) [
    | inl e ↦ let h' = rw e at h in let same : n ≡ size = ground arith in cc
    | inr e ↦ elim (Bool-cases (n == 0)) [
      | inl z ↦ cc (rw (e, z) at h)
      | inr z ↦ cc (rw (e, z) at h)
    ]
  ]
  at_once (suc fuel) size offset (moved n, s) t b p h = elim (Bool-cases (n == size)) [
    | inl e ↦ let h' = rw e at h in let same : n ≡ size = ground arith in cc
    | inr e ↦ elim (Bool-cases (n == 0)) [
      | inl z ↦ cc (rw (e, z) at h)
      | inr z ↦
          let short : size - n < size = ground arith in
          absurd (
            read_loop-short fuel size (offset + n) (size - n) _ t short
              (λ m q. bounded (offset + n) (size - n) m s q) (rw (e, z) at h))
    ]
  ]

  -- `read` of some bytes returns 0 only if its first system call moved all of them at once: whatever the
  -- file does later, a short read is never completed.
  pub read-at_once :
      (fuel offset size : ℕ) (s t : S)
      → 0 < size
      → read call fuel offset size s ≡ some (done, t)
      → call offset size s ≡ (moved size, t)
  unfolding read
  read-at_once fuel offset size s t some_bytes h =
      at_once fuel size offset (call offset size s) t (λ n q. bounded offset size n s q) some_bytes
        h

  read_loop-ends :
      (fuel size offset length : ℕ) (r : Moved × S)
      → ((n : ℕ) → r.0 ≡ moved n → n ≤ length)
      → length < fuel
      → (o : Outcome × S) × (read_loop call fuel size offset length r ≡ some o)
  unfolding read_loop
  read_loop-ends fuel size offset length (failed e, s) b h = ((errno e, s), refl)
  read_loop-ends zero size offset length (moved n, s) b h = absurd (omega arith)
  read_loop-ends (suc fuel) size offset length (moved n, s) b h =
      let le = b n refl in
      elim (Bool-cases (n == size)) [
        | inl e ↦ ((done, s), rw e refl)
        | inr e ↦ elim (Bool-cases (n == 0)) [
          | inl z ↦ ((einval, s), rw (e, z) refl)
          | inr z ↦
              let (o, q) =
                read_loop-ends fuel size (offset + n) (length - n)
                  (call (offset + n) (length - n) s)
                  (λ m q. bounded (offset + n) (length - n) m s q) (ground (arith, le, z)) in
              (o, rw (e, z) q)
        ]
      ]

  -- The loop of `read` ends, within one round more than the bytes that were asked for.
  pub read-ends :
      (fuel offset size : ℕ) (s : S)
      → size < fuel
      → (o : Outcome × S) × (read call fuel offset size s ≡ some o)
  unfolding read
  read-ends fuel offset size s h =
      read_loop-ends fuel size offset size (call offset size s) (λ n q. bounded offset size n s q) h

module _ {S : Type 0} (call : ℕ → ℕ → S → Moved × S) where
  -- A call for no bytes moves none, and the loop of `write` behind it goes on and on.
  write_loop-endless :
      (fuel size offset length : ℕ) (s : S)
      → 0 < size
      → length ≡ 0
      → ((o : ℕ) (t : S) → call o 0 t ≡ (moved 0, t))
      → write_loop call fuel size offset length (moved 0, s) ≡ none
  unfolding write_loop
  write_loop-endless zero size offset length s p e still = ground arith
  write_loop-endless (suc fuel) size offset length s p e still =
      let short : (0 == size) ≡ false = ground arith in
      let rest : length - 0 ≡ 0 = omega (arith, e) in
      let again : call (offset + 0) (length - 0) s ≡ (moved 0, s) =
        rw rest (still (offset + 0) s) in
      rw (short, again) (write_loop-endless fuel size (offset + 0) (length - 0) s p rest still)

  -- A `write` whose first call moves only some of the bytes and whose second call moves all the others:
  -- every byte has been written, and the loop never ends.
  pub write-endless :
      (fuel offset size n : ℕ) (s t u : S)
      → 0 < n
      → n < size
      → ((o : ℕ) (v : S) → call o 0 v ≡ (moved 0, v))
      → call offset size s ≡ (moved n, t)
      → call (offset + n) (size - n) t ≡ (moved (size - n), u)
      → write call fuel offset size s ≡ none
  unfolding write write_loop
  write-endless zero offset size n s t u p q still first second =
      let short : (n == size) ≡ false = ground arith in rw (first, short) refl
  write-endless (suc zero) offset size n s t u p q still first second =
      let short : (n == size) ≡ false = ground arith in
      let short' : (size - n == size) ≡ false = ground arith in
      rw (first, short, second, short') refl
  write-endless (suc (suc fuel)) offset size n s t u p q still first second =
      let short : (n == size) ≡ false = ground arith in
      let short' : (size - n == size) ≡ false = ground arith in
      let rest : size - n - (size - n) ≡ 0 = omega arith in
      let left : ℕ = size - n - (size - n) in
      let third : call (offset + n + (size - n)) left u ≡ (moved 0, u) =
        rw rest (still (offset + n + (size - n)) u) in
      rw (first, short, second, short', third)
        (write_loop-endless fuel size (offset + n + (size - n)) left u (omega arith) rest still)
