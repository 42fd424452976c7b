-- ===== src/CrossThread/FlipBuffer/Readers.antt =====
-- src/cross_thread/flip_buffer.hpp: what the readers see while the writes go on.
use indecorous.Base.{
  ℕ, zero, suc, ◌+◌, ◌%◌, ◌≡◌, ◌⊎◌, inl, inr, refl, ◌∙◌, ap, true, false, List, [], ◌∷◌, ◌++◌,
  replicate, All, All-append, All-of_append, subst,
}
use indecorous.CrossThread.FlipBuffer.{
  BufferId, buffer_a, buffer_b, to_int, of_int, Reader, flip_internal, broadcast, all_flipped, idle,
  writing, flipping, copying, FlipBuffer, other_of, create, buffer, choose, write, copy, Step,
  writes, flips, waits, copies, Reach, start, begins, next,
}

-- Every thread reads `c` and no flip is on its way; or each thread reads `c`, or has still to leave the other.
abbrev pub Reads : BufferId → Reader → Type 0
Reads c r = (r.current ≡ c) × (r.pending ≡ false)

abbrev pub Turns : BufferId → Reader → Type 0
Turns c r = Reads c r ⊎ ((r.current ≡ other_of c) × (r.pending ≡ true))

module _ {A : Type 0} where
  -- The value after the callbacks, the last one first.
  abbrev pub applied : A → List (A → A) → A
  applied value [] = value
  applied value (cb ∷ cbs) = cb (applied value cbs)

  -- Where a write is, and what the buffers hold then.
  pub data Holds (value : A) : List (A → A) → FlipBuffer A → Type 0 where
    rests :
        {cbs : List (A → A)} {f : FlipBuffer A} (c : BufferId)
        → f.phase ≡ idle
        → All (Reads c) f.readers
        → buffer c f ≡ applied value cbs
        → buffer (other_of c) f ≡ applied value cbs
        → Holds value cbs f
    prepares :
        {cbs : List (A → A)} {f : FlipBuffer A} (c : BufferId) (cb : A → A)
        → f.phase ≡ writing (other_of c) cb
        → All (Reads c) f.readers
        → buffer c f ≡ applied value cbs
        → buffer (other_of c) f ≡ applied value cbs
        → Holds value (cb ∷ cbs) f
    turns :
        {cbs : List (A → A)} {f : FlipBuffer A} (c : BufferId) (cb : A → A)
        → f.phase ≡ flipping c
        → All (Turns c) f.readers
        → buffer c f ≡ applied value (cb ∷ cbs)
        → buffer (other_of c) f ≡ applied value cbs
        → Holds value (cb ∷ cbs) f
    settles :
        {cbs : List (A → A)} {f : FlipBuffer A} (c : BufferId) (cb : A → A)
        → f.phase ≡ copying c
        → All (Reads c) f.readers
        → buffer c f ≡ applied value (cb ∷ cbs)
        → buffer (other_of c) f ≡ applied value cbs
        → Holds value (cb ∷ cbs) f

all-Reads :
    (n : ℕ) → All (Reads buffer_a) (replicate n (record { current = buffer_a; pending = false }))
all-Reads zero = tt
all-Reads (suc n) = ((refl, refl), all-Reads n)

other-other : (c : BufferId) → other_of (other_of c) ≡ c
other-other buffer_a = refl
other-other buffer_b = refl

flip-eq : (c : BufferId) → of_int ((to_int c + 1) % 2) ≡ other_of c
flip-eq buffer_a = refl
flip-eq buffer_b = refl

broadcast-Turns :
    (c : BufferId) (rs : List Reader) → All (Reads c) rs → All (Turns (other_of c)) (broadcast rs)
broadcast-Turns c [] h = tt
broadcast-Turns c (r ∷ rs) ((e, p), h) = (inr (cc (e, other-other c), refl), broadcast-Turns c rs h)

flipped-Reads :
    (c : BufferId) (rs : List Reader) → All (Turns c) rs → all_flipped rs ≡ true → All (Reads c) rs
flipped-Reads c [] h a = tt
flipped-Reads c (r ∷ rs) (inl (e, p), h) a = ((e, p), flipped-Reads c rs h (rw p at a))
flipped-Reads c (r ∷ rs) (inr (e, p), h) a = cc (rw p at a)

-- With no flip on its way no flip is run.
no-flip :
    (c : BufferId) (xs ys : List Reader) (r : Reader)
    → All (Reads c) (xs ++ r ∷ ys)
    → r.pending ≡ true
    → ⊥
no-flip c xs ys r h p =
    let q : r.pending ≡ false = (All-of_append (Reads c) xs (r ∷ ys) h).1.0.1 in cc

flip_internal-Turns :
    (c : BufferId) (r : Reader) → Turns c r → r.pending ≡ true → Turns c (flip_internal r)
unfolding flip_internal
flip_internal-Turns c r (inl (e, p)) h = cc
flip_internal-Turns c r (inr (e, p)) h = inl (cc (e, flip-eq r.current, other-other c), refl)

module _ {A : Type 0} where
  -- `write` and `copy` change one buffer and leave the other.
  write-new :
      (c : BufferId) (cb : A → A) (f : FlipBuffer A)
      → (buffer (other_of c) (write (other_of c) cb f) ≡ cb (buffer (other_of c) f))
        × (buffer c (write (other_of c) cb f) ≡ buffer c f)
  unfolding write
  write-new buffer_a cb f = (refl, refl)
  write-new buffer_b cb f = (refl, refl)

  copy-old :
      (c : BufferId) (f : FlipBuffer A)
      → (buffer (other_of c) (copy c f) ≡ buffer c f) × (buffer c (copy c f) ≡ buffer c f)
  unfolding copy
  copy-old buffer_a f = (refl, refl)
  copy-old buffer_b f = (refl, refl)

  -- A change of the readers or of the phase alone leaves the buffers.
  same-buffer :
      (c : BufferId) (f g : FlipBuffer A)
      → g.value_a ≡ f.value_a
      → g.value_b ≡ f.value_b
      → buffer c g ≡ buffer c f
  same-buffer buffer_a f g a b = a
  same-buffer buffer_b f g a b = b

  copy-readers : (c : BufferId) (f : FlipBuffer A) → (copy c f).readers ≡ f.readers
  unfolding copy
  copy-readers buffer_a f = refl
  copy-readers buffer_b f = refl

  copy-phase : (c : BufferId) (f : FlipBuffer A) → (copy c f).phase ≡ idle
  unfolding copy
  copy-phase buffer_a f = refl
  copy-phase buffer_b f = refl

  write-readers :
      (c : BufferId) (cb : A → A) (f : FlipBuffer A) → (write c cb f).readers ≡ broadcast f.readers
  unfolding write
  write-readers buffer_a cb f = refl
  write-readers buffer_b cb f = refl

  write-phase : (c : BufferId) (cb : A → A) (f : FlipBuffer A) → (write c cb f).phase ≡ flipping c
  unfolding write
  write-phase buffer_a cb f = refl
  write-phase buffer_b cb f = refl

  flips-Holds :
      (value : A) (cbs : List (A → A)) (f g : FlipBuffer A) (xs ys : List Reader) (r : Reader)
      → Holds value cbs f
      → f.readers ≡ xs ++ r ∷ ys
      → r.pending ≡ true
      → g ≡ record f { readers = xs ++ flip_internal r ∷ ys }
      → Holds value cbs g
  flips-Holds value cbs f g xs ys r (rests c p h b o) e q s =
      absurd (no-flip c xs ys r (subst (All (Reads c)) e h) q)
  flips-Holds value cbs f g xs ys r (prepares c cb p h b o) e q s =
      absurd (no-flip c xs ys r (subst (All (Reads c)) e h) q)
  flips-Holds value cbs f g xs ys r (settles c cb p h b o) e q s =
      absurd (no-flip c xs ys r (subst (All (Reads c)) e h) q)
  flips-Holds value cbs f g xs ys r (turns c cb p h b o) e q s =
      let (l, k) = All-of_append (Turns c) xs (r ∷ ys) (subst (All (Turns c)) e h) in
      let turned =
        All-append (Turns c) xs (flip_internal r ∷ ys) l (flip_internal-Turns c r k.0 q, k.1) in
      turns c cb (rw s p) (rw s turned) (same-buffer c f g (rw s refl) (rw s refl) ∙ b)
        (same-buffer (other_of c) f g (rw s refl) (rw s refl) ∙ o)

  writes-Holds :
      (value : A) (cbs : List (A → A)) (f g : FlipBuffer A) (target : BufferId) (cb : A → A)
      → Holds value cbs f
      → f.phase ≡ writing target cb
      → g ≡ write target cb f
      → Holds value cbs g
  writes-Holds value cbs f g target cb (rests c p h b o) e s = cc
  writes-Holds value cbs f g target cb (turns c d p h b o) e s = cc
  writes-Holds value cbs f g target cb (settles c d p h b o) e s = cc
  writes-Holds value cbs f g target cb (prepares c d p h b o) e s =
      let same : target ≡ other_of c = cc (e, p) in
      let done : cb ≡ d = cc (e, p) in
      let (n, k) = write-new c d f in
      let t : g ≡ write (other_of c) d f = (rw (same, done) at s) in
      turns (other_of c) d (rw t (write-phase (other_of c) d f))
        (rw (t, write-readers (other_of c) d f) (broadcast-Turns c f.readers h)) (rw t (n ∙ ap d o))
        (rw (t, other-other c) (k ∙ b))

  waits-Holds :
      (value : A) (cbs : List (A → A)) (f g : FlipBuffer A) (target : BufferId)
      → Holds value cbs f
      → f.phase ≡ flipping target
      → all_flipped f.readers ≡ true
      → g ≡ record f { phase = copying target }
      → Holds value cbs g
  waits-Holds value cbs f g target (rests c p h b o) e a s = cc
  waits-Holds value cbs f g target (prepares c d p h b o) e a s = cc
  waits-Holds value cbs f g target (settles c d p h b o) e a s = cc
  waits-Holds value cbs f g target (turns c d p h b o) e a s =
      let same : target ≡ c = cc (e, p) in
      settles c d (rw (s, same) refl) (rw s (flipped-Reads c f.readers h a))
        (same-buffer c f g (rw s refl) (rw s refl) ∙ b)
        (same-buffer (other_of c) f g (rw s refl) (rw s refl) ∙ o)

  copies-Holds :
      (value : A) (cbs : List (A → A)) (f g : FlipBuffer A) (target : BufferId)
      → Holds value cbs f
      → f.phase ≡ copying target
      → g ≡ copy target f
      → Holds value cbs g
  copies-Holds value cbs f g target (rests c p h b o) e s = cc
  copies-Holds value cbs f g target (prepares c d p h b o) e s = cc
  copies-Holds value cbs f g target (turns c d p h b o) e s = cc
  copies-Holds value cbs f g target (settles c d p h b o) e s =
      let same : target ≡ c = cc (e, p) in
      let (n, k) = copy-old c f in
      let t : g ≡ copy c f = (rw same at s) in
      rests c (rw t (copy-phase c f)) (rw (t, copy-readers c f) h) (rw t (k ∙ b)) (rw t (n ∙ b))

  Step-Holds :
      (value : A) (cbs : List (A → A)) (f g : FlipBuffer A)
      → Holds value cbs f
      → Step f g
      → Holds value cbs g
  Step-Holds value cbs f g v (writes target cb e s) = writes-Holds value cbs f g target cb v e s
  Step-Holds value cbs f g v (flips xs ys r e p s) = flips-Holds value cbs f g xs ys r v e p s
  Step-Holds value cbs f g v (waits target e a s) = waits-Holds value cbs f g target v e a s
  Step-Holds value cbs f g v (copies target e s) = copies-Holds value cbs f g target v e s

  begins-Holds :
      (value : A) (cbs : List (A → A)) (f g : FlipBuffer A) (xs ys : List Reader) (r : Reader)
      (cb : A → A)
      → Holds value cbs f
      → f.phase ≡ idle
      → f.readers ≡ xs ++ r ∷ ys
      → g ≡ choose r cb f
      → Holds value (cb ∷ cbs) g
  unfolding choose
  begins-Holds value cbs f g xs ys r cb (prepares c d p h b o) i e s = cc
  begins-Holds value cbs f g xs ys r cb (turns c d p h b o) i e s = cc
  begins-Holds value cbs f g xs ys r cb (settles c d p h b o) i e s = cc
  begins-Holds value cbs f g xs ys r cb (rests c p h b o) i e s =
      let (l, k) = All-of_append (Reads c) xs (r ∷ ys) (subst (All (Reads c)) e h) in
      prepares c cb (rw (s, k.0.0) refl) (rw s h) (same-buffer c f g (rw s refl) (rw s refl) ∙ b)
        (same-buffer (other_of c) f g (rw s refl) (rw s refl) ∙ o)

  pub Reach-Holds :
      {threads : ℕ} {value : A} {cbs : List (A → A)} {f : FlipBuffer A}
      → Reach threads value cbs f
      → Holds value cbs f
  unfolding create
  Reach-Holds {threads} start = rests buffer_a refl (all-Reads threads) refl refl
  Reach-Holds {value} (begins {cbs} {f} {g} reach xs ys r cb i e s) =
      begins-Holds value cbs f g xs ys r cb (Reach-Holds reach) i e s
  Reach-Holds {value} {cbs} (next {f} {g} reach s) = Step-Holds value cbs f g (Reach-Holds reach) s
