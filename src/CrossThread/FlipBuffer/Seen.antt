-- ===== src/CrossThread/FlipBuffer/Seen.antt =====
-- src/cross_thread/flip_buffer.hpp: the values that the readers see, and the buffer that is written.
use indecorous.Base.{ℕ, ◌≡◌, ◌⊎◌, inl, inr, refl, ◌∙◌, List, ◌∷◌, All-at, Among}
use indecorous.CrossThread.FlipBuffer.{
  BufferId, buffer_a, buffer_b, Reader, writing, copying, FlipBuffer, other_of, buffer,
  active_buffer, Reach,
}
use indecorous.CrossThread.FlipBuffer.Readers.{
  Reads, Turns, applied, Holds, rests, prepares, turns, settles, Reach-Holds,
}

other-apart : (c : BufferId) → c ≡ other_of c → ⊥
other-apart buffer_a h = cc
other-apart buffer_b h = cc

module _ {A : Type 0} where
  active-eq :
      (c : BufferId) (r : Reader) (f : FlipBuffer A)
      → r.current ≡ c
      → active_buffer r f ≡ buffer c f
  unfolding active_buffer
  active-eq c r f h = rw h refl

  -- Whenever a thread reads, it sees the value after all the writes that were begun, or after all of them
  -- but the last one: never a value in between, and never an older one.
  pub active-applied :
      {threads : ℕ} {value : A} {f : FlipBuffer A} (cbs : List (A → A)) (cb : A → A) (r : Reader)
      → Reach threads value (cb ∷ cbs) f
      → Among r f.readers
      → (active_buffer r f ≡ applied value (cb ∷ cbs)) ⊎ (active_buffer r f ≡ applied value cbs)
  active-applied {value} {f} cbs cb r reach a = elim (Reach-Holds reach) [
    | rests c p h b o ↦ inl (active-eq c r f (All-at (Reads c) f.readers h a).0 ∙ b)
    | prepares c d p h b o ↦ inr (active-eq c r f (All-at (Reads c) f.readers h a).0 ∙ b)
    | settles c d p h b o ↦ inl (active-eq c r f (All-at (Reads c) f.readers h a).0 ∙ b)
    | turns c d p h b o ↦ elim (All-at (Turns c) f.readers h a) [
      | inl (e, q) ↦ inl (active-eq c r f e ∙ b)
      | inr (e, q) ↦ inr (active-eq (other_of c) r f e ∙ o)
    ]
  ]

  writing-apart :
      (value : A) (cbs : List (A → A)) (f : FlipBuffer A) (target : BufferId) (cb : A → A)
      (r : Reader)
      → Holds value cbs f
      → Among r f.readers
      → (f.phase ≡ writing target cb) ⊎ (f.phase ≡ copying (other_of target))
      → r.current ≡ target
      → ⊥
  writing-apart value cbs f target cb r (rests c p h b o) a (inl e) same = cc
  writing-apart value cbs f target cb r (rests c p h b o) a (inr e) same = cc
  writing-apart value cbs f target cb r (turns c d p h b o) a (inl e) same = cc
  writing-apart value cbs f target cb r (turns c d p h b o) a (inr e) same = cc
  writing-apart value cbs f target cb r (prepares c d p h b o) a (inr e) same = cc
  writing-apart value cbs f target cb r (settles c d p h b o) a (inl e) same = cc
  writing-apart value cbs f target cb r (prepares c d p h b o) a (inl e) same =
      let mine : r.current ≡ c = (All-at (Reads c) f.readers h a).0 in
      let new : target ≡ other_of c = cc (e, p) in other-apart c (cc (mine, new, same))
  writing-apart value cbs f target cb r (settles c d p h b o) a (inr e) same =
      let mine : r.current ≡ c = (All-at (Reads c) f.readers h a).0 in
      let old : other_of target ≡ c = cc (e, p) in other-apart c (cc (mine, old, same))

  -- While `apply_write` runs its callback on a buffer or copies to one, no thread reads that buffer.
  pub current-neq :
      {threads : ℕ} {value : A} {cbs : List (A → A)} {f : FlipBuffer A} (target : BufferId)
      (cb : A → A) (r : Reader)
      → Reach threads value cbs f
      → Among r f.readers
      → (f.phase ≡ writing target cb) ⊎ (f.phase ≡ copying (other_of target))
      → ¬ (r.current ≡ target)
  current-neq {value} {cbs} {f} target cb r reach a w =
      writing-apart value cbs f target cb r (Reach-Holds reach) a w
