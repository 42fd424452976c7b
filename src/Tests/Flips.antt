-- ===== src/Tests/Flips.antt =====
-- A flip buffer of two threads, of src/cross_thread/flip_buffer.hpp, at concrete inputs.
use indecorous.Base.{ℕ, ◌+◌, ◌≡◌, ◌⊎◌, inl, refl, true, false, [], ◌∷◌, first}
use indecorous.CrossThread.FlipBuffer.{
  BufferId, buffer_a, buffer_b, Reader, FlipBuffer, writing, flipping, create, active_buffer,
  choose, write, flip_internal, Reach, start, begins, next, writes, flips,
}
use indecorous.CrossThread.FlipBuffer.Seen.{active-applied, current-neq}

abbrev grow : ℕ → ℕ
grow n = n + 3

abbrev reader : BufferId → Reader
reader c = record { current = c; pending = false }

-- The first thread has begun a write.
abbrev begun : FlipBuffer ℕ
begun = record {
  value_a = 5;
  value_b = 5;
  readers = reader buffer_a ∷ reader buffer_a ∷ [];
  phase = writing buffer_b grow;
}

begun_reached : Reach 2 5 (grow ∷ []) begun
unfolding create choose
begun_reached = begins start [] (reader buffer_a ∷ []) (reader buffer_a) grow refl refl refl

-- The write is done, and one thread has flipped.
abbrev half_flipped : FlipBuffer ℕ
half_flipped = record {
  value_a = 5;
  value_b = 8;
  readers = reader buffer_b ∷ record { current = buffer_a; pending = true } ∷ [];
  phase = flipping buffer_b;
}

half_flipped_reached : Reach 2 5 (grow ∷ []) half_flipped
unfolding write flip_internal
half_flipped_reached = next (next begun_reached (writes buffer_b grow refl refl)) (
    flips [] (record { current = buffer_a; pending = true } ∷ [])
      (record { current = buffer_a; pending = true }) refl refl refl)

active-applied_example :
    (active_buffer (reader buffer_b) half_flipped ≡ 8)
    ⊎ (active_buffer (reader buffer_b) half_flipped ≡ 5)
active-applied_example = active-applied [] grow (reader buffer_b) half_flipped_reached first

current-neq_example : ¬ (buffer_a ≡ buffer_b)
current-neq_example = current-neq buffer_b grow (reader buffer_a) begun_reached first (inl refl)
