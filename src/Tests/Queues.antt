-- ===== src/Tests/Queues.antt =====
-- The queue between threads, of src/containers/intrusive.hpp, at concrete inputs.
use indecorous.Base.{ℕ, ◌≡◌, inl, inr, Bool-cases, refl, none, some, ◌==◌, arith}
use indecorous.Containers.Mpsc.{
  Mpsc, put, create, push, set_next, skip, take_front, Reach, start, next, pushes, writes_next,
  skips, takes,
}
use indecorous.Containers.Mpsc.Order.{IsQueue}
use indecorous.Containers.Mpsc.History.{Reach-IsQueue}

-- 7 is pushed but not yet written, and 8 is pushed behind it.
abbrev two_pushed : Mpsc
unfolding create push
two_pushed = push 8 (push 7 create)

abbrev popped_one : Mpsc
popped_one = take_front 8 (skip 7 (set_next 0 7 (set_next 7 8 two_pushed)))

some-injective : {a b : ℕ} → some a ≡ some b → a ≡ b
some-injective h = cc

unlinked : (x : ℕ) → put 7 none (λ y. none) x ≡ some 8 → ⊥
unlinked x e = elim (Bool-cases (7 == x)) [ inl b ↦ cc (rw b at e) | inr b ↦ cc (rw b at e) ]

unwritten : (x : ℕ) → put 0 (some 7) (λ y. none) x ≡ some 8 → ⊥
unwritten x e = elim (Bool-cases (0 == x)) [
  | inl b ↦ let h : some 7 ≡ some 8 = rw b at e in omega (arith, some-injective h)
  | inr b ↦ cc (rw b at e)
]

popped_one_reached : Reach popped_one
unfolding create push set_next skip take_front
popped_one_reached =
    next
      (next
        (next
          (next
            (next
              (next start (
                pushes 7 (λ e. omega (arith, e)) (λ e. omega (arith, e)) (λ x e. cc) (λ x e. cc)
                  refl))
              (pushes 8 (λ e. omega (arith, e)) (λ e. omega (arith, e)) unlinked unwritten refl))
            (writes_next 7 8 refl refl))
          (writes_next 0 7 refl refl))
        (skips 7 refl refl refl))
      (takes 8 (λ e. omega (arith, e)) refl refl)

Reach-IsQueue_example : IsQueue popped_one
Reach-IsQueue_example = Reach-IsQueue popped_one popped_one_reached
