-- ===== src/Coro/Dispatcher/Slices.antt =====
-- src/coro/coro.cc: the coroutines give the thread back to the main context.
use indecorous.Base.{
  ℕ, ◌+◌, ◌-◌, ◌≤◌, ◌<◌, ◌≡◌, refl, ap, ◌∙◌, inl, inr, Option, none, some, List, [], ◌∷◌, length,
  Result, ok, ◌>>=◌, Option-cases, Bool-cases, false, ◌==◌, ◌%◌, ◌/◌, ◌*◌, arith,
}
use native.Mathlib.Nat.{mod-eq_of_lt, div-add-mod, add-mod_right, mul-mod_right}
use indecorous.Coro.Dispatcher.History.{Reach, Reach-IsPlaced}
use indecorous.Coro.Dispatcher.{
  Dispatcher, word, round_size_up, wait, yield_, finish, max_swaps_per_loop,
}
use indecorous.Coro.Dispatcher.Calls.{
  Rpcs, IsPlaced, IsSliced, wait-IsPlaced, yield_-IsPlaced, finish-IsPlaced,
}

-- The calls with which a coroutine gives up the thread
pub data Leave : Type 0 where
  waiting yielding finishing : Leave

unfoldable pub leave : Leave → ℕ → Dispatcher → Result Dispatcher
leave waiting self d = wait self d
leave yielding self d = yield_ self d
leave finishing self d = finish self d

abbrev pub turn : Option ℕ → (ℕ → Result Dispatcher) → Dispatcher → Result Dispatcher
turn none next d = ok d
turn (some self) next d = next self

-- Coroutines that leave one after another, each as it chooses, until the main context runs
unfoldable pub leave_all : List Leave → Dispatcher → Result Dispatcher
leave_all [] d = ok d
leave_all (l ∷ ls) d = turn d.running (λ self. leave l self d >>= leave_all ls) d

leave_lem :
    (l : Leave) (self : ℕ) (waiting_ : List ℕ) (rpcs : Rpcs) (d : Dispatcher)
    → IsPlaced waiting_ rpcs d
    → d.running ≡ some self
    → (t : Dispatcher) × ((leave l self d ≡ ok t)
        × ((w : List ℕ) × (IsPlaced w rpcs t × IsSliced d t)))
unfolding leave
leave_lem waiting self w rpcs d v e =
    let (t, (eq, p)) = wait-IsPlaced w rpcs d v self e in (t, (eq, (self ∷ w, p)))
leave_lem yielding self w rpcs d v e =
    let (t, (eq, p)) = yield_-IsPlaced w rpcs d v self e in (t, (eq, (w, p)))
leave_lem finishing self w rpcs d v e =
    let (t, (eq, p)) = finish-IsPlaced w rpcs d v self e in (t, (eq, (w, p)))

leave_all-idle : (ls : List Leave) (d : Dispatcher) → d.running ≡ none → leave_all ls d ≡ ok d
unfolding leave_all
leave_all-idle [] d e = refl
leave_all-idle (l ∷ ls) d e = rw e refl

leave_all-leave :
    (l : Leave) (ls : List Leave) (self : ℕ) (d t : Dispatcher)
    → d.running ≡ some self
    → leave l self d ≡ ok t
    → leave_all (l ∷ ls) d ≡ leave_all ls t
unfolding leave_all
leave_all-leave l ls self d t e h =
    ap (λ o. turn o (λ c. leave l c d >>= leave_all ls) d) e ∙ ap (λ m. m >>= leave_all ls) h

leave_all_ends :
    (ls : List Leave) (w : List ℕ) (rpcs : Rpcs) (d : Dispatcher)
    → IsPlaced w rpcs d
    → 0 < length ls
    → max_swaps_per_loop ≤ d.swap_count + length ls
    → (t : Dispatcher) × ((leave_all ls d ≡ ok t) × (t.running ≡ none))
unfolding leave_all
leave_all_ends [] w rpcs d v some_left enough = absurd (omega arith)
leave_all_ends (l ∷ ls) w rpcs d v some_left enough = elim (Option-cases d.running) [
  | inl e ↦ (d, (leave_all-idle (l ∷ ls) d e, e))
  | inr (self, e) ↦
      let (t, (eq, (w', (p, slice)))) = leave_lem l self w rpcs d v e in
      let step = leave_all-leave l ls self d t e eq in
      elim slice [
        | inl idle ↦ (t, (step ∙ leave_all-idle ls t idle, idle))
        | inr (swaps, few) ↦
            let (u, (eq', idle)) =
              leave_all_ends ls w' rpcs t p (omega (arith, swaps, few, enough))
                (omega (arith, swaps, enough)) in
            (u, (step ∙ eq', idle))
      ]
]

-- However long the queue is, and whatever the coroutines do when they leave: when as many have left as there
-- are swaps in a run, in a row, no call has failed and the main context runs again.
pub Reach-leave_all :
    (max_cache_size : ℕ) (ls : List Leave) {waiting_ : List ℕ} {rpcs : Rpcs} {d : Dispatcher}
    → Reach max_cache_size waiting_ rpcs d
    → max_swaps_per_loop ≤ length ls
    → (t : Dispatcher) × ((leave_all ls d ≡ ok t) × (t.running ≡ none))
Reach-leave_all n ls {waiting_} {rpcs} {d} r enough =
    leave_all_ends ls waiting_ rpcs d (Reach-IsPlaced n r) (omega (arith, enough))
      (omega (arith, enough))

multiple_of : (n m : ℕ) → (n + m - n % m) % m ≡ 0
multiple_of n m =
    ap (λ k. k % m) (omega (arith, div-add-mod n m))
    ∙ add-mod_right (m * (n / m)) m
    ∙ mul-mod_right m (n / m)

-- Where `multiple` is not 0 and its sum with the size is at most 2 ^ 64, `round_size_up` ends well and gives the
-- least multiple of it that is not below the size.
pub round_size_up_bounds :
    (minimum_size multiple : ℕ)
    → 0 < multiple
    → minimum_size + multiple ≤ word
    → (n : ℕ) × ((round_size_up minimum_size multiple ≡ ok n)
        × ((n % multiple ≡ 0) × ((minimum_size ≤ n) × (n < minimum_size + multiple))))
unfolding round_size_up
round_size_up_bounds minimum_size multiple h fits =
    let some_size : (multiple == 0) ≡ false = ground (arith, h) in
    elim (Bool-cases (minimum_size % multiple == 0)) [
      | inl e ↦ (
        minimum_size,
        (rw (some_size, e) refl, (ground (arith, e), (omega arith, omega (arith, h)))),
      )
      | inr e ↦ (
        minimum_size + multiple - minimum_size % multiple,
        (
          rw (some_size, e) (ap ok (mod-eq_of_lt (grind arith))),
          (multiple_of minimum_size multiple, (grind arith, grind arith)),
        ),
      )
    ]
