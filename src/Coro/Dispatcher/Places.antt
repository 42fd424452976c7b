-- ===== src/Coro/Dispatcher/Places.antt =====
-- src/coro/coro.cc: where each coroutine is.
use indecorous.Base.{
  ℕ, suc, ◌+◌, ◌-◌, ◌≤◌, ◌<◌, ◌≡◌, refl, inl, inr, Bool, true, false, Bool-cases, Option, none,
  some, List, [], ◌∷◌, ◌++◌, length, ok, ◌==◌, ==_refl, leb, if◌then◌else◌, arith,
}
use indecorous.Coro.Dispatcher.{
  Point, nowhere, initially, swapped, launching, Dispatcher, has, release, release_ended,
}

abbrev pub count : ℕ → List ℕ → ℕ
count x [] = 0
count x (y ∷ ys) = (if x == y then 1 else 0) + count x ys

abbrev pub listed : Option ℕ → List ℕ
listed none = []
listed (some c) = c ∷ []

-- A coroutine that goes on in `swap`, or starts as one that was put in the queue.
abbrev pub is_ready : Point → Bool
is_ready nowhere = false
is_ready initially = false
is_ready swapped = true
is_ready (launching none) = true
is_ready (launching (some parent)) = false

-- The number of places of a coroutine: the run queue, those that wait, the cache, and `others`
abbrev pub places : ℕ → List ℕ → List ℕ → Dispatcher → ℕ
places x waiting others d = count x d.run_queue + count x waiting + count x d.cache + count x others

-- Every coroutine is in one place at most, and those that are in use are counted.
pub record Holds (waiting others : List ℕ) (d : Dispatcher) : Type 0 where
  pub permitted : d.swap_permitted ≡ true
  pub once : (x : ℕ) → places x waiting others d ≤ 1
  pub fresh : (x : ℕ) → d.made ≤ x → places x waiting others d ≡ 0
  pub counted : d.extant ≡ length d.run_queue + length waiting + length others
  pub ready : (x : ℕ) → 0 < count x d.run_queue + count x waiting → is_ready (d.point x) ≡ true
  pub small : length d.cache ≤ d.max_cache_size
  pub order : d.queued ≡ d.popped ++ d.run_queue

pub count-append : (x : ℕ) (xs ys : List ℕ) → count x (xs ++ ys) ≡ count x xs + count x ys
count-append x [] ys = omega arith
count-append x (y ∷ xs) ys = omega (arith, count-append x xs ys)

pub has_of_count : (x : ℕ) (xs : List ℕ) → count x xs ≡ 0 → has x xs ≡ false
has_of_count x [] h = refl
has_of_count x (y ∷ xs) h = elim (Bool-cases (x == y)) [
  | inl e ↦ absurd (ground (arith, e, h))
  | inr e ↦ rw e (has_of_count x xs (ground (arith, e, h)))
]

pub count_self : (x : ℕ) (xs : List ℕ) → count x (x ∷ xs) ≡ suc (count x xs)
count_self x xs = rw (==_refl x) (omega arith)

-- The state behind `release_ended`
abbrev pub released : Option ℕ → Dispatcher → Dispatcher
released none d = d
released (some c) d = record d {
  extant = d.extant - 1;
  cache = if leb d.max_cache_size (length d.cache) then d.cache else c ∷ d.cache;
  to_release = none;
}

pub release_ended-eq :
    (r : Option ℕ) (waiting others : List ℕ) (d : Dispatcher)
    → Holds waiting (listed r ++ others) d
    → release_ended r d ≡ ok (released r d)
unfolding release
release_ended-eq none waiting others d v = refl
release_ended-eq (some c) waiting others d v =
    let one = v.once c in
    let self = count_self c others in
    let queue = has_of_count c d.run_queue (omega (arith, one, self)) in
    let cache = has_of_count c d.cache (omega (arith, one, self)) in rw (queue, cache) refl

pub released-Holds :
    (r : Option ℕ) (waiting others : List ℕ) (d : Dispatcher)
    → Holds waiting (listed r ++ others) d
    → Holds waiting others (released r d)
released-Holds none waiting others d v = v
released-Holds (some c) waiting others d v = record {
  permitted = v.permitted;
  once = λ x. ground (arith, v.once x);
  fresh = λ x h. ground (arith, v.fresh x h);
  counted = omega (arith, v.counted);
  ready = v.ready;
  small = ground (arith, v.small);
  order = v.order;
}
