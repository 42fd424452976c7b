-- ===== src/Coro/Dispatcher/Calls.antt =====
-- src/coro/coro.cc: the calls of the running coroutine and of the main context.
use indecorous.Base.{
  at, ℕ, ◌+◌, ◌-◌, ◌%◌, ◌<◌, ◌≡◌, refl, ap, ◌∙◌, sym, ◌⊎◌, inl, inr, true, false, not, Bool-cases,
  Option, Option-cases, none, some, List, [], ◌∷◌, ◌++◌, append_assoc, length, length-append, ok,
  ◌==◌, assert, ◌>>◌, ◌>>=◌, subst, arith,
}
use indecorous.Sync.WaitObject.{WaitResult}
use indecorous.Coro.Dispatcher.{
  swapped, Dispatcher, in_a_list, push_back, is_none, pop_front, swap_next, max_swaps_per_loop,
  word, run, swap, wait, yield_, finish, notify,
}
use indecorous.Coro.Dispatcher.Places.{count, listed, Holds, count-append, has_of_count, count_self}
use indecorous.Coro.Dispatcher.Switches.{report, Switched, pop_front-Switched, swap_next-Switched}

-- The rpcs that have been sent and accepted on this thread
pub record Rpcs : Type 0 where
  pub sent : ℕ
  pub accepted : ℕ

abbrev pub sum : List ℕ → ℕ
sum [] = 0
sum (x ∷ xs) = x + sum xs

-- What `update` has not been told yet
abbrev pub pending : Option ℕ → ℕ → ℕ
pending none delta = 0
pending (some c) delta = delta

-- Between two calls: each coroutine is in one place; and what `update` has been told, with the change that it
-- has not been told yet, is the change in the coroutines in use, from the first one on, with the rpcs.
pub record IsPlaced (waiting : List ℕ) (rpcs : Rpcs) (d : Dispatcher) : Type 0 where
  pub holds : Holds waiting (listed d.running) d
  pub free : d.to_release ≡ none
  pub balanced :
      (1 + sum d.updates + pending d.running d.coro_delta + rpcs.accepted) % word
      ≡ (d.extant + rpcs.sent) % word

sum-append : (xs ys : List ℕ) → sum (xs ++ ys) ≡ sum xs + sum ys
sum-append [] ys = omega arith
sum-append (x ∷ xs) ys = omega (arith, sum-append xs ys)

sum-report : (n : ℕ) → sum (report n) ≡ n
sum-report n = ground arith

-- The sum in the middle of a switch, where the ended coroutine is no longer in use
abbrev IsBalanced : ℕ → Rpcs → Dispatcher → Type 0
IsBalanced ended rpcs d =
    (1 + sum d.updates + d.coro_delta + rpcs.accepted + ended) % word
    ≡ (d.extant + rpcs.sent) % word

Switched-IsPlaced :
    (waiting : List ℕ) (rpcs : Rpcs) (d t : Dispatcher)
    → Switched waiting d t
    → IsBalanced (length (listed d.to_release)) rpcs d
    → IsPlaced waiting rpcs t
Switched-IsPlaced waiting rpcs d t s h = record {
  holds = s.holds;
  free = s.free;
  balanced = elim (Option-cases t.running) [
    | inl e ↦
        let told : t.updates ≡ d.updates ++ report d.coro_delta = s.told ∙ rw e refl in
        rw e (
          omega (
            arith,
            h,
            s.extant,
            ap sum told,
            sum-append d.updates (report d.coro_delta),
            sum-report d.coro_delta,
          ))
    | inr (c, e) ↦
        let told : t.updates ≡ d.updates ++ [] = s.told ∙ rw e refl in
        rw e (omega (arith, h, s.extant, s.delta, ap sum told, sum-append d.updates []))
  ];
}

-- The running coroutine `self` is put among those that wait.
parks-Holds :
    (self : ℕ) (waiting : List ℕ) (n : ℕ) (d : Dispatcher)
    → Holds waiting (self ∷ []) d
    → Holds (self ∷ waiting) [] (record d { swap_count = n; point = at self swapped d.point })
parks-Holds self waiting n d v = record {
  permitted = v.permitted;
  once = λ x. omega (arith, v.once x);
  fresh = λ x h. omega (arith, v.fresh x h);
  counted = omega (arith, v.counted);
  ready = λ x h. elim (Bool-cases (self == x)) [
    | inl e ↦ rw e refl
    | inr e ↦ rw e (v.ready x (ground (arith, e, h)))
  ];
  small = v.small;
  order = v.order;
}

-- It is put at the end of the run queue.
requeues-Holds :
    (self : ℕ) (waiting : List ℕ) (n : ℕ) (d : Dispatcher)
    → Holds waiting (self ∷ []) d
    → Holds waiting []
        (record (push_back self d) { swap_count = n; point = at self swapped d.point })
requeues-Holds self waiting n d v = record {
  permitted = v.permitted;
  once = λ x. omega (arith, v.once x, count-append x d.run_queue (self ∷ []));
  fresh = λ x h. omega (arith, v.fresh x h, count-append x d.run_queue (self ∷ []));
  counted = omega (arith, v.counted, length-append d.run_queue (self ∷ []));
  ready = λ x h. elim (Bool-cases (self == x)) [
    | inl e ↦ rw e refl
    | inr e ↦ rw e (v.ready x (ground (arith, e, h, count-append x d.run_queue (self ∷ []))))
  ];
  small = v.small;
  order = ap (λ l. l ++ self ∷ []) v.order ∙ append_assoc d.popped d.run_queue (self ∷ []);
}

-- It has ended, and is to be released.
ends-Holds :
    (self : ℕ) (waiting : List ℕ) (n delta : ℕ) (d : Dispatcher)
    → Holds waiting (self ∷ []) d
    → Holds waiting (self ∷ []) (record d {
      swap_count = n;
      point = at self swapped d.point;
      to_release = some self;
      coro_delta = delta;
    })
ends-Holds self waiting n delta d v = record {
  permitted = v.permitted;
  once = v.once;
  fresh = v.fresh;
  counted = v.counted;
  ready = λ x h. elim (Bool-cases (self == x)) [ inl e ↦ rw e refl | inr e ↦ rw e (v.ready x h) ];
  small = v.small;
  order = v.order;
}

pub running-Holds :
    (self : ℕ) (waiting : List ℕ) (d : Dispatcher)
    → d.running ≡ some self
    → Holds waiting (listed d.running) d
    → Holds waiting (self ∷ []) d
running-Holds self waiting d e v = subst (λ o. Holds waiting (listed o) d) e v

begins-Holds :
    (waiting others : List ℕ) (n delta : ℕ) (d : Dispatcher)
    → Holds waiting others d
    → Holds waiting others (record d { swap_count = n; coro_delta = delta })
begins-Holds waiting others n delta d v = record {
  permitted = v.permitted;
  once = v.once;
  fresh = v.fresh;
  counted = v.counted;
  ready = v.ready;
  small = v.small;
  order = v.order;
}

-- One of those that wait is put at the end of the run queue.
wakes-Holds :
    (c : ℕ) (before after others : List ℕ) (f : ℕ → WaitResult) (d : Dispatcher)
    → Holds (before ++ c ∷ after) others d
    → Holds (before ++ after) others (record (push_back c d) { wait_result = f })
wakes-Holds c before after others f d v =
    let split = λ (x : ℕ). count-append x before (c ∷ after) in
    let joined = λ (x : ℕ). count-append x before after in
    let queue = λ (x : ℕ). count-append x d.run_queue (c ∷ []) in
    record {
      permitted = v.permitted;
      once = λ x. omega (arith, v.once x, split x, joined x, queue x);
      fresh = λ x h. omega (arith, v.fresh x h, split x, joined x, queue x);
      counted = omega (
        arith,
        v.counted,
        length-append d.run_queue (c ∷ []),
        length-append before (c ∷ after),
        length-append before after,
      );
      ready = λ x h. v.ready x (omega (arith, h, split x, joined x, queue x));
      small = v.small;
      order = ap (λ l. l ++ c ∷ []) v.order ∙ append_assoc d.popped d.run_queue (c ∷ []);
    }

unlisted :
    (c : ℕ) (waiting others : List ℕ) (d : Dispatcher)
    → Holds waiting others d
    → 0 < count c waiting
    → in_a_list c d ≡ false
unlisted c waiting others d v h =
    let queue = has_of_count c d.run_queue (omega (arith, v.once c, h)) in
    let cache = has_of_count c d.cache (omega (arith, v.once c, h)) in rw (queue, cache) refl

pub swap-eq :
    (self : ℕ) (next : Option ℕ) (d : Dispatcher)
    → d.swap_permitted ≡ true
    → swap self next d
      ≡ swap_next next (record d { swap_count = 1 + d.swap_count; point = at self swapped d.point })
unfolding swap
swap-eq self next d h = rw h refl

-- A call that swaps leads to the main context, or uses up one of the swaps of the run.
abbrev pub IsSliced : Dispatcher → Dispatcher → Type 0
IsSliced d t =
    (t.running ≡ none) ⊎ ((t.swap_count ≡ 1 + d.swap_count) × (t.swap_count < max_swaps_per_loop))

-- A swap with no coroutine that comes next, once `self` has its place.
swap-IsPlaced :
    (self : ℕ) (waiting : List ℕ) (rpcs : Rpcs) (d : Dispatcher)
    → d.swap_permitted ≡ true
    → Holds waiting
        (listed d.to_release)
        (record d { swap_count = 1 + d.swap_count; point = at self swapped d.point })
    → IsBalanced (length (listed d.to_release)) rpcs d
    → (t : Dispatcher) × ((swap self none d ≡ ok t) × (IsPlaced waiting rpcs t × IsSliced d t))
swap-IsPlaced self waiting rpcs d permitted h b =
    let p = record d { swap_count = 1 + d.swap_count; point = at self swapped d.point } in
    let (t, (eq, (s, slice))) = swap_next-Switched waiting p h in
    (
      t,
      (
        swap-eq self none d permitted ∙ eq,
        (
          Switched-IsPlaced waiting rpcs p t s b,
          elim slice [ inl idle ↦ inl idle | inr few ↦ inr (s.swaps, omega (arith, s.swaps, few)) ],
        ),
      ),
    )

module _ (waiting : List ℕ) (rpcs : Rpcs) (d : Dispatcher) (v : IsPlaced waiting rpcs d) where
  balance_of : (self : ℕ) → d.running ≡ some self → IsBalanced 0 rpcs d
  balance_of self e = omega (arith, v.balanced, ap (λ o. pending o d.coro_delta) e)

  pub wait-IsPlaced :
      (self : ℕ)
      → d.running ≡ some self
      → (t : Dispatcher) × ((wait self d ≡ ok t)
          × (IsPlaced (self ∷ waiting) rpcs t × IsSliced d t))
  unfolding wait
  wait-IsPlaced self e =
      let n = 1 + d.swap_count in
      let h = parks-Holds self waiting n d (running-Holds self waiting d e v.holds) in
      swap-IsPlaced self (self ∷ waiting) rpcs d v.holds.permitted
        (subst
          (λ o.
            Holds (self ∷ waiting) (listed o)
              (record d { swap_count = n; point = at self swapped d.point }))
          (sym v.free) h)
        (omega (arith, balance_of self e, ap (λ o. length (listed o)) v.free))

  pub yield_-IsPlaced :
      (self : ℕ)
      → d.running ≡ some self
      → (t : Dispatcher) × ((yield_ self d ≡ ok t) × (IsPlaced waiting rpcs t × IsSliced d t))
  unfolding yield_
  yield_-IsPlaced self e =
      let n = 1 + d.swap_count in
      let h = requeues-Holds self waiting n d (running-Holds self waiting d e v.holds) in
      swap-IsPlaced self waiting rpcs (push_back self d) v.holds.permitted
        (subst
          (λ o.
            Holds waiting (listed o)
              (record (push_back self d) { swap_count = n; point = at self swapped d.point }))
          (sym v.free) h)
        (omega (arith, balance_of self e, ap (λ o. length (listed o)) v.free))

  pub finish-IsPlaced :
      (self : ℕ)
      → d.running ≡ some self
      → (t : Dispatcher) × ((finish self d ≡ ok t) × (IsPlaced waiting rpcs t × IsSliced d t))
  unfolding finish
  finish-IsPlaced self e =
      let n = 1 + d.swap_count in
      let delta = (d.coro_delta + (word - 1)) % word in
      let ended = record d { to_release = some self; coro_delta = delta } in
      let h = ends-Holds self waiting n delta d (running-Holds self waiting d e v.holds) in
      let (t, (eq, p)) =
        swap-IsPlaced self waiting rpcs ended v.holds.permitted h
          (omega (arith, balance_of self e)) in
      (t, (ap (λ o. (assert (is_none o) >> ok ended) >>= swap self none) v.free ∙ eq, p))

  pub run-IsPlaced :
      d.running ≡ none → (t : Dispatcher) × ((run d ≡ ok t) × IsPlaced waiting rpcs t)
  unfolding run
  run-IsPlaced e =
      let begun = record d { swap_count = 0; coro_delta = 0 } in
      let h : Holds waiting (listed d.to_release) begun =
        begins-Holds waiting (listed d.to_release) 0 0 d
          (subst (λ l. Holds waiting l d) (ap listed e ∙ sym (ap listed v.free)) v.holds) in
      let (t, (eq, s)) = pop_front-Switched d.run_queue waiting begun refl h in
      (
        t,
        (
          ap (λ o. assert (is_none o) >> pop_front d.run_queue begun) e ∙ eq,
          Switched-IsPlaced waiting rpcs begun t s (
              omega (
                arith,
                v.balanced,
                ap (λ o. pending o d.coro_delta) e,
                ap (λ o. length (listed o)) v.free,
              )),
        ),
      )

  -- A coroutine that is among those that wait can be notified.
  pub notify-IsPlaced :
      (c : ℕ) (before after : List ℕ) (result : WaitResult)
      → waiting ≡ before ++ c ∷ after
      → (t : Dispatcher) × ((notify c result d ≡ ok t) × IsPlaced (before ++ after) rpcs t)
  unfolding notify
  notify-IsPlaced c before after result e =
      let woken = record (push_back c d) { wait_result = at c result d.wait_result } in
      let h : Holds (before ++ c ∷ after) (listed d.running) d =
        subst (λ w. Holds w (listed d.running) d) e v.holds in
      let some_place : 0 < count c (before ++ c ∷ after) =
        omega (arith, count-append c before (c ∷ after), count_self c after) in
      let out = unlisted c (before ++ c ∷ after) (listed d.running) d h some_place in
      (
        woken,
        (
          ap (λ b. assert (not b) >> ok woken) out,
          record {
            holds = wakes-Holds c before after (listed d.running) (at c result d.wait_result) d h;
            free = v.free;
            balanced = v.balanced;
          },
        ),
      )
