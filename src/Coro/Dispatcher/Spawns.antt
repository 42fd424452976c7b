-- ===== src/Coro/Dispatcher/Spawns.antt =====
-- src/coro/coro.hpp: `coro_t::spawn_internal`.
use indecorous.Base.{
  at, ℕ, ◌+◌, ◌%◌, ◌≡◌, refl, ap, ◌∙◌, sym, inl, inr, false, Bool-cases, none, some, List, [], ◌∷◌,
  ◌++◌, append_assoc, length, length-append, ok, ◌==◌, ==_refl, subst, arith,
}
use indecorous.Coro.Dispatcher.{
  swapped, launching, Dispatcher, push_back, switch_to, word, note_new_task, spawn, get, get_from,
  SpawnType, immediate, detached, delayed, start,
}
use indecorous.Coro.Dispatcher.Places.{count, listed, Holds, count-append, count_self}
use indecorous.Coro.Dispatcher.Calls.{Rpcs, IsPlaced, swap-eq, running-Holds, sum, pending}

-- A coroutine from the cache, or a new one
get_from-Holds :
    (cache waiting others : List ℕ) (d : Dispatcher)
    → d.cache ≡ cache
    → Holds waiting others d
    → Holds waiting ((get_from cache d).0 ∷ others) (get_from cache d).1
get_from-Holds [] waiting others d e v = record {
  permitted = v.permitted;
  once = λ x. elim (Bool-cases (x == d.made)) [
    | inl s ↦ rw s (omega (arith, v.fresh x (ground (arith, s))))
    | inr s ↦ rw s (omega (arith, v.once x))
  ];
  fresh = λ x h. ground (arith, v.fresh x (omega (arith, h)), h);
  counted = omega (arith, v.counted);
  ready = v.ready;
  small = v.small;
  order = v.order;
}
get_from-Holds (c ∷ rest) waiting others d e v = record {
  permitted = v.permitted;
  once = λ x. omega (arith, v.once x, ap (count x) e);
  fresh = λ x h. omega (arith, v.fresh x h, ap (count x) e);
  counted = omega (arith, v.counted);
  ready = v.ready;
  small = omega (arith, v.small, ap length e);
  order = v.order;
}

-- The coroutine that was got is put in the queue.
queues-Holds :
    (c delta : ℕ) (waiting others : List ℕ) (d : Dispatcher)
    → Holds waiting (c ∷ others) d
    → Holds waiting others
        (push_back c (record d { point = at c (launching none) d.point; coro_delta = delta }))
queues-Holds c delta waiting others d v = record {
  permitted = v.permitted;
  once = λ x. omega (arith, v.once x, count-append x d.run_queue (c ∷ []));
  fresh = λ x h. omega (arith, v.fresh x h, count-append x d.run_queue (c ∷ []));
  counted = omega (arith, v.counted, length-append d.run_queue (c ∷ []));
  ready = λ x h. elim (Bool-cases (c == x)) [
    | inl e ↦ rw e refl
    | inr e ↦ rw e (v.ready x (ground (arith, e, h, count-append x d.run_queue (c ∷ []))))
  ];
  small = v.small;
  order = ap (λ l. l ++ c ∷ []) v.order ∙ append_assoc d.popped d.run_queue (c ∷ []);
}

-- It runs at once, and its parent is put in the queue.
overtakes-Holds :
    (c self n delta : ℕ) (waiting : List ℕ) (d : Dispatcher)
    → Holds waiting (c ∷ self ∷ []) d
    → Holds waiting (c ∷ []) (
        push_back self (record d {
          point = at self swapped (at c (launching (some self)) d.point);
          coro_delta = delta;
          swap_count = n;
          running = some c;
        }))
overtakes-Holds c self n delta waiting d v = record {
  permitted = v.permitted;
  once = λ x. omega (arith, v.once x, count-append x d.run_queue (self ∷ []));
  fresh = λ x h. omega (arith, v.fresh x h, count-append x d.run_queue (self ∷ []));
  counted = omega (arith, v.counted, length-append d.run_queue (self ∷ []));
  ready = λ x h. elim (Bool-cases (self == x)) [
    | inl e ↦ rw e refl
    | inr e ↦ elim (Bool-cases (c == x)) [
      | inl s ↦
          let no_place : ⊥ =
            ground (arith, e, s, h, v.once x, count-append x d.run_queue (self ∷ [])) in
          absurd no_place
      | inr s ↦ rw (e, s) (v.ready x (ground (arith, e, h, count-append x d.run_queue (self ∷ []))))
    ]
  ];
  small = v.small;
  order = ap (λ l. l ++ self ∷ []) v.order ∙ append_assoc d.popped d.run_queue (self ∷ []);
}

get_from-same :
    (cache : List ℕ) (d : Dispatcher)
    → ((get_from cache d).1.running ≡ d.running)
      × (((get_from cache d).1.to_release ≡ d.to_release)
          × (((get_from cache d).1.coro_delta ≡ d.coro_delta)
              × (((get_from cache d).1.updates ≡ d.updates)
                  × ((get_from cache d).1.extant ≡ 1 + d.extant))))
get_from-same [] d = (refl, (refl, (refl, (refl, refl))))
get_from-same (c ∷ rest) d = (refl, (refl, (refl, (refl, refl))))

-- The switch to a coroutine that runs at once
launches-eq :
    (c self : ℕ) (d : Dispatcher)
    → (self == c) ≡ false
    → d.to_release ≡ none
    → switch_to c (record d { point = at self swapped (at c (launching (some self)) d.point) })
      ≡ ok (
          push_back self (record d {
            point = at self swapped (at c (launching (some self)) d.point);
            running = some c;
          }))
unfolding switch_to
launches-eq c self d apart free = rw (apart, ==_refl c, free) refl

apart_of :
    (c self : ℕ) (waiting : List ℕ) (d : Dispatcher)
    → Holds waiting (c ∷ self ∷ []) d
    → (self == c) ≡ false
apart_of c self waiting d v = elim (Bool-cases (self == c)) [
  | inl e ↦ let twice : ⊥ = ground (arith, e, v.once c, count_self c (self ∷ [])) in absurd twice
  | inr e ↦ e
]

module _ (waiting : List ℕ) (rpcs : Rpcs) (d : Dispatcher) (v : IsPlaced waiting rpcs d) (self : ℕ)
    (e : d.running ≡ some self) where
  abbrev fetched : ℕ × Dispatcher
  fetched = get_from d.cache d

  fetched-Holds : Holds waiting (fetched.0 ∷ self ∷ []) fetched.1
  fetched-Holds =
      get_from-Holds d.cache waiting (self ∷ []) d refl (running-Holds self waiting d e v.holds)

  abbrev delta_of : ℕ
  delta_of = (fetched.1.coro_delta + 1) % word

  -- One more coroutine in use, and one more task
  spawned_balance :
      (1 + sum fetched.1.updates + delta_of + rpcs.accepted) % word
      ≡ (fetched.1.extant + rpcs.sent) % word
  spawned_balance =
      let (running, (to_release, (delta, (updates, extant)))) = get_from-same d.cache d in
      omega (arith, v.balanced, ap (λ o. pending o d.coro_delta) e, delta, ap sum updates, extant)

  queued_child : Dispatcher
  queued_child = push_back fetched.0 (record fetched.1 {
    point = at fetched.0 (launching none) fetched.1.point;
    coro_delta = delta_of;
  })

  queued_child-IsPlaced : IsPlaced waiting rpcs queued_child
  unfolding queued_child
  queued_child-IsPlaced =
      let (running, (to_release, others)) = get_from-same d.cache d in
      let runs : fetched.1.running ≡ some self = running ∙ e in
      record {
        holds =
            subst (λ o. Holds waiting (listed o) queued_child) (sym runs)
              (queues-Holds fetched.0 delta_of waiting (self ∷ []) fetched.1 fetched-Holds);
        free = to_release ∙ v.free;
        balanced = omega (arith, spawned_balance, ap (λ o. pending o delta_of) runs);
      }

  counted_child : Dispatcher
  counted_child = record fetched.1 { coro_delta = delta_of; swap_count = 1 + fetched.1.swap_count }

  -- The child runs, and its parent is in the queue.
  running_child : Dispatcher
  running_child = push_back self (record fetched.1 {
    point = at self swapped (at fetched.0 (launching (some self)) fetched.1.point);
    coro_delta = delta_of;
    swap_count = 1 + fetched.1.swap_count;
    running = some fetched.0;
  })

  immediate-eq : start immediate self fetched.0 (note_new_task fetched.1) ≡ ok running_child
  unfolding note_new_task running_child counted_child
  immediate-eq =
      let (running, (to_release, others)) = get_from-same d.cache d in
      let child = record (note_new_task fetched.1) {
        point = at fetched.0 (launching (some self)) fetched.1.point;
      } in
      let h = fetched-Holds in
      swap-eq self (some fetched.0) child h.permitted
      ∙ launches-eq fetched.0 self counted_child (apart_of fetched.0 self waiting fetched.1 h)
          (to_release ∙ v.free)

  running_child-IsPlaced : IsPlaced waiting rpcs running_child
  unfolding running_child
  running_child-IsPlaced =
      let (running, (to_release, others)) = get_from-same d.cache d in
      record {
        holds =
            overtakes-Holds fetched.0 self (1 + fetched.1.swap_count) delta_of waiting fetched.1
              fetched-Holds;
        free = to_release ∙ v.free;
        balanced = spawned_balance;
      }

  pub spawn-IsPlaced :
      (type : SpawnType) → (t : Dispatcher) × ((spawn type self d ≡ ok t) × IsPlaced waiting rpcs t)
  unfolding spawn get note_new_task queued_child
  spawn-IsPlaced immediate = (running_child, (immediate-eq, running_child-IsPlaced))
  spawn-IsPlaced detached = (queued_child, (refl, queued_child-IsPlaced))
  spawn-IsPlaced delayed = (queued_child, (refl, queued_child-IsPlaced))
