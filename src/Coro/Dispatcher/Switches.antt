-- ===== src/Coro/Dispatcher/Switches.antt =====
-- src/coro/coro.cc: a switch from one coroutine to another, or to the main context.
use indecorous.Base.{
  at, ℕ, ◌+◌, ◌<◌, ◌≡◌, refl, ap, ◌∙◌, sym, ◌⊎◌, inl, inr, true, Bool-cases, Option, none, some,
  List, [], ◌∷◌, ◌++◌, append_assoc, append-nil, length, length-append, ok, ◌==◌, leb,
  if◌then◌else◌, subst, arith,
}
use indecorous.Sync.WaitObject.{WaitResult, success}
use indecorous.Coro.Dispatcher.{
  Point, nowhere, initially, swapped, launching, Dispatcher, continue, is_none, switch_to,
  switch_to_main, pop_front, swap_next, max_swaps_per_loop,
}
use indecorous.Coro.Dispatcher.Places.{
  count, listed, is_ready, Holds, count-append, count_self, released, release_ended-eq,
  released-Holds,
}

-- The call of `update` at the end of `run`
abbrev pub report : ℕ → List ℕ
report delta = if delta == 0 then [] else delta ∷ []

-- What a switch from `d` leads to: the coroutines are in their places, the one that had ended is released,
-- and the change of the tasks is reported if the main context goes on.
pub record Switched (waiting : List ℕ) (d t : Dispatcher) : Type 0 where
  pub holds : Holds waiting (listed t.running) t
  pub free : t.to_release ≡ none
  pub delta : t.coro_delta ≡ d.coro_delta
  pub swaps : t.swap_count ≡ d.swap_count
  pub extant : t.extant + length (listed d.to_release) ≡ d.extant
  pub told : t.updates ≡ d.updates ++ (if is_none t.running then report d.coro_delta else [])

released-free :
    (r : Option ℕ) (d : Dispatcher) → d.to_release ≡ r → (released r d).to_release ≡ none
released-free none d h = h
released-free (some c) d h = refl

released-extant :
    (r : Option ℕ) (waiting others : List ℕ) (d : Dispatcher)
    → Holds waiting (listed r ++ others) d
    → (released r d).extant + length (listed r) ≡ d.extant
released-extant none waiting others d v = omega arith
released-extant (some c) waiting others d v = omega (arith, v.counted)

released-same :
    (r : Option ℕ) (d : Dispatcher)
    → ((released r d).running ≡ d.running)
      × (((released r d).coro_delta ≡ d.coro_delta)
          × (((released r d).updates ≡ d.updates) × ((released r d).swap_count ≡ d.swap_count)))
released-same none d = (refl, (refl, (refl, refl)))
released-same (some c) d = (refl, (refl, (refl, refl)))

-- A running coroutine's result of a wait is in no place.
rewait-Holds :
    (waiting others : List ℕ) (f : ℕ → WaitResult) (d : Dispatcher)
    → Holds waiting others d
    → Holds waiting others (record d { wait_result = f })
rewait-Holds waiting others f d v = record {
  permitted = v.permitted;
  once = v.once;
  fresh = v.fresh;
  counted = v.counted;
  ready = v.ready;
  small = v.small;
  order = v.order;
}

continue-Switched :
    (p : Point) (c : ℕ) (waiting : List ℕ) (d : Dispatcher)
    → is_ready p ≡ true
    → d.running ≡ some c
    → Holds waiting (listed d.to_release ++ c ∷ []) d
    → (t : Dispatcher) × ((continue p c d ≡ ok t) × (Switched waiting d t × (t.running ≡ some c)))
continue-Switched nowhere c waiting d ready runs v = cc
continue-Switched initially c waiting d ready runs v = cc
continue-Switched (launching (some parent)) c waiting d ready runs v = cc
continue-Switched (launching none) c waiting d ready runs v =
    let r = d.to_release in
    let (same, (delta, (updates, swaps))) = released-same r d in
    let here : (released r d).running ≡ some c = same ∙ runs in
    (
      released r d,
      (
        rw (release_ended-eq r waiting (c ∷ []) d v) refl,
        (
          record {
            holds = rw here (released-Holds r waiting (c ∷ []) d v);
            free = released-free r d refl;
            delta = delta;
            swaps = swaps;
            extant = released-extant r waiting (c ∷ []) d v;
            told = rw here (updates ∙ sym (append-nil d.updates));
          },
          here,
        ),
      ),
    )
continue-Switched swapped c waiting d ready runs v =
    let r = d.to_release in
    let (same, (delta, (updates, swaps))) = released-same r d in
    let here : (released r d).running ≡ some c = same ∙ runs in
    let f = at c success (released r d).wait_result in
    (
      record (released r d) { wait_result = f },
      (
        rw (release_ended-eq r waiting (c ∷ []) d v) refl,
        (
          record {
            holds =
                subst (λ o. Holds waiting (listed o) (record (released r d) { wait_result = f }))
                  (sym here)
                  (rewait-Holds waiting (c ∷ []) f (released r d)
                    (released-Holds r waiting (c ∷ []) d v));
            free = released-free r d refl;
            delta = delta;
            swaps = swaps;
            extant = released-extant r waiting (c ∷ []) d v;
            told = rw here (updates ∙ sym (append-nil d.updates));
          },
          here,
        ),
      ),
    )

-- The front of the queue is taken out of it and runs.
pops-Holds :
    (c : ℕ) (rest waiting others : List ℕ) (d : Dispatcher)
    → d.run_queue ≡ c ∷ rest
    → Holds waiting others d
    → Holds waiting
        (others ++ c ∷ [])
        (record d { run_queue = rest; popped = d.popped ++ c ∷ []; running = some c })
pops-Holds c rest waiting others d q v = record {
  permitted = v.permitted;
  once = λ x. omega (arith, v.once x, ap (count x) q, count-append x others (c ∷ []));
  fresh = λ x h. omega (arith, v.fresh x h, ap (count x) q, count-append x others (c ∷ []));
  counted = omega (arith, v.counted, ap length q, length-append others (c ∷ []));
  ready = λ x h. v.ready x (omega (arith, h, ap (count x) q));
  small = v.small;
  order = v.order ∙ ap (λ l. d.popped ++ l) q ∙ sym (append_assoc d.popped (c ∷ []) rest);
}

idle-Holds :
    (waiting others : List ℕ) (d : Dispatcher)
    → Holds waiting others d
    → Holds waiting others (record d { running = none })
idle-Holds waiting others d v = record {
  permitted = v.permitted;
  once = v.once;
  fresh = v.fresh;
  counted = v.counted;
  ready = v.ready;
  small = v.small;
  order = v.order;
}

retold-Holds :
    (waiting others updates : List ℕ) (d : Dispatcher)
    → Holds waiting others d
    → Holds waiting others (record d { updates = updates })
retold-Holds waiting others updates d v = record {
  permitted = v.permitted;
  once = v.once;
  fresh = v.fresh;
  counted = v.counted;
  ready = v.ready;
  small = v.small;
  order = v.order;
}

pub switch_to_main-Switched :
    (waiting : List ℕ) (d : Dispatcher)
    → Holds waiting (listed d.to_release) d
    → (t : Dispatcher) × ((switch_to_main d ≡ ok t) × (Switched waiting d t × (t.running ≡ none)))
unfolding switch_to_main
switch_to_main-Switched waiting d v =
    let r = d.to_release in
    let i = record d { running = none } in
    let w =
      subst (λ l. Holds waiting l i) (sym (append-nil (listed r)))
        (idle-Holds waiting (listed r) d v) in
    let (same, (delta, (updates, swaps))) = released-same r i in
    let told = (released r i).updates ++ report (released r i).coro_delta in
    (
      record (released r i) { updates = told },
      (
        rw (release_ended-eq r waiting [] i w, same) refl,
        (
          record {
            holds =
                subst (λ o. Holds waiting (listed o) (record (released r i) { updates = told }))
                  (sym same)
                  (retold-Holds waiting [] told (released r i) (released-Holds r waiting [] i w));
            free = released-free r i refl;
            delta = delta;
            swaps = swaps;
            extant = released-extant r waiting [] i w;
            told = rw (same, delta, updates) refl;
          },
          same,
        ),
      ),
    )

pub pop_front-Switched :
    (q waiting : List ℕ) (d : Dispatcher)
    → d.run_queue ≡ q
    → Holds waiting (listed d.to_release) d
    → (t : Dispatcher) × ((pop_front q d ≡ ok t) × Switched waiting d t)
unfolding switch_to
pop_front-Switched [] waiting d e v =
    let (t, (eq, (s, idle))) = switch_to_main-Switched waiting d v in (t, (eq, s))
pop_front-Switched (c ∷ rest) waiting d e v =
    let ready = v.ready c (omega (arith, ap (count c) e, count_self c rest)) in
    let popped = record d { run_queue = rest; popped = d.popped ++ c ∷ []; running = some c } in
    let (t, (eq, (s, runs))) =
      continue-Switched (d.point c) c waiting popped ready refl
        (pops-Holds c rest waiting (listed d.to_release) d e v) in
    (
      t,
      (
        eq,
        record {
          holds = s.holds;
          free = s.free;
          delta = s.delta;
          swaps = s.swaps;
          extant = s.extant;
          told = s.told;
        },
      ),
    )

-- `swap` with no coroutine that comes next, behind its first lines: it goes on with a coroutine only while
-- there have been few swaps.
pub swap_next-Switched :
    (waiting : List ℕ) (d : Dispatcher)
    → Holds waiting (listed d.to_release) d
    → (t : Dispatcher) × ((swap_next none d ≡ ok t)
        × (Switched waiting d t × ((t.running ≡ none) ⊎ (d.swap_count < max_swaps_per_loop))))
swap_next-Switched waiting d v = elim (Bool-cases (leb max_swaps_per_loop d.swap_count)) [
  | inl e ↦
      let (t, (eq, (s, idle))) = switch_to_main-Switched waiting d v in
      (t, (rw e eq, (s, inl idle)))
  | inr e ↦
      let (t, (eq, s)) = pop_front-Switched d.run_queue waiting d refl v in
      (t, (rw e eq, (s, inr (ground (arith, e)))))
]
