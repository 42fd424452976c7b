-- ===== src/Sync/Event.antt =====
-- src/sync/event.hpp and event.cc: `event_t`, with the log of the callbacks that were run.
use indecorous.Base.{
  ℕ, ◌+◌, ◌≡◌, ◌⊎◌, inl, inr, refl, Bool, true, false, Bool-cases, List, [], ◌∷◌, ◌++◌, length,
  length-append, length-snoc, if◌then◌else◌, subst, arith,
}
use indecorous.Sync.WaitObject.{WaitResult, success, object_lost, Notice, notices}

pub record Event : Type 0 where
  pub triggered : Bool
  pub waiters : List ℕ
  pub woken : List Notice

-- `event_t()`
unfoldable pub create : Event
create = record { triggered = false; waiters = []; woken = [] }

-- `set`
unfoldable pub set : Event → Event
set e = record e { triggered = true; waiters = []; woken = e.woken ++ notices success e.waiters }

-- `reset`
unfoldable pub reset : Event → Event
reset e = record e { triggered = false }

-- `add_wait`
unfoldable pub add_wait : ℕ → Event → Event
add_wait cb e =
    if e.triggered
    then record e { woken = e.woken ++ (cb, success) ∷ [] }
    else record e { waiters = e.waiters ++ cb ∷ [] }

-- `event_t(event_t &&other)`: the new event, which keeps the flag and has the waiters.
unfoldable pub move : Event → Event
move e = record { triggered = e.triggered; waiters = e.waiters; woken = e.woken }

-- `~event_t`: what is left is the log.
unfoldable pub destroy : Event → Event
destroy e = record e { waiters = []; woken = e.woken ++ notices object_lost e.waiters }

pub data Call : Type 0 where
  sets resets moves : Call
  waits : ℕ → Call

abbrev pub call : Call → Event → Event
call sets e = set e
call resets e = reset e
call moves e = move e
call (waits cb) e = add_wait cb e

-- A run of calls on a new event.
abbrev pub run : List Call → Event → Event
run [] e = e
run (c ∷ cs) e = run cs (call c e)

-- The waits among the calls.
abbrev pub waits_in : List Call → ℕ
waits_in [] = 0
waits_in (waits cb ∷ cs) = 1 + waits_in cs
waits_in (sets ∷ cs) = waits_in cs
waits_in (resets ∷ cs) = waits_in cs
waits_in (moves ∷ cs) = waits_in cs

-- Nobody waits on an event that is triggered, and `n` waits are told or wait.
pub record IsSettled (n : ℕ) (e : Event) : Type 0 where
  pub settled : (e.triggered ≡ false) ⊎ (e.waiters ≡ [])
  pub counted : length e.woken + length e.waiters ≡ n

length-notices : (result : WaitResult) (ws : List ℕ) → length (notices result ws) ≡ length ws
length-notices result [] = refl
length-notices result (w ∷ ws) = omega (arith, length-notices result ws)

add_wait-IsSettled : (cb n : ℕ) (e : Event) → IsSettled n e → IsSettled (1 + n) (add_wait cb e)
unfolding add_wait
add_wait-IsSettled cb n e v = elim (Bool-cases e.triggered) [
  | inl t ↦
      let nobody : e.waiters ≡ [] = elim v.settled [ inl f ↦ cc | inr w ↦ w ] in
      rw t (record {
        settled = inr nobody;
        counted = omega (arith, v.counted, length-snoc e.woken (cb, success));
      })
  | inr t ↦
      rw t (record {
        settled = inl refl;
        counted = omega (arith, v.counted, length-snoc e.waiters cb);
      })
]

set-IsSettled : (n : ℕ) (e : Event) → IsSettled n e → IsSettled n (set e)
unfolding set
set-IsSettled n e v = record {
  settled = inr refl;
  counted = omega (
    arith,
    v.counted,
    length-append e.woken (notices success e.waiters),
    length-notices success e.waiters,
  );
}

run-go :
    (cs : List Call) (n total : ℕ) (e : Event)
    → waits_in cs + n ≡ total
    → IsSettled n e
    → IsSettled total (run cs e)
unfolding reset move
run-go [] n total e h v = let same : n ≡ total = omega arith in subst (λ k. IsSettled k e) same v
run-go (waits cb ∷ cs) n total e h v =
    run-go cs (1 + n) total (add_wait cb e) (omega arith) (add_wait-IsSettled cb n e v)
run-go (sets ∷ cs) n total e h v = run-go cs n total (set e) h (set-IsSettled n e v)
run-go (resets ∷ cs) n total e h v =
    run-go cs n total (reset e) h (record { settled = inl refl; counted = v.counted })
run-go (moves ∷ cs) n total e h v =
    run-go cs n total (move e) h (record { settled = v.settled; counted = v.counted })

-- After any run of calls on a new event, every wait has been told or still waits, once, and nobody waits
-- on an event that is triggered. The destructor then tells those who wait.
pub run-IsSettled :
    (cs : List Call)
    → IsSettled (waits_in cs) (run cs create)
      × (length (destroy (run cs create)).woken ≡ waits_in cs)
unfolding create destroy
run-IsSettled cs =
    let e = run cs create in
    let v : IsSettled (waits_in cs) e =
      run-go cs 0 (waits_in cs) create (omega arith)
        (record { settled = inl refl; counted = refl }) in
    (
      v,
      omega (
        arith,
        v.counted,
        length-append e.woken (notices object_lost e.waiters),
        length-notices object_lost e.waiters,
      ),
    )
