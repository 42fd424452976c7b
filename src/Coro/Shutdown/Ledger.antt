-- ===== src/Coro/Shutdown/Ledger.antt =====
-- src/coro/shutdown.cc: the tasks that `shutdown_t` stands for, and what it has told the threads.
use indecorous.Base.{
  ℕ, zero, suc, ◌+◌, ◌-◌, ◌%◌, ◌≤◌, ◌<◌, ◌≡◌, refl, ap, true, false, Bool, List, [], ◌++◌, map,
  length, ◌==◌, Bool-cases, inl, inr, arith,
}
use indecorous.Coro.Shutdown.{
  word, Message, begin_call, finish_call, Shutdown, create, reset, complete, update, begin_shutdown,
}

-- Before `begin_shutdown`, behind it while tasks are left, and behind the end of the last one.
pub data Phase : Type 0 where
  waiting closing finished : Phase

-- The change of the counter where tasks have started and others have ended
abbrev pub delta : ℕ → ℕ → ℕ
delta started ended = (started + (word - ended)) % word

-- While the threads close, the last task is not an ordinary one.
abbrev pub IsOngoing : Phase → ℕ → Type 0
IsOngoing waiting rest = Unit
IsOngoing closing rest = 0 < rest
IsOngoing finished rest = Unit

-- `Reach targets p live s`: from a `reset` on, tasks have started and ended, `live` of them are left in the
-- phase `p`, and the calls of `update` and `begin_shutdown` that go with them have led to `s`. A message to
-- a target is a task. The numbers of tasks fit into a word.
pub data Reach (targets : List ℕ) : Phase → ℕ → Shutdown → Type 0 where
  resets :
      (initial_count : ℕ)
      → 0 < length targets
      → length targets < word
      → initial_count + 1 < word
      → Reach targets waiting initial_count (reset initial_count (create targets))
  works :
      (started ended rest : ℕ) {p : Phase} {live : ℕ} {s : Shutdown}
      → Reach targets p live s
      → live + started ≡ rest + ended
      → started < word
      → ended < word
      → rest + 1 < word
      → IsOngoing p rest
      → Reach targets p rest (update (delta started ended) s)
  begins :
      {live : ℕ} {s : Shutdown}
      → Reach targets waiting live s
      → live + length targets < word
      → Reach targets closing (live + length targets) (begin_shutdown s)
  ends :
      (started ended : ℕ) {live : ℕ} {s : Shutdown}
      → Reach targets closing live s
      → live + started ≡ ended
      → started < word
      → ended < word
      → Reach targets finished (length targets) (update (delta started ended) s)

-- The messages of a phase
abbrev pub told : Phase → List ℕ → List Message
told waiting targets = []
told closing targets = map begin_call targets
told finished targets = map begin_call targets ++ map finish_call targets

-- What the counter has above the tasks: one before `begin_shutdown`
abbrev pub dummy : Phase → ℕ
dummy waiting = 1
dummy closing = 0
dummy finished = 0

abbrev pub is_finished : Phase → Bool
is_finished waiting = false
is_finished closing = false
is_finished finished = true

-- What `shutdown_t` is in a phase
pub record Tells (targets : List ℕ) (p : Phase) (live : ℕ) (s : Shutdown) : Type 0 where
  pub same : s.targets ≡ targets
  pub some_target : 0 < length targets
  pub few : length targets < word
  pub counted : s.active_count ≡ live + dummy p
  pub flag : s.finish_sent ≡ is_finished p
  pub messages : s.sent ≡ told p targets
  pub left : IsOngoing p live

sum-delta :
    (a started ended rest : ℕ)
    → a + started ≡ rest + ended
    → rest < word
    → started < word
    → ended < word
    → (a + delta started ended) % word ≡ rest
sum-delta a started ended rest h i j k = omega arith

-- An `update` that leaves something in the counter
update-some :
    (active_delta n : ℕ) (s : Shutdown)
    → (s.active_count + active_delta) % word ≡ n
    → 0 < n
    → update active_delta s ≡ record s { active_count = n }
unfolding update
update-some active_delta n s h some_left =
    let busy : (n == 0) ≡ false = ground (arith, some_left) in rw (h, busy) refl

-- One that leaves nothing, where the targets have been told
update-again :
    (active_delta : ℕ) (s : Shutdown)
    → (s.active_count + active_delta) % word ≡ 0
    → s.finish_sent ≡ true
    → update active_delta s ≡ record s { active_count = 0 }
unfolding update
update-again active_delta s h told = elim (Bool-cases (s.active_count == 0)) [
  | inl e ↦ rw (h, e) refl
  | inr e ↦ rw (h, e, told) refl
]

-- One that leaves nothing, where they have not
update-last :
    (active_delta : ℕ) (s : Shutdown)
    → (s.active_count + active_delta) % word ≡ 0
    → 0 < s.active_count
    → s.finish_sent ≡ false
    → update active_delta s ≡ complete (record s { active_count = 0 })
unfolding update complete
update-last active_delta s h some_left fresh =
    let busy : (s.active_count == 0) ≡ false = ground (arith, some_left) in rw (h, busy, fresh) refl

update-works :
    (p : Phase) (active_delta rest : ℕ) (s : Shutdown)
    → (s.active_count + active_delta) % word ≡ rest + dummy p
    → s.finish_sent ≡ is_finished p
    → IsOngoing p rest
    → update active_delta s ≡ record s { active_count = rest + dummy p }
update-works waiting d rest s h flag left = update-some d (rest + 1) s h (omega arith)
update-works closing d rest s h flag left = update-some d (rest + 0) s h (omega (arith, left))
update-works finished d zero s h flag left = update-again d s h flag
update-works finished d (suc rest) s h flag left = update-some d (suc rest + 0) s h (omega arith)

dummy-le : (p : Phase) → dummy p ≤ 1
dummy-le waiting = omega arith
dummy-le closing = omega arith
dummy-le finished = omega arith

-- In every reachable state the targets have been told of the beginning in the phases behind
-- `begin_shutdown`, each once, and of the end when the last task has ended and not before, each once,
-- however many tasks start and end in between or later; the counter is the number of tasks, with one more
-- before `begin_shutdown`.
pub Reach-Tells :
    (targets : List ℕ) {p : Phase} {live : ℕ} {s : Shutdown}
    → Reach targets p live s
    → Tells targets p live s
unfolding create reset complete begin_shutdown
Reach-Tells targets (resets n some_target few small) = record {
  same = refl;
  some_target = some_target;
  few = few;
  counted = omega (arith, small);
  flag = refl;
  messages = refl;
  left = tt;
}
Reach-Tells targets (works started ended rest {p} {live} {s} r h i j k left) =
    let v = Reach-Tells targets r in
    let now =
      sum-delta s.active_count started ended (rest + dummy p) (omega (arith, v.counted, h))
        (omega (arith, dummy-le p, k)) i j in
    rw (update-works p (delta started ended) rest s now v.flag left) record {
      same = v.same;
      some_target = v.some_target;
      few = v.few;
      counted = refl;
      flag = v.flag;
      messages = v.messages;
      left = left;
    }
Reach-Tells targets (begins {live} {s} r small) =
    let v = Reach-Tells targets r in
    let size = ap length v.same in
    let now : (s.active_count + (length s.targets + (word - 1)) % word) % word
        ≡ live + length targets =
      omega (arith, v.counted, small, size) in
    rw
      (update-some ((length s.targets + (word - 1)) % word) (live + length targets) s now
        (omega (arith, v.some_target)))
      record {
        same = v.same;
        some_target = v.some_target;
        few = v.few;
        counted = omega arith;
        flag = v.flag;
        messages = rw (v.messages, v.same) refl;
        left = omega (arith, v.some_target);
      }
Reach-Tells targets (ends started ended {live} {s} r h i j) =
    let v = Reach-Tells targets r in
    let now =
      sum-delta s.active_count started ended 0 (omega (arith, v.counted, h)) (omega arith) i j in
    rw (update-last (delta started ended) s now (omega (arith, v.counted, v.left)) v.flag) record {
      same = v.same;
      some_target = v.some_target;
      few = v.few;
      counted = omega (arith, ap length v.same, v.few);
      flag = refl;
      messages = rw (v.messages, v.same) refl;
      left = tt;
    }
