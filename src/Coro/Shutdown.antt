-- ===== src/Coro/Shutdown.antt =====
-- src/coro/shutdown.hpp and shutdown.cc: `shutdown_t`, which counts the tasks of all threads and tells the
-- threads when none is left. A call of `update` is one step: its additions to the counter wrap at 64 bits.
pub mod Ledger
use indecorous.Base.{
  ℕ, ◌+◌, ◌-◌, ◌*◌, ◌^◌, ◌%◌, Bool, true, false, List, [], ◌∷◌, ◌++◌, map, length, ◌==◌,
  if◌then◌else◌,
}

-- `std::atomic<uint64_t>`
abbrev pub word : ℕ
word = 2 ^ 64

-- The calls of `call_noreply`, each with its target
pub data Message : Type 0 where
  begin_call finish_call : ℕ → Message

-- `shutdown_t`, with the messages that have been sent, the oldest first
pub record Shutdown : Type 0 where
  pub targets : List ℕ
  pub finish_sent : Bool
  pub active_count : ℕ
  pub sent : List Message

-- `shutdown_t(targets)`
unfoldable pub create : List ℕ → Shutdown
create targets = record { targets = targets; finish_sent = true; active_count = 0; sent = [] }

-- `reset`
unfoldable pub reset : ℕ → Shutdown → Shutdown
reset initial_count s = record s { active_count = (initial_count + 1) % word; finish_sent = false }

-- What `update` does when it finds that the tasks are finished
unfoldable pub complete : Shutdown → Shutdown
complete s = record s {
  active_count = (s.active_count + length s.targets) % word;
  finish_sent = true;
  sent = s.sent ++ map finish_call s.targets;
}

-- `update`: the change is an `int64_t`, here as the word that it is converted to.
unfoldable pub update : ℕ → Shutdown → Shutdown
unfolding complete
update active_delta s =
    let now = (s.active_count + active_delta) % word in
    let counted = record s { active_count = now } in
    if now == 0
    then (if s.active_count == 0
        then counted
        else if s.finish_sent
        then counted
        else complete counted)
    else counted

-- `begin_shutdown`
unfoldable pub begin_shutdown : Shutdown → Shutdown
unfolding update
begin_shutdown s =
    let updated = update ((length s.targets + (word - 1)) % word) s in
    record updated { sent = updated.sent ++ map begin_call s.targets }
