-- ===== src/Rpc/Hub.antt =====
-- src/rpc/hub.hpp, hub.cc and id.hpp: the hub's tables, the requests that it opens and the messages that
-- it dispatches. A promise is what it was fulfilled with, if it was. A spawned coroutine is an entry of a
-- list: the task, the callback and the message.
pub mod Dispatch
use indecorous.Base.{
  ℕ, ◌+◌, ◌%◌, ◌^◌, Bool, true, false, not, Option, none, some, List, [], ◌∷◌, ◌++◌, Result, ok,
  err, undefined, guarantee, require, assert, ◌>>=◌, ◌>>◌, ◌==◌, ◌||◌, if◌then◌else◌,
}
use indecorous.Containers.Buffer.{has}
use indecorous.Rpc.Wire.{ReadMessage}
use indecorous.Rpc.Message.{no_id}

-- An entry of `m_replies`
pub record Reply : Type 0 where
  pub request : ℕ
  pub value : Option ReadMessage

-- `message_hub_t`
pub record Hub : Type 0 where
  pub next_request : ℕ
  pub next_task : ℕ
  pub rpcs : List (ℕ × ℕ)
  pub replies : List Reply
  pub spawned : List (ℕ × (ℕ × ReadMessage))

-- `message_hub_t(...)`, with the registered callbacks
unfoldable pub create : List (ℕ × ℕ) → Hub
create rpcs = record { next_request = 0; next_task = 0; rpcs = rpcs; replies = []; spawned = [] }

-- `id_generator_t::next`: the next value, a `uint64_t`
abbrev pub after : ℕ → ℕ
after id = (id + 1) % 2 ^ 64

abbrev pub find_reply : ℕ → List Reply → Option Reply
find_reply id [] = none
find_reply id (r ∷ rest) = if r.request == id then some r else find_reply id rest

abbrev pub fulfill : ℕ → ReadMessage → List Reply → List Reply
fulfill id msg [] = []
fulfill id msg (r ∷ rest) =
    if r.request == id then record r { value = some msg } ∷ rest else r ∷ fulfill id msg rest

abbrev pub find_rpc : ℕ → List (ℕ × ℕ) → Option ℕ
find_rpc id [] = none
find_rpc id (r ∷ rest) = if r.0 == id then some r.1 else find_rpc id rest

abbrev is_none : {A : Type 0} → Option A → Bool
is_none none = true
is_none (some a) = false

-- `new_request`: the id of the request, and the hub that waits for its reply.
unfoldable pub new_request : Hub → Result (ℕ × Hub)
new_request h = do
  assert (is_none (find_reply h.next_request h.replies))
  ok (
    h.next_request,
    record h {
      next_request = after h.next_request;
      replies = h.replies ++ record { request = h.next_request; value = none } ∷ [];
    },
  )

-- `spawn_task`. A promise that is fulfilled twice fails a guarantee of its own.
unfoldable pub spawn_task : ReadMessage → Hub → Result Hub
spawn_task msg h = do
  assert (has msg.buffer)
  (if msg.rpc_id == no_id
      then elim (find_reply msg.request_id h.replies) [
        | some r ↦ (do
          require guarantee (is_none r.value)
          ok (record h { replies = fulfill msg.request_id msg h.replies }))
        | none ↦ ok h
      ]
      else elim (find_rpc msg.rpc_id h.rpcs) [
        | some cb ↦ ok (record h {
          next_task = after h.next_task;
          spawned = h.spawned ++ (h.next_task, (cb, msg)) ∷ [];
        })
        | none ↦ if msg.request_id == no_id then err undefined else ok h
      ])
