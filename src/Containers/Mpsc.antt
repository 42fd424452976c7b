-- ===== src/Containers/Mpsc.antt =====
-- src/containers/intrusive.hpp: `mpsc_queue_t`, into which any thread pushes and from which one thread pops.
-- A node is the address of its object, and 0 is the queue's own node, `this`. The accesses to the memory that
-- threads share are steps; between two steps any thread may take one.
pub mod Chained
pub mod Order
pub mod History
pub mod Pop
use indecorous.Base.{
  ℕ, ◌≡◌, Bool, true, false, Option, none, some, List, [], ◌∷◌, ◌++◌, Among, ◌==◌, if◌then◌else◌,
}

-- `this`
abbrev pub stub : ℕ
stub = 0

-- `m_front`, `m_back` and the `m_next` of each node; the writes of `set_next_node` that pushes have still to
-- do behind their exchange, by the node that is written to; whether the pop that runs has found `m_front` at
-- the back; and the nodes in the order of the exchanges and of the pops.
pub record Mpsc : Type 0 where
  pub front : ℕ
  pub back : ℕ
  pub link : ℕ → Option ℕ
  pub writes : ℕ → Option ℕ
  pub at_back : Bool
  pub pushed : List ℕ
  pub popped : List ℕ

abbrev pub put : ℕ → Option ℕ → (ℕ → Option ℕ) → ℕ → Option ℕ
put x v f y = if x == y then v else f y

-- `mpsc_queue_t()`
unfoldable pub create : Mpsc
create = record {
  front = stub;
  back = stub;
  link = λ x. none;
  writes = λ x. none;
  at_back = false;
  pushed = [];
  popped = [];
}

-- `exchange_back`, with the write to the old back that is still to be done
abbrev pub exchange_back : ℕ → Mpsc → Mpsc
exchange_back item q = record q { back = item; writes = put q.back (some item) q.writes }

-- `push`, up to the write to the old back
unfoldable pub push : ℕ → Mpsc → Mpsc
push item q =
    exchange_back item (record q { link = put item none q.link; pushed = q.pushed ++ item ∷ [] })

-- `prev->set_next_node(item)`, the end of `push` and of `push_self`
unfoldable pub set_next : ℕ → ℕ → Mpsc → Mpsc
set_next prev item q = record q {
  link = put prev (some item) q.link;
  writes = put prev none q.writes;
}

-- The start of `pop`, where the queue's own node is at the front
unfoldable pub skip : ℕ → Mpsc → Mpsc
skip next q = record q { front = next; link = put stub none q.link }

-- `pop` of a node that another one follows
unfoldable pub take_front : ℕ → Mpsc → Mpsc
take_front next q = record q {
  front = next;
  link = put q.front none q.link;
  at_back = false;
  popped = q.popped ++ q.front ∷ [];
}

-- `pop` of the last node: the test of `m_back`, and the exchange in `push_self`
unfoldable pub find_back : Mpsc → Mpsc
find_back q = record q { at_back = true }

unfoldable pub push_self : Mpsc → Mpsc
push_self q = exchange_back stub (record q { at_back = false })

pub data Step (q t : Mpsc) : Type 0 where
  -- A node is pushed that is not in the queue: it was never pushed, or has been popped since.
  pushes :
      (item : ℕ)
      → ¬ (item ≡ stub)
      → ¬ (item ≡ q.front)
      → ((x : ℕ) → ¬ (q.link x ≡ some item))
      → ((x : ℕ) → ¬ (q.writes x ≡ some item))
      → t ≡ push item q
      → Step q t
  writes_next : (prev item : ℕ) → q.writes prev ≡ some item → t ≡ set_next prev item q → Step q t
  skips : (next : ℕ) → q.front ≡ stub → q.link stub ≡ some next → t ≡ skip next q → Step q t
  takes :
      (next : ℕ)
      → ¬ (q.front ≡ stub)
      → q.link q.front ≡ some next
      → t ≡ take_front next q
      → Step q t
  finds : ¬ (q.front ≡ stub) → q.front ≡ q.back → t ≡ find_back q → Step q t
  pushes_self : q.at_back ≡ true → t ≡ push_self q → Step q t

pub data Reach : Mpsc → Type 0 where
  start : Reach create
  next : {q t : Mpsc} → Reach q → Step q t → Reach t
