-- ===== src/Containers/Intrusive.antt =====
-- src/containers/intrusive.hpp: `intrusive_node_t` and `intrusive_list_t` in a heap of nodes. A pointer
-- is an address, and `none` the null pointer; a list is the address of its own node.
pub mod Segment
pub mod Ring
use indecorous.Base.{
  ℕ, ◌+◌, ◌-◌, Bool, true, false, Option, none, some, Result, ok, err, undefined, ◌>>=◌, ◌==◌, ◌||◌,
  if◌then◌else◌,
}

-- `intrusive_node_t`
pub record Node : Type 0 where
  pub next : Option ℕ
  pub prev : Option ℕ

-- The nodes, and the `m_size` of the lists.
pub record Heap : Type 0 where
  pub node : ℕ → Node
  pub size : ℕ → ℕ

-- `set_next_node`, `set_prev_node` and `clear` of a node.
abbrev pub set_next : ℕ → Option ℕ → (ℕ → Node) → ℕ → Node
set_next n next node k = if k == n then record (node k) { next = next } else node k

abbrev pub set_prev : ℕ → Option ℕ → (ℕ → Node) → ℕ → Node
set_prev n prev node k = if k == n then record (node k) { prev = prev } else node k

abbrev pub clear : ℕ → (ℕ → Node) → ℕ → Node
clear n node k = if k == n then record { next = none; prev = none } else node k

abbrev pub set_size : ℕ → ℕ → (ℕ → ℕ) → ℕ → ℕ
set_size l n size k = if k == l then n else size k

-- A pointer that is followed.
abbrev pub deref : Option ℕ → Result ℕ
deref none = err undefined
deref (some n) = ok n

abbrev is_some : Option ℕ → Bool
is_some none = false
is_some (some n) = true

-- `in_a_list`
unfoldable pub in_a_list : ℕ → Heap → Bool
in_a_list n h = is_some (h.node n).next || is_some (h.node n).prev

-- `intrusive_list_t()`
unfoldable pub create : ℕ → Heap → Heap
create l h = record {
  node = set_next l (some l) (set_prev l (some l) h.node);
  size = set_size l 0 h.size;
}

-- The links that `insert_between` sets.
unfoldable pub link_between : ℕ → ℕ → ℕ → (ℕ → Node) → ℕ → Node
link_between item before after node =
    set_prev after (some item)
      (set_next before (some item) (set_next item (some after) (set_prev item (some before) node)))

-- `insert_between`
unfoldable pub insert_between : ℕ → ℕ → ℕ → ℕ → Heap → Heap
unfolding link_between
insert_between l item before after h = record {
  node = link_between item before after h.node;
  size = set_size l (h.size l + 1) h.size;
}

-- `insert_before`
unfoldable pub insert_before : ℕ → ℕ → ℕ → Heap → Result Heap
unfolding insert_between
insert_before l after item h = do
  before ← deref (h.node after).prev
  ok (insert_between l item before after h)

-- `push_back`
unfoldable pub push_back : ℕ → ℕ → Heap → Result Heap
unfolding insert_between
push_back l item h = do before ← deref (h.node l).prev; ok (insert_between l item before l h)

-- `push_front`
unfoldable pub push_front : ℕ → ℕ → Heap → Result Heap
unfolding insert_between
push_front l item h = do after ← deref (h.node l).next; ok (insert_between l item l after h)

-- The links that `remove_node` sets, between the neighbours.
unfoldable pub unlink_between : ℕ → ℕ → ℕ → (ℕ → Node) → ℕ → Node
unlink_between n before after node =
    clear n (set_prev after (some before) (set_next before (some after) node))

-- `remove_node`
unfoldable pub remove_node : ℕ → ℕ → Heap → Result Heap
unfolding unlink_between
remove_node l n h = do
  before ← deref (h.node n).prev
  after ← deref (h.node n).next
  ok (record {
    node = unlink_between n before after h.node;
    size = set_size l (h.size l - 1) h.size;
  })

-- `get_value`: the list's own node is no element.
unfoldable pub get_value : ℕ → ℕ → Option ℕ
get_value l n = if n == l then none else some n

-- `front`
unfoldable pub front : ℕ → Heap → Result (Option ℕ)
unfolding get_value
front l h = do n ← deref (h.node l).next; ok (get_value l n)

-- `pop_front`
unfoldable pub pop_front : ℕ → Heap → Result (Option ℕ × Heap)
unfolding front remove_node
pop_front l h = do
  first ← front l h
  elim first [ none ↦ ok (none, h) | some n ↦ (do h' ← remove_node l n h; ok (some n, h')) ]

-- `empty`
unfoldable pub empty : ℕ → Heap → Result Bool
empty l h = do n ← deref (h.node l).next; ok (n == l)
