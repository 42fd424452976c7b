-- ===== src/Containers/Arena.antt =====
-- src/containers/arena.hpp: an arena keeps up to `max_free_nodes` nodes that are not in use. A node is
-- the address that `new` gave.
use indecorous.Base.{
  ℕ, suc, ◌+◌, ◌-◌, ◌≤◌, ◌≡◌, ◌↔◌, refl, List, [], ◌∷◌, ◌++◌, length, length-snoc, Bool-cases, inl,
  inr, Result, ok, assert, leb, ◌==◌, if◌then◌else◌, arith,
}

-- `arena_t<T>`
pub record Arena : Type 0 where
  pub max_free_nodes : ℕ
  pub allocated : ℕ
  pub free_nodes : List ℕ

-- `arena_t(max_free_nodes)`
unfoldable pub create : ℕ → Arena
create max_free_nodes = record { max_free_nodes = max_free_nodes; allocated = 0; free_nodes = [] }

-- `get`: `fresh` is the address of a new node, if one is made. The object stands in the node.
unfoldable pub get : ℕ → Arena → ℕ × Arena
get fresh a = elim (a.free_nodes) [
  | [] ↦ (fresh, record a { allocated = a.allocated + 1 })
  | node ∷ rest ↦ (node, record a { free_nodes = rest })
]

-- `release`
unfoldable pub release : ℕ → Arena → Arena
release node a =
    if leb a.max_free_nodes (length a.free_nodes)
    then record a { allocated = a.allocated - 1 }
    else record a { free_nodes = a.free_nodes ++ node ∷ [] }

-- `m_free_nodes.clear(...)`: every node is deleted and taken off the count.
unfoldable pub clear : List ℕ → ℕ → ℕ
clear [] allocated = allocated
clear (node ∷ rest) allocated = clear rest (allocated - 1)

-- `~arena_t`
unfoldable pub destroy : Arena → Result (Unit {0})
unfolding clear
destroy a = assert (clear a.free_nodes a.allocated == 0)

-- The arenas that come of `get` and `release`, by the number of objects that are in use.
pub data Reach (max_free_nodes : ℕ) : ℕ → Arena → Type 0 where
  start : Reach max_free_nodes 0 (create max_free_nodes)
  gets :
      {n : ℕ} {a : Arena} (fresh : ℕ)
      → Reach max_free_nodes n a
      → Reach max_free_nodes (suc n) ((get fresh a).1)
  releases :
      {n : ℕ} {a : Arena} (node : ℕ)
      → Reach max_free_nodes (suc n) a
      → Reach max_free_nodes n (release node a)

-- The nodes allocated are those in use and those that are free, of which there are not too many.
pub record IsCounted (max_free_nodes n : ℕ) (a : Arena) : Type 0 where
  pub limit : a.max_free_nodes ≡ max_free_nodes
  pub counted : a.allocated ≡ n + length a.free_nodes
  pub bounded : length a.free_nodes ≤ max_free_nodes

get-IsCounted :
    (max_free_nodes n fresh : ℕ) (a : Arena)
    → IsCounted max_free_nodes n a
    → IsCounted max_free_nodes (suc n) (get fresh a).1
unfolding get
get-IsCounted k n fresh a v =
    go a.max_free_nodes a.allocated a.free_nodes v.limit v.counted v.bounded
  where
    go :
        (limit allocated : ℕ) (free : List ℕ)
        → limit ≡ k
        → allocated ≡ n + length free
        → length free ≤ k
        → IsCounted k
            (suc n)
            (get fresh
              (record { max_free_nodes = limit; allocated = allocated; free_nodes = free })).1
    go limit allocated [] h i j = record { limit = h; counted = omega arith; bounded = j }
    go limit allocated (x ∷ xs) h i j = record {
      limit = h;
      counted = omega arith;
      bounded = omega arith;
    }

release-IsCounted :
    (max_free_nodes n node : ℕ) (a : Arena)
    → IsCounted max_free_nodes (suc n) a
    → IsCounted max_free_nodes n (release node a)
unfolding release
release-IsCounted k n node a v = elim (Bool-cases (leb a.max_free_nodes (length a.free_nodes))) [
  | inl e ↦
      rw e (record { limit = v.limit; counted = omega (arith, v.counted); bounded = v.bounded })
  | inr e ↦ rw e (record {
    limit = v.limit;
    counted = omega (arith, v.counted, length-snoc a.free_nodes node);
    bounded = ground (arith, v.limit, v.bounded, length-snoc a.free_nodes node);
  })
]

-- Through every run of `get` and `release`, the count of allocated nodes is that of the nodes in use and
-- of the free ones, and no more than `max_free_nodes` nodes are kept free.
pub Reach-IsCounted :
    {max_free_nodes n : ℕ} {a : Arena} → Reach max_free_nodes n a → IsCounted max_free_nodes n a
unfolding create
Reach-IsCounted start = record { limit = refl; counted = refl; bounded = omega arith }
Reach-IsCounted {max_free_nodes} (gets {n = n} {a = a} fresh r) =
    get-IsCounted max_free_nodes n fresh a (Reach-IsCounted r)
Reach-IsCounted {max_free_nodes} (releases {n = n} {a = a} node r) =
    release-IsCounted max_free_nodes n node a (Reach-IsCounted r)

clear-length :
    (free : List ℕ) (n allocated : ℕ) → allocated ≡ n + length free → clear free allocated ≡ n
unfolding clear
clear-length [] n allocated h = omega arith
clear-length (x ∷ xs) n allocated h = clear-length xs n (allocated - 1) (omega arith)

-- The destructor's assertion holds just if no object is in use.
pub destroy-Reach :
    {max_free_nodes n : ℕ} {a : Arena} → Reach max_free_nodes n a → (destroy a ≡ ok tt) ↔ (n ≡ 0)
unfolding destroy
destroy-Reach {n = n} {a = a} r =
    let e = clear-length a.free_nodes n a.allocated (Reach-IsCounted r).counted in
    rw e (ground arith)
