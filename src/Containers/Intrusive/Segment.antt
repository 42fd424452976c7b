-- ===== src/Containers/Intrusive/Segment.antt =====
-- src/containers/intrusive.hpp: runs of linked nodes, and what linking and unlinking make of them.
use indecorous.Base.{
  ℕ, ◌≡◌, ◌∙◌, false, some, List, [], ◌∷◌, ◌++◌, ◌==◌, All, All-append, All-of_append, Among, first,
  later, arith,
}
use indecorous.Containers.Intrusive.{Node, link_between, unlink_between}

-- From `a` by `xs` to `b`, each node points at the next and back at the one before.
abbrev pub Segment : (ℕ → Node) → ℕ → List ℕ → ℕ → Type 0
Segment node a [] b = ((node a).next ≡ some b) × ((node b).prev ≡ some a)
Segment node a (x ∷ xs) b =
    (((node a).next ≡ some x) × ((node x).prev ≡ some a)) × Segment node x xs b

-- `x` is none of `ys`.
abbrev pub Apart : ℕ → List ℕ → Type 0
Apart x ys = All (λ y. (y == x) ≡ false) ys

abbrev pub Distinct : List ℕ → Type 0
Distinct [] = Unit {0}
Distinct (x ∷ xs) = Apart x xs × Distinct xs

-- The first of `ys`, or `b`.
abbrev pub head_or : List ℕ → ℕ → ℕ
head_or [] b = b
head_or (y ∷ ys) b = y

pub All-lookup : (P : ℕ → Type 0) (x : ℕ) (xs : List ℕ) → Among x xs → All P xs → P x
All-lookup P x [] p h = elim p [ ]
All-lookup P x (y ∷ ys) first h = h.0
All-lookup P x (y ∷ ys) (later p) h = All-lookup P x ys p h.1

pub eq-sym : (a b : ℕ) → (a == b) ≡ false → (b == a) ≡ false
eq-sym a b h = ground arith

-- Nodes whose links are the same make the same segments.
Segment-frame :
    (node node' : ℕ → Node) (a : ℕ) (xs : List ℕ) (b : ℕ)
    → All (λ k. (node' k).next ≡ (node k).next) (a ∷ xs)
    → All (λ k. (node' k).prev ≡ (node k).prev) (xs ++ b ∷ [])
    → Segment node a xs b
    → Segment node' a xs b
Segment-frame node node' a [] b n p s = (rw (n.0) s.0, rw (p.0) s.1)
Segment-frame node node' a (x ∷ xs) b n p s =
    ((rw (n.0) s.0.0, rw (p.0) s.0.1), Segment-frame node node' x xs b n.1 p.1 s.1)

pub prev-head_or :
    (node : ℕ → Node) (a : ℕ) (ys : List ℕ) (b : ℕ)
    → Segment node a ys b
    → (node (head_or ys b)).prev ≡ some a
prev-head_or node a [] b s = s.1
prev-head_or node a (y ∷ ys) b s = s.0.1

Apart-head_or :
    (x : ℕ) (xs ys : List ℕ) (b : ℕ)
    → Apart x (xs ++ ys)
    → (x == b) ≡ false
    → (x == head_or ys b) ≡ false
Apart-head_or x xs [] b h e = e
Apart-head_or x xs (y ∷ ys) b h e =
    eq-sym y x (All-of_append (λ z. (z == x) ≡ false) xs (y ∷ ys) h).1.0

module _ (item : ℕ) where
  -- Linking elsewhere leaves the links of the others.
  link-next :
      (before after : ℕ) (node : ℕ → Node) (ks : List ℕ)
      → Apart before ks
      → Apart item ks
      → All (λ k. (link_between item before after node k).next ≡ (node k).next) ks
  unfolding link_between
  link-next before after node [] h i = tt
  link-next before after node (k ∷ ks) h i =
      (ground (arith, h.0, i.0), link-next before after node ks h.1 i.1)

  link-prev :
      (before after : ℕ) (node : ℕ → Node) (ks : List ℕ)
      → Apart after ks
      → Apart item ks
      → All (λ k. (link_between item before after node k).prev ≡ (node k).prev) ks
  unfolding link_between
  link-prev before after node [] h i = tt
  link-prev before after node (k ∷ ks) h i =
      (ground (arith, h.0, i.0), link-prev before after node ks h.1 i.1)

  -- The four links that are made.
  linked :
      (before after : ℕ) (node : ℕ → Node)
      → (before == item) ≡ false
      → (after == item) ≡ false
      → let node' = link_between item before after node in
        (((node' before).next ≡ some item) × ((node' item).prev ≡ some before))
        × (((node' item).next ≡ some after) × ((node' after).prev ≡ some item))
  unfolding link_between
  linked before after node h i = ((ground arith, ground arith), (ground arith, ground arith))

  -- A node that is linked right behind `a`.
  pub insert-first :
      (node : ℕ → Node) (a : ℕ) (ys : List ℕ) (b : ℕ)
      → Segment node a ys b
      → Apart a ys
      → Distinct ys
      → Apart b ys
      → Apart item (a ∷ ys ++ b ∷ [])
      → Segment (link_between item a (head_or ys b) node) a (item ∷ ys) b
  insert-first node a [] b s d e f i = linked a b node i.0 i.1.0
  insert-first node a (z ∷ zs) b s d e f i =
      let (front, back) = linked a z node i.0 i.1.0 in
      let behind = All-of_append (λ y. (y == item) ≡ false) (z ∷ zs) (b ∷ []) i.1 in
      (
        front,
        (
          back,
          Segment-frame node (link_between item a z node) z zs b
              (link-next a z node (z ∷ zs) d behind.0)
              (link-prev a z node (zs ++ b ∷ [])
                (All-append (λ y. (y == z) ≡ false) zs (b ∷ []) e.0 (eq-sym z b f.0, tt)) i.1.1)
              s.1,
        ),
      )

  -- A node that is linked in front of `ys`, or of `b` where they are none: its predecessor is the one
  -- that the node behind it points at.
  pub insert-Segment :
      (node : ℕ → Node) (a : ℕ) (xs ys : List ℕ) (b : ℕ)
      → Segment node a (xs ++ ys) b
      → Distinct (a ∷ xs ++ ys)
      → Apart b (xs ++ ys)
      → Apart item (a ∷ (xs ++ ys) ++ b ∷ [])
      → (before : ℕ) × Among before (a ∷ xs)
        × ((node (head_or ys b)).prev ≡ some before)
        × Segment (link_between item before (head_or ys b) node) a (xs ++ item ∷ ys) b
  insert-Segment node a [] ys b s d f i =
      (a, first, prev-head_or node a ys b s, insert-first node a ys b s d.0 d.1 f i)
  insert-Segment node a (x ∷ xs) ys b s d f i =
      let (before, at, e, t) = insert-Segment node x xs ys b s.1 d.1 f.1 i.1 in
      let apart = All-of_append (λ y. (y == a) ≡ false) (x ∷ xs) ys d.0 in
      let ahead = eq-sym before a (All-lookup (λ y. (y == a) ≡ false) before (x ∷ xs) at apart.0) in
      let behind = Apart-head_or x xs ys b d.1.0 f.0 in
      let next_kept = link-next before (head_or ys b) node (a ∷ []) (ahead, tt) (i.0, tt) in
      let prev_kept = link-prev before (head_or ys b) node (x ∷ []) (behind, tt) (i.1.0, tt) in
      (before, later at, e, ((next_kept.0 ∙ s.0.0, prev_kept.0 ∙ s.0.1), t))

-- Unlinking leaves the links of the others.
module _ (n before after : ℕ) (node : ℕ → Node) where
  unlink-next :
      (ks : List ℕ)
      → Apart before ks
      → Apart n ks
      → All (λ k. (unlink_between n before after node k).next ≡ (node k).next) ks
  unfolding unlink_between
  unlink-next [] h i = tt
  unlink-next (k ∷ ks) h i = (ground (arith, h.0, i.0), unlink-next ks h.1 i.1)

  unlink-prev :
      (ks : List ℕ)
      → Apart after ks
      → Apart n ks
      → All (λ k. (unlink_between n before after node k).prev ≡ (node k).prev) ks
  unfolding unlink_between
  unlink-prev [] h i = tt
  unlink-prev (k ∷ ks) h i = (ground (arith, h.0, i.0), unlink-prev ks h.1 i.1)

  -- The neighbours point at each other.
  joined :
      (before == n) ≡ false
      → (after == n) ≡ false
      → let node' = unlink_between n before after node in
        ((node' before).next ≡ some after) × ((node' after).prev ≡ some before)
  unfolding unlink_between
  joined h i = (ground arith, ground arith)

pub next-head_or :
    (node : ℕ → Node) (a : ℕ) (ys : List ℕ) (b : ℕ)
    → Segment node a ys b
    → (node a).next ≡ some (head_or ys b)
next-head_or node a [] b s = s.0
next-head_or node a (y ∷ ys) b s = s.0.0

remove-first :
    (n : ℕ) (node : ℕ → Node) (a : ℕ) (ys : List ℕ) (b : ℕ)
    → Segment node n ys b
    → Apart a ys
    → Apart n ys
    → Distinct ys
    → Apart b ys
    → (a == n) ≡ false
    → (b == n) ≡ false
    → Segment (unlink_between n a (head_or ys b) node) a ys b
remove-first n node a [] b s d e f g i j = joined n a b node i j
remove-first n node a (z ∷ zs) b s d e f g i j = (
  joined n a z node i e.0,
  Segment-frame node (unlink_between n a z node) z zs b (unlink-next n a z node (z ∷ zs) d e)
      (unlink-prev n a z node (zs ++ b ∷ [])
        (All-append (λ y. (y == z) ≡ false) zs (b ∷ []) f.0 (eq-sym z b g.0, tt))
        (All-append (λ y. (y == n) ≡ false) zs (b ∷ []) e.1 (j, tt)))
      s.1,
)

-- A node that is unlinked from between `xs` and `ys`: its neighbours are those that it points at.
pub remove-Segment :
    (n : ℕ) (node : ℕ → Node) (a : ℕ) (xs ys : List ℕ) (b : ℕ)
    → Segment node a (xs ++ n ∷ ys) b
    → Distinct (a ∷ xs ++ n ∷ ys)
    → Apart b (xs ++ n ∷ ys)
    → (before : ℕ) × Among before (a ∷ xs)
      × ((node n).prev ≡ some before)
      × (((node n).next ≡ some (head_or ys b))
          × Segment (unlink_between n before (head_or ys b) node) a (xs ++ ys) b)
remove-Segment n node a [] ys b s d f = (
  a,
  first,
  s.0.1,
  (
    next-head_or node n ys b s.1,
    remove-first n node a ys b s.1 d.0.1 d.1.0 d.1.1 f.1 (eq-sym n a d.0.0) (eq-sym n b f.0),
  ),
)
remove-Segment n node a (x ∷ xs) ys b s d f =
    let (before, at, e, (e', t)) = remove-Segment n node x xs ys b s.1 d.1 f.1 in
    let apart = All-of_append (λ y. (y == a) ≡ false) (x ∷ xs) (n ∷ ys) d.0 in
    let apart_x = All-of_append (λ y. (y == x) ≡ false) xs (n ∷ ys) d.1.0 in
    let ahead = eq-sym before a (All-lookup (λ y. (y == a) ≡ false) before (x ∷ xs) at apart.0) in
    let behind = Apart-head_or x [] ys b apart_x.1.1 f.0 in
    let next_kept =
      unlink-next n before (head_or ys b) node (a ∷ []) (ahead, tt) (eq-sym n a apart.1.0, tt) in
    let prev_kept =
      unlink-prev n before (head_or ys b) node (x ∷ []) (behind, tt) (eq-sym n x apart_x.1.0, tt) in
    (before, later at, e, (e', ((next_kept.0 ∙ s.0.0, prev_kept.0 ∙ s.0.1), t)))
