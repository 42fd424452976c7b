-- ===== src/Containers/Intrusive/Ring.antt =====
-- src/containers/intrusive.hpp: the operations of `intrusive_list_t` on the list that its nodes form.
use indecorous.Base.{
  ℕ, ◌-◌, ◌≡◌, false, none, some, List, [], ◌∷◌, ◌++◌, append-nil, length, length-append, ok, ◌==◌,
  ==_refl, All-append, arith,
}
use indecorous.Containers.Intrusive.{
  Heap, set_size, create, in_a_list, link_between, unlink_between, insert_between, insert_before,
  push_back, push_front, remove_node, front, get_value, pop_front,
}
use indecorous.Containers.Intrusive.Segment.{
  Segment, Apart, Distinct, head_or, eq-sym, insert-first, insert-Segment, remove-Segment,
  next-head_or,
}

-- The list `l` of the heap holds the nodes `xs`, in this order, each of them once; and it knows how many.
pub record Holds (h : Heap) (l : ℕ) (xs : List ℕ) : Type 0 where
  pub ring : Segment h.node l xs l
  pub distinct : Distinct (l ∷ xs)
  pub sized : h.size l ≡ length xs

Apart-insert :
    (x item : ℕ) (xs ys : List ℕ)
    → Apart x (xs ++ ys)
    → (item == x) ≡ false
    → Apart x (xs ++ item ∷ ys)
Apart-insert x item [] ys h e = (e, h)
Apart-insert x item (y ∷ xs) ys h e = (h.0, Apart-insert x item xs ys h.1 e)

Distinct-insert :
    (item : ℕ) (xs ys : List ℕ)
    → Distinct (xs ++ ys)
    → Apart item (xs ++ ys)
    → Distinct (xs ++ item ∷ ys)
Distinct-insert item [] ys d i = (i, d)
Distinct-insert item (x ∷ xs) ys d i =
    (Apart-insert x item xs ys d.0 (eq-sym x item i.0), Distinct-insert item xs ys d.1 i.1)

Apart-remove : (x n : ℕ) (xs ys : List ℕ) → Apart x (xs ++ n ∷ ys) → Apart x (xs ++ ys)
Apart-remove x n [] ys h = h.1
Apart-remove x n (y ∷ xs) ys h = (h.0, Apart-remove x n xs ys h.1)

Distinct-remove : (n : ℕ) (xs ys : List ℕ) → Distinct (xs ++ n ∷ ys) → Distinct (xs ++ ys)
Distinct-remove n [] ys d = d.1
Distinct-remove n (x ∷ xs) ys d = (Apart-remove x n xs ys d.0, Distinct-remove n xs ys d.1)

-- A new list holds nothing.
pub create-Holds : (l : ℕ) (h : Heap) → Holds (create l h) l []
unfolding create
create-Holds l h = record {
  ring = (ground (arith, ==_refl l), ground (arith, ==_refl l));
  distinct = (tt, tt);
  sized = ground (arith, ==_refl l);
}

module _ (l item : ℕ) (h : Heap) (xs ys : List ℕ) (v : Holds h l (xs ++ ys))
    (i : Apart item (l ∷ xs ++ ys)) where
  item-Apart : Apart item (l ∷ (xs ++ ys) ++ l ∷ [])
  item-Apart = (i.0, All-append (λ y. (y == item) ≡ false) (xs ++ ys) (l ∷ []) i.1 (i.0, tt))

  linked-Holds :
      (before after : ℕ)
      → Segment (link_between item before after h.node) l (xs ++ item ∷ ys) l
      → Holds (insert_between l item before after h) l (xs ++ item ∷ ys)
  unfolding insert_between
  linked-Holds before after s = record {
    ring = s;
    distinct = (
      Apart-insert l item xs ys v.distinct.0 (eq-sym l item i.0),
      Distinct-insert item xs ys v.distinct.1 i.1,
    );
    sized =
        rw (==_refl l) (omega (arith, v.sized, length-append xs (item ∷ ys), length-append xs ys));
  }

  -- `insert_before` of a node that is in no list puts it just in front of the node given, or at the end
  -- where that is the list itself.
  pub insert_before-Holds :
      (h' : Heap) × (insert_before l (head_or ys l) item h ≡ ok h') × Holds h' l (xs ++ item ∷ ys)
  unfolding insert_before
  insert_before-Holds =
      let (before, _, e, s) =
        insert-Segment item h.node l xs ys l v.ring v.distinct v.distinct.0 item-Apart in
      (insert_between l item before (head_or ys l) h, rw e, linked-Holds before (head_or ys l) s)

module _ (l item : ℕ) (h : Heap) (xs : List ℕ) (v : Holds h l xs) (i : Apart item (l ∷ xs)) where
  -- `push_back` of a node that is in no list adds it at the end.
  pub push_back-Holds : (h' : Heap) × (push_back l item h ≡ ok h') × Holds h' l (xs ++ item ∷ [])
  unfolding push_back insert_before
  push_back-Holds = insert_before-Holds l item h xs [] (rw (append-nil xs) v) (rw (append-nil xs) i)

  -- `push_front` of a node that is in no list adds it at the beginning.
  pub push_front-Holds : (h' : Heap) × (push_front l item h ≡ ok h') × Holds h' l (item ∷ xs)
  unfolding push_front
  push_front-Holds =
      let s =
        insert-first item h.node l xs l v.ring v.distinct.0 v.distinct.1 v.distinct.0
          (item-Apart l item h [] xs v i) in
      (
        insert_between l item l (head_or xs l) h,
        rw (next-head_or h.node l xs l v.ring),
        linked-Holds l item h [] xs v i l (head_or xs l) s,
      )

-- `remove` takes the node out from where it stands, and it is in no list afterwards.
pub remove_node-Holds :
    (l n : ℕ) (h : Heap) (xs ys : List ℕ)
    → Holds h l (xs ++ n ∷ ys)
    → (h' : Heap) × (remove_node l n h ≡ ok h') × (Holds h' l (xs ++ ys) × (in_a_list n h' ≡ false))
unfolding remove_node in_a_list unlink_between
remove_node-Holds l n h xs ys v =
    let (before, _, e, (e', s)) =
      remove-Segment n h.node l xs ys l v.ring v.distinct v.distinct.0 in
    (
      record {
        node = unlink_between n before (head_or ys l) h.node;
        size = set_size l (h.size l - 1) h.size;
      },
      rw (e, e'),
      (
        record {
          ring = s;
          distinct = (Apart-remove l n xs ys v.distinct.0, Distinct-remove n xs ys v.distinct.1);
          sized =
              rw (==_refl l)
                (omega (arith, v.sized, length-append xs (n ∷ ys), length-append xs ys));
        },
        rw (==_refl n),
      ),
    )

-- `pop_front` takes the first node, if there is one.
pub pop_front-Holds :
    (l : ℕ) (h : Heap) (xs : List ℕ)
    → Holds h l xs
    → (h' : Heap) × (pop_front l h ≡ ok (elim xs [ [] ↦ none | x ∷ _ ↦ some x ], h'))
      × Holds h' l (elim xs [ [] ↦ [] | _ ∷ rest ↦ rest ])
unfolding pop_front front get_value
pop_front-Holds l h [] v = (h, rw (next-head_or h.node l [] l v.ring, ==_refl l), v)
pop_front-Holds l h (x ∷ xs) v =
    let (h', e, (w, _)) = remove_node-Holds l x h [] xs v in
    (h', rw (next-head_or h.node l (x ∷ xs) l v.ring, v.distinct.0.0, e), w)
