-- ===== src/Containers/Mpsc/Order.antt =====
-- src/containers/intrusive.hpp: a `mpsc_queue_t` gives the nodes in the order of the exchanges.
use indecorous.Base.{
  ℕ, ◌≡◌, ◌⊎◌, inl, inr, refl, ap, ◌∙◌, sym, true, false, Bool-cases, Option, none, some, List, [],
  ◌∷◌, ◌++◌, append_assoc, Among, first, later, Among-append_left, ◌==◌, if◌then◌else◌, subst,
  arith,
}
use indecorous.Containers.Mpsc.{stub, Mpsc, put, push}
use indecorous.Containers.Mpsc.Chained.{Chain, Distinct, last, put-neq, Among-last, Chain-push}

-- The nodes of a list without the queue's own.
abbrev pub items : List ℕ → List ℕ
items [] = []
items (x ∷ xs) = if x == stub then items xs else x ∷ items xs

-- The queue is the chain from the front over `rest` to the back.
pub record IsQueue (q : Mpsc) : Type 0 where
  pub rest : List ℕ
  pub chain : Chain q.link q.writes (q.front ∷ rest)
  pub distinct : Distinct (q.front ∷ rest)
  pub ends : q.back ≡ last q.front rest
  pub quiet : (x : ℕ) → (Among x (q.front ∷ rest) → ⊥) → q.writes x ≡ none
  pub idle : (Among stub (q.front ∷ rest) → ⊥) → q.link stub ≡ none
  pub order : q.pushed ≡ q.popped ++ items (q.front ∷ rest)
  pub alone : q.at_back ≡ true → Among stub (q.front ∷ rest) → ⊥

pub Among-split : (x : ℕ) (xs ys : List ℕ) → Among x (xs ++ ys) → (Among x xs) ⊎ (Among x ys)
Among-split x [] ys a = inr a
Among-split x (z ∷ xs) ys first = inl first
Among-split x (z ∷ xs) ys (later a) = elim (Among-split x xs ys a) [
  | inl b ↦ inl (later b)
  | inr b ↦ inr b
]

pub Among-cons : (x y : ℕ) (xs : List ℕ) → Among x (y ∷ xs) → (x ≡ y) ⊎ Among x xs
Among-cons x y xs first = inl refl
Among-cons x y xs (later a) = inr a

pub Among-one : (x y : ℕ) → Among x (y ∷ []) → x ≡ y
Among-one x y first = refl
Among-one x y (later a) = elim a [ ]

pub Distinct-snoc : (x : ℕ) (xs : List ℕ) → (Among x xs → ⊥) → Distinct xs → Distinct (xs ++ x ∷ [])
Distinct-snoc x [] h d = ((λ a. elim a [ ]), tt)
Distinct-snoc x (y ∷ xs) h (alone, d) = (
  (λ a. elim (Among-split y xs (x ∷ []) a) [
    | inl b ↦ alone b
    | inr b ↦ h (rw (sym (Among-one y x b)) first)
  ]),
  Distinct-snoc x xs (λ a. h (later a)) d,
)

pub last-snoc : (x y : ℕ) (r : List ℕ) → last x (r ++ y ∷ []) ≡ y
last-snoc x y [] = refl
last-snoc x y (z ∷ r) = last-snoc z y r

pub items-append : (xs ys : List ℕ) → items (xs ++ ys) ≡ items xs ++ items ys
items-append [] ys = refl
items-append (x ∷ xs) ys = elim (Bool-cases (x == stub)) [
  | inl e ↦ rw e (items-append xs ys)
  | inr e ↦ rw (e, items-append xs ys) refl
]

pub eqb-false : (x y : ℕ) → (x ≡ y → ⊥) → (x == y) ≡ false
eqb-false x y h = elim (Bool-cases (x == y)) [
  | inl e ↦ let same : x ≡ y = ground arith in absurd (h same)
  | inr e ↦ e
]

pub put-same : (x z : ℕ) (f : ℕ → Option ℕ) → f x ≡ none → put x none f z ≡ f z
put-same x z f h = elim (Bool-cases (x == z)) [
  | inl e ↦ let same : x ≡ z = ground arith in rw e (cc (h, same))
  | inr e ↦ rw e refl
]

-- Whatever stands behind the front is pointed at, or will be.
pub pointed :
    (f g : ℕ → Option ℕ) (i x : ℕ) (r : List ℕ)
    → Chain f g (x ∷ r)
    → Among i r
    → (z : ℕ) × ((f z ≡ some i) ⊎ (g z ≡ some i))
pointed f g i x [] h a = elim a [ ]
pointed f g i x (y ∷ r) (inl (e, k), h) first = (x, inl e)
pointed f g i x (y ∷ r) (inr (e, k), h) first = (x, inr k)
pointed f g i x (y ∷ r) (l, h) (later a) = pointed f g i y r h a

pub pushes-IsQueue :
    (item : ℕ) (q : Mpsc) (v : IsQueue q)
    → (item ≡ stub → ⊥)
    → (Among item (q.front ∷ v.rest) → ⊥)
    → IsQueue (push item q)
unfolding push
pushes-IsQueue item q v h new =
    let nodes = q.front ∷ v.rest in
    let back_in : Among q.back nodes = rw v.ends (Among-last q.front v.rest) in
    let plain : (item == stub) ≡ false = eqb-false item stub h in
    let grown : items (nodes ++ item ∷ []) ≡ items nodes ++ item ∷ [] =
      items-append nodes (item ∷ []) ∙ rw plain refl in
    record {
      rest = v.rest ++ item ∷ [];
      chain = rw v.ends (
          Chain-push q.link q.writes item q.front v.rest new (v.quiet item new) v.distinct v.chain);
      distinct = Distinct-snoc item nodes new v.distinct;
      ends = sym (last-snoc q.front item v.rest);
      quiet = λ x out.
          put-neq q.back x (some item) q.writes
            (λ s. out (Among-append_left (item ∷ []) (subst (λ z. Among z nodes) s back_in)))
          ∙ v.quiet x (λ a. out (Among-append_left (item ∷ []) a));
      idle = λ out.
          put-neq item stub none q.link h ∙ v.idle (λ a. out (Among-append_left (item ∷ []) a));
      order =
          ap (λ m. m ++ item ∷ []) v.order
          ∙ append_assoc q.popped (items nodes) (item ∷ [])
          ∙ ap (λ m. q.popped ++ m) (sym grown);
      alone = λ found a. (elim (Among-split stub nodes (item ∷ []) a) [
        | inl b ↦ v.alone found b
        | inr b ↦ h (sym (Among-one stub item b))
      ]);
    }
