-- ===== src/Containers/Mpsc/Chained.antt =====
-- src/containers/intrusive.hpp: the nodes of a `mpsc_queue_t` form one chain, whatever the order of the steps.
use indecorous.Base.{
  ℕ, ◌≡◌, ◌⊎◌, inl, inr, refl, ◌∙◌, sym, Bool-cases, Option, none, some, List, [], ◌∷◌, ◌++◌, Among,
  first, later, ◌==◌, subst, arith,
}
use indecorous.Containers.Mpsc.{put}

-- The node behind `x` is `y`, or will be when the write to `x` has been done.
abbrev pub Follows : (ℕ → Option ℕ) → (ℕ → Option ℕ) → ℕ → ℕ → Type 0
Follows link writes x y =
    ((link x ≡ some y) × (writes x ≡ none)) ⊎ ((link x ≡ none) × (writes x ≡ some y))

abbrev pub Chain : (ℕ → Option ℕ) → (ℕ → Option ℕ) → List ℕ → Type 0
Chain link writes [] = Unit
Chain link writes (x ∷ []) = (link x ≡ none) × (writes x ≡ none)
Chain link writes (x ∷ y ∷ r) = Follows link writes x y × Chain link writes (y ∷ r)

abbrev pub Distinct : List ℕ → Type 0
Distinct [] = Unit
Distinct (x ∷ xs) = (Among x xs → ⊥) × Distinct xs

-- The last node of a list
abbrev pub last : ℕ → List ℕ → ℕ
last x [] = x
last x (y ∷ r) = last y r

pub put-eq : (x y : ℕ) (v : Option ℕ) (f : ℕ → Option ℕ) → x ≡ y → put x v f y ≡ v
put-eq x y v f h = ground arith

pub put-neq : (x y : ℕ) (v : Option ℕ) (f : ℕ → Option ℕ) → (x ≡ y → ⊥) → put x v f y ≡ f y
put-neq x y v f h = elim (Bool-cases (x == y)) [
  | inl e ↦ let same : x ≡ y = ground arith in absurd (h same)
  | inr e ↦ rw e refl
]

pub Among-last : (x : ℕ) (r : List ℕ) → Among (last x r) (x ∷ r)
Among-last x [] = first
Among-last x (y ∷ r) = later (Among-last y r)

-- Other links and writes that are the same at the nodes of the chain.
pub Chain-congr :
    (f g f' g' : ℕ → Option ℕ) (xs : List ℕ)
    → ((x : ℕ) → Among x xs → (f' x ≡ f x) × (g' x ≡ g x))
    → Chain f g xs
    → Chain f' g' xs
Chain-congr f g f' g' [] same h = tt
Chain-congr f g f' g' (x ∷ []) same (e, k) = let (l, w) = same x first in (l ∙ e, w ∙ k)
Chain-congr f g f' g' (x ∷ y ∷ r) same (inl (e, k), h) =
    let (l, w) = same x first in
    (inl (l ∙ e, w ∙ k), Chain-congr f g f' g' (y ∷ r) (λ z a. same z (later a)) h)
Chain-congr f g f' g' (x ∷ y ∷ r) same (inr (e, k), h) =
    let (l, w) = same x first in
    (inr (l ∙ e, w ∙ k), Chain-congr f g f' g' (y ∷ r) (λ z a. same z (later a)) h)

pub apart : (x y : ℕ) (xs : List ℕ) → (Among x xs → ⊥) → Among y xs → x ≡ y → ⊥
apart x y xs h a e = h (rw e a)

-- A node that comes behind the last one, which has still to be written to.
pub Chain-push :
    (f g : ℕ → Option ℕ) (item x : ℕ) (r : List ℕ)
    → (Among item (x ∷ r) → ⊥)
    → g item ≡ none
    → Distinct (x ∷ r)
    → Chain f g (x ∷ r)
    → Chain (put item none f) (put (last x r) (some item) g) ((x ∷ r) ++ item ∷ [])
Chain-push f g item x [] new quiet d (e, k) =
    let other : item ≡ x → ⊥ = λ s. new (rw s first) in
    (
      inr (put-neq item x none f other ∙ e, put-eq x x (some item) g refl),
      (put-eq item item none f refl, put-neq x item (some item) g (λ s. other (sym s)) ∙ quiet),
    )
Chain-push f g item x (y ∷ r) new quiet (alone, d) (l, h) =
    let other : item ≡ x → ⊥ = λ s. new (rw s first) in
    let inner : last y r ≡ x → ⊥ = λ s. alone (subst (λ z. Among z (y ∷ r)) s (Among-last y r)) in
    let rest = Chain-push f g item y r (λ a. new (later a)) quiet d h in
    (keep l (put-neq item x none f other) (put-neq (last y r) x (some item) g inner), rest)
  where
    keep :
        Follows f g x y
        → put item none f x ≡ f x
        → put (last y r) (some item) g x ≡ g x
        → Follows (put item none f) (put (last y r) (some item) g) x y
    keep (inl (e, k)) a b = inl (a ∙ e, b ∙ k)
    keep (inr (e, k)) a b = inr (a ∙ e, b ∙ k)

-- A write to a node that has been waiting for it.
pub Chain-set :
    (f g : ℕ → Option ℕ) (prev item x : ℕ) (r : List ℕ)
    → g prev ≡ some item
    → Distinct (x ∷ r)
    → Chain f g (x ∷ r)
    → Chain (put prev (some item) f) (put prev none g) (x ∷ r)
Chain-set f g prev item x [] w d (e, k) =
    let other : prev ≡ x → ⊥ = λ s. (let bad : none ≡ some item = cc (k, w, s) in cc) in
    (put-neq prev x (some item) f other ∙ e, put-neq prev x none g other ∙ k)
Chain-set f g prev item x (y ∷ r) w (alone, d) (l, h) = elim (Bool-cases (prev == x)) [
  | inr e ↦
      let other : prev ≡ x → ⊥ = λ s. (ground (arith, s, e)) in
      (
        keep l (put-neq prev x (some item) f other) (put-neq prev x none g other),
        Chain-set f g prev item y r w d h,
      )
  | inl e ↦
      let same : prev ≡ x = ground arith in
      (
        written same l,
        Chain-congr f g (put prev (some item) f) (put prev none g) (y ∷ r)
            (λ z a.
              (let other : prev ≡ z → ⊥ =
                  apart prev z (y ∷ r) (λ b. alone (subst (λ u. Among u (y ∷ r)) same b)) a in
                (put-neq prev z (some item) f other, put-neq prev z none g other)))
            h,
      )
]
  where
    keep :
        Follows f g x y
        → put prev (some item) f x ≡ f x
        → put prev none g x ≡ g x
        → Follows (put prev (some item) f) (put prev none g) x y
    keep (inl (e, k)) a b = inl (a ∙ e, b ∙ k)
    keep (inr (e, k)) a b = inr (a ∙ e, b ∙ k)

    written : prev ≡ x → Follows f g x y → Follows (put prev (some item) f) (put prev none g) x y
    written s (inl (e, k)) = let bad : none ≡ some item = cc (k, w, s) in cc
    written s (inr (e, k)) =
        let same : some y ≡ some item = cc (k, w, s) in
        inl (put-eq prev x (some item) f s ∙ sym same, put-eq prev x none g s)
