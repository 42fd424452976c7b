-- ===== src/Containers/Mpsc/History.antt =====
-- src/containers/intrusive.hpp: every step of a `mpsc_queue_t` keeps its order.
use indecorous.Base.{
  ℕ, ◌≡◌, inl, inr, refl, ap, ◌∙◌, sym, true, false, Bool-cases, Option, none, some, List, [], ◌∷◌,
  ◌++◌, append_assoc, append-nil, Among, first, later, Among-append_left, Among-append_right, ◌==◌,
  subst, arith,
}
use indecorous.Containers.Mpsc.{
  stub, Mpsc, put, create, set_next, skip, take_front, find_back, push_self, Step, pushes,
  writes_next, skips, takes, finds, pushes_self, Reach, start, next,
}
use indecorous.Containers.Mpsc.Chained.{
  Chain, Distinct, last, put-neq, Among-last, Chain-congr, apart, Chain-push, Chain-set,
}
use indecorous.Containers.Mpsc.Order.{
  items, IsQueue, Among-cons, Among-one, Distinct-snoc, last-snoc, items-append, eqb-false,
  put-same, pointed, pushes-IsQueue,
}

writes_next-IsQueue :
    (prev item : ℕ) (q : Mpsc)
    → IsQueue q
    → q.writes prev ≡ some item
    → IsQueue (set_next prev item q)
unfolding set_next
writes_next-IsQueue prev item q v w =
    let nodes = q.front ∷ v.rest in
    let outside : (x : ℕ) → (Among x nodes → ⊥) → prev ≡ x → ⊥ = λ x out s.
      (let none_there = v.quiet x out in
        let bad : none ≡ some item = cc (none_there, w, s) in cc) in
    record {
      rest = v.rest;
      chain = Chain-set q.link q.writes prev item q.front v.rest w v.distinct v.chain;
      distinct = v.distinct;
      ends = v.ends;
      quiet = λ x out. put-neq prev x none q.writes (outside x out) ∙ v.quiet x out;
      idle = λ out. put-neq prev stub (some item) q.link (outside stub out) ∙ v.idle out;
      order = v.order;
      alone = v.alone;
    }

-- The front of a chain that another node follows.
follower :
    (f g : ℕ → Option ℕ) (n x y : ℕ) (r : List ℕ)
    → f x ≡ some n
    → Chain f g (x ∷ y ∷ r)
    → (n ≡ y) × ((g x ≡ none) × Chain f g (y ∷ r))
follower f g n x y r e (inl (l, w), h) = let same : some n ≡ some y = cc (e, l) in (cc, (w, h))
follower f g n x y r e (inr (l, w), h) = let bad : none ≡ some n = cc (e, l) in cc

-- A queue whose front moves on from `x`, the write to which has been done.
moved-IsQueue :
    (n : ℕ) (q t : Mpsc) (v : IsQueue q)
    → q.link q.front ≡ some n
    → t.front ≡ n
    → t.back ≡ q.back
    → t.link ≡ put q.front none q.link
    → t.writes ≡ q.writes
    → t.pushed ≡ q.pushed
    → ((r : List ℕ) → q.popped ++ items (q.front ∷ r) ≡ t.popped ++ items r)
    → (t.at_back ≡ true → q.at_back ≡ true)
    → IsQueue t
moved-IsQueue n q t v e hf hb hl hw hp ho ha =
    go v.rest v.chain v.distinct v.ends v.quiet v.idle v.order v.alone
  where
    not_front :
        {y : ℕ} {r : List ℕ} (x : ℕ)
        → (q.front == x) ≡ false
        → (Among x (y ∷ r) → ⊥)
        → Among x (q.front ∷ y ∷ r)
        → ⊥
    not_front x s out (later m) = out m
    not_front x s out first = ground arith

    silent :
        {y : ℕ} {r : List ℕ}
        → q.writes q.front ≡ none
        → ((x : ℕ) → (Among x (q.front ∷ y ∷ r) → ⊥) → q.writes x ≡ none)
        → (x : ℕ) → (Among x (y ∷ r) → ⊥)
        → q.writes x ≡ none
    silent w u x out = elim (Bool-cases (q.front == x)) [
      | inl s ↦ let same : q.front ≡ x = ground arith in cc (w, same)
      | inr s ↦ u x (λ m. not_front x s out m)
    ]

    unlinked :
        {y : ℕ} {r : List ℕ}
        → ((Among stub (q.front ∷ y ∷ r) → ⊥) → q.link stub ≡ none)
        → (Among stub (y ∷ r) → ⊥)
        → put q.front none q.link stub ≡ none
    unlinked i out = elim (Bool-cases (q.front == stub)) [
      | inl s ↦ rw s refl
      | inr s ↦ rw s (i (λ m. not_front stub s out m))
    ]

    go :
        (rest : List ℕ)
        → Chain q.link q.writes (q.front ∷ rest)
        → Distinct (q.front ∷ rest)
        → q.back ≡ last q.front rest
        → ((x : ℕ) → (Among x (q.front ∷ rest) → ⊥) → q.writes x ≡ none)
        → ((Among stub (q.front ∷ rest) → ⊥) → q.link stub ≡ none)
        → q.pushed ≡ q.popped ++ items (q.front ∷ rest)
        → (q.at_back ≡ true → Among stub (q.front ∷ rest) → ⊥)
        → IsQueue t
    go [] c d b u i o a = let bad : none ≡ some n = cc (e, c.0) in cc
    go (y ∷ r) c (gone, d) b u i o a =
        let (same, (w, c')) = follower q.link q.writes n q.front y r e c in
        let f : t.front ≡ y = cc (hf, same) in
        record {
          rest = r;
          chain =
              subst (λ z. Chain t.link t.writes (z ∷ r)) (sym f)
                (Chain-congr q.link q.writes t.link t.writes (y ∷ r)
                  (λ z m. (
                    ap (λ l. l z) hl
                        ∙ put-neq q.front z none q.link (apart q.front z (y ∷ r) gone m),
                    ap (λ l. l z) hw,
                  ))
                  c');
          distinct = rw f d;
          ends = rw (hb, f) b;
          quiet = λ x out. rw hw (silent w u x (λ m. out (subst (λ z. Among x (z ∷ r)) (sym f) m)));
          idle = λ out. rw hl (unlinked i (λ m. out (subst (λ z. Among stub (z ∷ r)) (sym f) m)));
          order = rw (f, hp) (o ∙ ho (y ∷ r));
          alone = λ found m. a (ha found) (later (subst (λ z. Among stub (z ∷ r)) f m));
        }

skips-IsQueue :
    (n : ℕ) (q : Mpsc) → IsQueue q → q.front ≡ stub → q.link stub ≡ some n → IsQueue (skip n q)
unfolding skip
skips-IsQueue n q v f e =
    moved-IsQueue n q _ v (rw f e) refl refl (rw f refl) refl refl (λ r. rw f refl) (λ found. found)

takes-IsQueue :
    (n : ℕ) (q : Mpsc)
    → IsQueue q
    → (q.front ≡ stub → ⊥)
    → q.link q.front ≡ some n
    → IsQueue (take_front n q)
unfolding take_front
takes-IsQueue n q v f e =
    let plain = eqb-false q.front stub f in
    moved-IsQueue n q _ v e refl refl refl refl refl
      (λ r. rw plain (sym (append_assoc q.popped (q.front ∷ []) (items r)))) (λ found. cc)

finds-IsQueue :
    (q : Mpsc) → IsQueue q → (q.front ≡ stub → ⊥) → q.front ≡ q.back → IsQueue (find_back q)
unfolding find_back
finds-IsQueue q v f b = record {
  rest = v.rest;
  chain = v.chain;
  distinct = v.distinct;
  ends = v.ends;
  quiet = v.quiet;
  idle = v.idle;
  order = v.order;
  alone = λ found m. sole v.rest (b ∙ v.ends) v.distinct m;
}
  where
    sole :
        (r : List ℕ)
        → q.front ≡ last q.front r
        → Distinct (q.front ∷ r)
        → Among stub (q.front ∷ r)
        → ⊥
    sole [] e d m = f (sym (Among-one stub q.front m))
    sole (y ∷ r) e (gone, d) m = gone (subst (λ z. Among z (y ∷ r)) (sym e) (Among-last y r))

pushes_self-IsQueue : (q : Mpsc) → IsQueue q → q.at_back ≡ true → IsQueue (push_self q)
unfolding push_self
pushes_self-IsQueue q v found =
    let nodes = q.front ∷ v.rest in
    let out = v.alone found in
    let back_in : Among q.back nodes = rw v.ends (Among-last q.front v.rest) in
    record {
      rest = v.rest ++ stub ∷ [];
      chain =
          Chain-congr (put stub none q.link) (put q.back (some stub) q.writes) q.link
            (put q.back (some stub) q.writes) (nodes ++ stub ∷ [])
            (λ x m. (sym (put-same stub x q.link (v.idle out)), refl))
            (subst
              (λ b. Chain (put stub none q.link) (put b (some stub) q.writes) (nodes ++ stub ∷ []))
              (sym v.ends)
              (Chain-push q.link q.writes stub q.front v.rest out (v.quiet stub out) v.distinct
                v.chain));
      distinct = Distinct-snoc stub nodes out v.distinct;
      ends = sym (last-snoc q.front stub v.rest);
      quiet = λ x off.
          put-neq q.back x (some stub) q.writes
            (λ s. off (Among-append_left (stub ∷ []) (subst (λ z. Among z nodes) s back_in)))
          ∙ v.quiet x (λ a. off (Among-append_left (stub ∷ []) a));
      idle = λ off. absurd (off (Among-append_right nodes first));
      order =
          v.order
          ∙ ap (λ m. q.popped ++ m)
              (sym (items-append nodes (stub ∷ []) ∙ append-nil (items nodes)));
      alone = λ none_found. cc;
    }

Step-IsQueue : (q t : Mpsc) → IsQueue q → Step q t → IsQueue t
Step-IsQueue q t v (pushes item h f l w e) = rw e (pushes-IsQueue item q v h new)
  where
    behind : Among item v.rest → ⊥
    behind a =
        let (z, p) = pointed q.link q.writes item q.front v.rest v.chain a in
        elim p [ inl b ↦ l z b | inr b ↦ w z b ]

    new : Among item (q.front ∷ v.rest) → ⊥
    new a = elim (Among-cons item q.front v.rest a) [ inl e ↦ f e | inr b ↦ behind b ]
Step-IsQueue q t v (writes_next prev item w e) = rw e (writes_next-IsQueue prev item q v w)
Step-IsQueue q t v (skips n f l e) = rw e (skips-IsQueue n q v f l)
Step-IsQueue q t v (takes n f l e) = rw e (takes-IsQueue n q v f l)
Step-IsQueue q t v (finds f b e) = rw e (finds-IsQueue q v f b)
Step-IsQueue q t v (pushes_self a e) = rw e (pushes_self-IsQueue q v a)

-- Whatever steps the threads take and in whatever order: the nodes form one chain from the front to the
-- back, the links of which are there or still to be written by one push each, and the nodes that were
-- pushed, in the order of their exchanges, are those that were popped and then those of the chain. No node
-- is lost, popped twice, or popped out of this order.
pub Reach-IsQueue : (q : Mpsc) → Reach q → IsQueue q
unfolding create
Reach-IsQueue q start = record {
  rest = [];
  chain = (refl, refl);
  distinct = ((λ a. elim a [ ]), tt);
  ends = refl;
  quiet = λ x out. refl;
  idle = λ out. refl;
  order = refl;
  alone = λ found. cc;
}
Reach-IsQueue t (next {q} r s) = Step-IsQueue q t (Reach-IsQueue q r) s
