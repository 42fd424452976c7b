-- ===== src/Containers/Mpsc/Pop.antt =====
-- src/containers/intrusive.hpp: the whole of `mpsc_queue_t::pop`, where no other thread takes a step in between.
use indecorous.Base.{
  ℕ, ◌≡◌, inl, inr, refl, ap, ◌∙◌, sym, Bool, true, false, not, Bool-cases, Option, Option-cases,
  none, some, List, [], ◌∷◌, ◌++◌, append-nil, Among, first, Result, ok, assert, ◌>>◌, ◌==◌,
  if◌then◌else◌, subst, arith,
}
use indecorous.Containers.Mpsc.{
  stub, Mpsc, put, set_next, skip, take_front, find_back, push_self, skips, takes, finds,
  pushes_self, writes_next, Reach, next,
}
use indecorous.Containers.Mpsc.Chained.{Chain, Distinct, last, put-eq}
use indecorous.Containers.Mpsc.Order.{items, IsQueue, eqb-false}
use indecorous.Containers.Mpsc.History.{Reach-IsQueue}

abbrev pub is_none {ℓ} : {A : Type ℓ} → Option A → Bool
is_none none = true
is_none (some a) = false

-- The node at the front, if another one follows it
abbrev pub take_or : Option ℕ → Mpsc → Result (Option ℕ × Mpsc) → Result (Option ℕ × Mpsc)
take_or none q other = other
take_or (some after) q other = ok (some q.front, take_front after q)

-- `push_self`
abbrev pub pushed_self : Mpsc → Mpsc
pushed_self q = set_next q.back stub (push_self (find_back q))

-- `pop`, where the front is not the queue's own node
unfoldable pub pop_node : Mpsc → Result (Option ℕ × Mpsc)
unfolding take_front set_next push_self find_back
pop_node q = do
  assert (not (q.front == stub))
  take_or (q.link q.front) q (
      if q.front == q.back
      then (do
        assert (is_none (q.link stub))
        let r = pushed_self q
        take_or (r.link r.front) r (ok (none, r)))
      else ok (none, q))

abbrev pub pop_skip : Option ℕ → Mpsc → Result (Option ℕ × Mpsc)
pop_skip none q = ok (none, q)
pop_skip (some after) q = pop_node (skip after q)

-- `pop`
unfoldable pub pop : Mpsc → Result (Option ℕ × Mpsc)
unfolding pop_node skip
pop q = if q.front == stub then pop_skip (q.link stub) q else pop_node q

abbrev pub head? : List ℕ → Option ℕ
head? [] = none
head? (x ∷ xs) = some x

abbrev pub given : Option ℕ → List ℕ
given none = []
given (some x) = x ∷ []

rest_of :
    (f g : ℕ → Option ℕ) (x n : ℕ) (rest : List ℕ)
    → Chain f g (x ∷ rest)
    → f x ≡ some n
    → (r : List ℕ) × (rest ≡ n ∷ r)
rest_of f g x n [] c e = let bad : none ≡ some n = cc (c.0, e) in cc
rest_of f g x n (y ∷ r) (inl (l, w), c) e = let same : some y ≡ some n = cc (l, e) in (r, cc)
rest_of f g x n (y ∷ r) (inr (l, w), c) e = let bad : none ≡ some n = cc (l, e) in cc

no_rest :
    (f g : ℕ → Option ℕ) (x : ℕ) (rest : List ℕ)
    → Chain f g (x ∷ rest)
    → f x ≡ none
    → g x ≡ none
    → rest ≡ []
no_rest f g x [] c e h = refl
no_rest f g x (y ∷ r) (inl (l, w), c) e h = let bad : none ≡ some y = cc (l, e) in cc
no_rest f g x (y ∷ r) (inr (l, w), c) e h = let bad : none ≡ some y = cc (w, h) in cc

-- What `pop` does in a state of the queue: it ends well, in a state of the queue from which just the node that
-- it gives has gone; and if no push is midway, that is the one that has been in the queue for the longest time.
pub record Pops (q : Mpsc) (m : Result (Option ℕ × Mpsc)) (nodes : List ℕ) : Type 0 where
  pub found : Option ℕ
  pub then_ : Mpsc
  pub ends : m ≡ ok (found, then_)
  pub reached : Reach then_
  pub done : then_.at_back ≡ false
  pub same_pushed : then_.pushed ≡ q.pushed
  pub gone : then_.popped ≡ q.popped ++ given found
  pub writers : (x item : ℕ) → then_.writes x ≡ some item → q.writes x ≡ some item
  pub oldest : ((x : ℕ) → q.writes x ≡ none) → found ≡ head? (items nodes)

head-items : (x : ℕ) (rest : List ℕ) → (x ≡ stub → ⊥) → head? (items (x ∷ rest)) ≡ some x
head-items x rest h = rw (eqb-false x stub h) refl

abbrev pushed_writes : Mpsc → ℕ → Option ℕ
pushed_writes q = put q.back none (put q.back (some stub) q.writes)

-- The last node: the queue's own node comes behind it.
pop_self-Pops :
    (q : Mpsc) (r : Reach q)
    → (q.front ≡ stub → ⊥)
    → q.link q.front ≡ none
    → q.front ≡ q.back
    → Pops q (pop_node q) (q.front ∷ (Reach-IsQueue q r).rest)
unfolding pop_node
pop_self-Pops q r other e at_end =
    let found = next r (finds other at_end refl) in
    let w = Reach-IsQueue (find_back q) found in
    let free : q.link stub ≡ none = w.idle (w.alone refl) in
    let pushed = next found (pushes_self refl refl) in
    let writing : put q.back (some stub) q.writes q.back ≡ some stub =
      put-eq q.back q.back (some stub) q.writes refl in
    let linked = next pushed (writes_next q.back stub writing refl) in
    let follows : put q.back (some stub) q.link q.front ≡ some stub =
      put-eq q.back q.front (some stub) q.link (sym at_end) in
    let same : (q.front == q.back) ≡ true = ground (arith, at_end) in
    let same' : (q.back == q.front) ≡ true = ground (arith, at_end) in
    record {
      found = some q.front;
      then_ = take_front stub (pushed_self q);
      ends = rw (eqb-false q.front stub other, e, same, free, same') refl;
      reached = next linked (takes stub other follows refl);
      done = refl;
      same_pushed = refl;
      gone = refl;
      writers = λ x item w. elim (Bool-cases (q.back == x)) [
        | inl b ↦
            let cleared : pushed_writes q x ≡ none = rw b refl in
            let bad : none ≡ some item = sym cleared ∙ w in cc
        | inr b ↦ let same : pushed_writes q x ≡ q.writes x = rw b refl in cc (same, w)
      ];
      oldest = λ h. sym (head-items q.front (Reach-IsQueue q r).rest other);
    }

pop_node-Pops :
    (q : Mpsc) (r : Reach q)
    → q.at_back ≡ false
    → (q.front ≡ stub → ⊥)
    → Pops q (pop_node q) (q.front ∷ (Reach-IsQueue q r).rest)
unfolding pop_node
pop_node-Pops q r idle other = elim (Option-cases (q.link q.front)) [
  | inr (n, e) ↦ record {
    found = some q.front;
    then_ = take_front n q;
    ends = rw (eqb-false q.front stub other, e) refl;
    reached = next r (takes n other e refl);
    done = refl;
    same_pushed = refl;
    gone = refl;
    writers = λ x item w. w;
    oldest = λ h. sym (head-items q.front v.rest other);
  }
  | inl e ↦ elim (Bool-cases (q.front == q.back)) [
    | inr apart ↦ record {
      found = none;
      then_ = q;
      ends = rw (eqb-false q.front stub other, e, apart) refl;
      reached = r;
      done = idle;
      same_pushed = refl;
      gone = sym (append-nil q.popped);
      writers = λ x item w. w;
      oldest = λ h.
          let alone = no_rest q.link q.writes q.front v.rest v.chain e (h q.front) in
          let same : q.back ≡ q.front = v.ends ∙ ap (last q.front) alone in
          absurd (ground (arith, apart, same));
    }
    | inl at_end ↦ pop_self-Pops q r other e (ground (arith, at_end))
  ]
]
  where
    v : IsQueue q
    v = Reach-IsQueue q r

-- The front moves on from the queue's own node to `n`.
skipped :
    (n : ℕ) (q : Mpsc) (r : Reach q)
    → q.front ≡ stub
    → q.link stub ≡ some n
    → (n ≡ stub → ⊥) × (head? (items (q.front ∷ (Reach-IsQueue q r).rest)) ≡ some n)
skipped n q r own e =
    let v = Reach-IsQueue q r in
    let (rest, same) = rest_of q.link q.writes q.front n v.rest v.chain (ap q.link own ∙ e) in
    let d : Distinct (q.front ∷ n ∷ rest) = subst (λ l. Distinct (q.front ∷ l)) same v.distinct in
    let other : n ≡ stub → ⊥ = λ z. d.0 (subst (λ y. Among y (n ∷ rest)) (z ∙ sym own) first) in
    let own' : (q.front == stub) ≡ true = ground (arith, own) in
    (other, rw (same, own') (head-items n rest other))

-- In every state of the queue in which no `pop` is under way, `pop` ends well, and leaves a state of the queue in
-- which the pushed nodes are the same and the popped ones are those from before with the one that it gives, if
-- any, behind them. If no push is midway, it gives the node that has been in the queue for the longest time, and
-- nothing only if there is none.
pub pop-Pops :
    (q : Mpsc) (r : Reach q)
    → q.at_back ≡ false
    → Pops q (pop q) (q.front ∷ (Reach-IsQueue q r).rest)
unfolding pop
pop-Pops q r idle = elim (Bool-cases (q.front == stub)) [
  | inr other ↦
      let p = pop_node-Pops q r idle (λ e. ground (arith, other, e)) in
      record {
        found = p.found;
        then_ = p.then_;
        ends = ap (λ b. if b then pop_skip (q.link stub) q else pop_node q) other ∙ p.ends;
        reached = p.reached;
        done = p.done;
        same_pushed = p.same_pushed;
        gone = p.gone;
        writers = p.writers;
        oldest = p.oldest;
      }
  | inl own ↦
      let own' : q.front ≡ stub = ground (arith, own) in
      elim (Option-cases (q.link stub)) [
        | inl e ↦ record {
          found = none;
          then_ = q;
          ends = rw (own, e) refl;
          reached = r;
          done = idle;
          same_pushed = refl;
          gone = sym (append-nil q.popped);
          writers = λ x item w. w;
          oldest = λ h.
              let v = Reach-IsQueue q r in
              let alone =
                no_rest q.link q.writes q.front v.rest v.chain (ap q.link own' ∙ e) (h q.front) in
              rw (alone, own) refl;
        }
        | inr (n, e) ↦
            let (other, head) = skipped n q r own' e in
            let after = next r (skips n own' e refl) in
            let p = pop_node-Pops (skip n q) after idle other in
            record {
              found = p.found;
              then_ = p.then_;
              ends = rw (own, e) p.ends;
              reached = p.reached;
              done = p.done;
              same_pushed = p.same_pushed;
              gone = p.gone;
              writers = p.writers;
              oldest = λ h.
                  p.oldest h ∙ head-items n (Reach-IsQueue (skip n q) after).rest other ∙ sym head;
            }
      ]
]
