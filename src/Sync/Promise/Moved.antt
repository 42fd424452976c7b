-- ===== src/Sync/Promise/Moved.antt =====
-- src/sync/promise.tcc: the value of a promise is moved out once at most, and nobody waits on a future
-- whose promise is done.
use indecorous.Base.{
  ℕ, ◌+◌, ◌≡◌, ◌⊎◌, inl, inr, refl, Bool, true, false, Bool-cases, ◌||◌, List, [], ◌∷◌, ◌++◌, All,
  All-append, if◌then◌else◌, ok, some, guarantee, require-eq-ok, ok-injective, not, subst, sym,
  append-nil, arith,
}
use indecorous.Sync.WaitObject.{WaitResult, success, object_lost}
use indecorous.Sync.Promise.{
  State, unfulfilled, released, fulfilled, Future, Deed, told, ref_handled, move_handled, deleted,
  taken, PromiseData, create, is_unfulfilled, is_released, has, tell_waiters, tell_futures, notify,
  handle_refs, handle_moves, after_moves, handle_chains, notify_by, notify_all, assign, release,
  add_future, remove_future, abandon, reassign_futures, add_wait, remove_wait, at_once, chained,
  then_ref, then_release,
}

-- The waiters of all the futures.
abbrev pub waiting : List Future → List ℕ
waiting [] = []
waiting (f ∷ fs) = f.waiters ++ waiting fs

module _ {A : Type 0} where
  -- One call on a promise or on one of its futures.
  pub data Step (p t : PromiseData A) : Type 0 where
    assigns : (value : A) → assign value p ≡ ok t → Step p t
    abandons : (dead : Bool) → abandon p ≡ ok (t, dead) → Step p t
    adds : (id : ℕ) → t ≡ add_future id p → Step p t
    drops : (id : ℕ) → t ≡ (remove_future id p).0 → Step p t
    waits : (id cb : ℕ) → t ≡ add_wait id cb p → Step p t
    stops : (id cb : ℕ) → t ≡ remove_wait id cb p → Step p t
    takes : (value : A) → release p ≡ ok (some (value, t)) → Step p t
    thens : (c : ℕ) → then_ref c p ≡ chained t → Step p t
    then_takes : (c : ℕ) → then_release c p ≡ chained t → Step p t
    takes_at_once : (c : ℕ) (value : A) → then_release c p ≡ at_once value t → Step p t
    gains : (q : PromiseData A) → t ≡ (reassign_futures q p).1 → Step p t

  pub data Reach : PromiseData A → Type 0 where
    start : Reach create
    next : {p t : PromiseData A} → Reach p → Step p t → Reach t

  -- How often the value was moved out, and how often it should have been.
  abbrev pub moves : List (Deed A) → ℕ
  moves [] = 0
  moves (move_handled c value ∷ ds) = 1 + moves ds
  moves (taken value ∷ ds) = 1 + moves ds
  moves (told cb result ∷ ds) = moves ds
  moves (ref_handled c value ∷ ds) = moves ds
  moves (deleted c ∷ ds) = moves ds

  abbrev pub gone : State A → ℕ
  gone unfulfilled = 0
  gone (fulfilled value) = 0
  gone released = 1

  -- The value that is shown to a callback or taken, if any, is `value`.
  abbrev pub Shows : A → Deed A → Type 0
  Shows value (told cb result) = Unit
  Shows value (ref_handled c seen) = seen ≡ value
  Shows value (move_handled c seen) = seen ≡ value
  Shows value (deleted c) = Unit
  Shows value (taken seen) = seen ≡ value

  abbrev pub Silent : Deed A → Type 0
  Silent (told cb result) = Unit
  Silent (ref_handled c seen) = ⊥
  Silent (move_handled c seen) = ⊥
  Silent (deleted c) = Unit
  Silent (taken seen) = ⊥

  -- A promise without its value has shown none; one that had `value` has shown no other.
  pub data Owns (p : PromiseData A) : Type 0 where
    not_yet : p.state ≡ unfulfilled → All Silent p.log → Owns p
    once :
        (value : A)
        → (p.state ≡ fulfilled value) ⊎ (p.state ≡ released)
        → All (Shows value) p.log
        → moves p.log ≡ gone p.state
        → Owns p

  pub State-cases :
      (s : State A) → (s ≡ unfulfilled) ⊎ ((s ≡ released) ⊎ ((value : A) × (s ≡ fulfilled value)))
  State-cases unfulfilled = inl refl
  State-cases released = inr (inl refl)
  State-cases (fulfilled value) = inr (inr (value, refl))

  moves-append : (xs ys : List (Deed A)) → moves (xs ++ ys) ≡ moves xs + moves ys
  moves-append [] ys = omega arith
  moves-append (move_handled c value ∷ xs) ys = omega (arith, moves-append xs ys)
  moves-append (taken value ∷ xs) ys = omega (arith, moves-append xs ys)
  moves-append (told cb result ∷ xs) ys = moves-append xs ys
  moves-append (ref_handled c value ∷ xs) ys = moves-append xs ys
  moves-append (deleted c ∷ xs) ys = moves-append xs ys

  Silent-moves : (xs : List (Deed A)) → All Silent xs → moves xs ≡ 0
  Silent-moves [] h = refl
  Silent-moves (told cb result ∷ xs) h = Silent-moves xs h.1
  Silent-moves (ref_handled c value ∷ xs) h = absurd h.0
  Silent-moves (move_handled c value ∷ xs) h = absurd h.0
  Silent-moves (taken value ∷ xs) h = absurd h.0
  Silent-moves (deleted c ∷ xs) h = Silent-moves xs h.1

  Silent-Shows : (value : A) (xs : List (Deed A)) → All Silent xs → All (Shows value) xs
  Silent-Shows value [] h = tt
  Silent-Shows value (told cb result ∷ xs) h = (tt, Silent-Shows value xs h.1)
  Silent-Shows value (ref_handled c seen ∷ xs) h = absurd h.0
  Silent-Shows value (move_handled c seen ∷ xs) h = absurd h.0
  Silent-Shows value (taken seen ∷ xs) h = absurd h.0
  Silent-Shows value (deleted c ∷ xs) h = (tt, Silent-Shows value xs h.1)

module _ (A : Type 0) where
  tell_waiters-Silent : (r : WaitResult) (cbs : List ℕ) → All (Silent {A = A}) (tell_waiters r cbs)
  tell_waiters-Silent r [] = tt
  tell_waiters-Silent r (cb ∷ cbs) = (tt, tell_waiters-Silent r cbs)

  tell_futures-Silent :
      (r : WaitResult) (fs : List Future) → All (Silent {A = A}) (tell_futures r fs)
  tell_futures-Silent r [] = tt
  tell_futures-Silent r (f ∷ fs) =
      All-append (Silent {A = A}) (tell_waiters r f.waiters) _ (tell_waiters-Silent r f.waiters)
        (tell_futures-Silent r fs)

  handle_moves-Silent : (cs : List ℕ) → All (Silent {A = A}) (handle_moves released cs)
  handle_moves-Silent [] = tt
  handle_moves-Silent (c ∷ cs) = (tt, handle_moves-Silent cs)

module _ {A : Type 0} where
  -- What adds only silent deeds and keeps the state keeps who owns the value.
  quiet-Owns :
      (p t : PromiseData A) (ds : List (Deed A))
      → t.state ≡ p.state
      → t.log ≡ p.log ++ ds
      → All Silent ds
      → Owns p
      → Owns t
  quiet-Owns p t ds e l s (not_yet u q) =
      not_yet (cc (e, u)) (subst (All Silent) (sym l) (All-append Silent p.log ds q s))
  quiet-Owns p t ds e l s (once value at q m) =
      once value (elim at [ inl f ↦ inl (cc (e, f)) | inr f ↦ inr (cc (e, f)) ])
        (subst (All (Shows value)) (sym l)
          (All-append (Shows value) p.log ds q (Silent-Shows value ds s)))
        (rw (l, e) (omega (arith, m, moves-append p.log ds, Silent-moves ds s)))

  notify-Owns : (r : WaitResult) (p : PromiseData A) → Owns p → Owns (notify r p)
  unfolding notify
  notify-Owns r p v =
      quiet-Owns p _ (tell_futures r p.futures) refl refl (tell_futures-Silent A r p.futures) v

  handle_refs-Shows : (value : A) (cs : List ℕ) → All (Shows value) (handle_refs value cs)
  handle_refs-Shows value [] = tt
  handle_refs-Shows value (c ∷ cs) = (refl, (tt, handle_refs-Shows value cs))

  moves-handle_refs : (value : A) (cs : List ℕ) → moves (handle_refs value cs) ≡ 0
  moves-handle_refs value [] = refl
  moves-handle_refs value (c ∷ cs) = moves-handle_refs value cs

  pub after_moves-released : (cs : List ℕ) → after_moves {A = A} released cs ≡ released
  after_moves-released [] = refl
  after_moves-released (c ∷ cs) = after_moves-released cs

  handle_moves-Shows :
      (value : A) (cs : List ℕ) → All (Shows value) (handle_moves (fulfilled value) cs)
  handle_moves-Shows value [] = tt
  handle_moves-Shows value (c ∷ cs) =
      (refl, (tt, Silent-Shows value (handle_moves released cs) (handle_moves-Silent A cs)))

  -- The chained callbacks see the value, and the first of those that take it is the only one.
  moves-handle_moves :
      (value : A) (cs : List ℕ)
      → moves (handle_moves (fulfilled value) cs) ≡ gone (after_moves (fulfilled value) cs)
  moves-handle_moves value [] = refl
  moves-handle_moves value (c ∷ cs) =
      let none = Silent-moves (handle_moves released cs) (handle_moves-Silent A cs) in
      rw (after_moves-released cs) (omega (arith, none))

  after_moves-cases :
      (value : A) (cs : List ℕ)
      → (after_moves (fulfilled value) cs ≡ fulfilled value)
        ⊎ (after_moves (fulfilled value) cs ≡ released)
  after_moves-cases value [] = inl refl
  after_moves-cases value (c ∷ cs) = inr (after_moves-released cs)

  handle_chains-Owns :
      (value : A) (p : PromiseData A)
      → All (Shows value) p.log
      → moves p.log ≡ 0
      → Owns (handle_chains value p)
  unfolding handle_chains
  handle_chains-Owns value p q m =
      let refs = handle_refs value p.ref_chain in
      let takers = handle_moves (fulfilled value) p.move_chain in
      once value (after_moves-cases value p.move_chain)
        (All-append (Shows value) (p.log ++ refs) takers
          (All-append (Shows value) p.log refs q (handle_refs-Shows value p.ref_chain))
          (handle_moves-Shows value p.move_chain))
        (omega (
          arith,
          m,
          moves-append (p.log ++ refs) takers,
          moves-append p.log refs,
          moves-handle_refs value p.ref_chain,
          moves-handle_moves value p.move_chain,
        ))

  if-Owns : (b : Bool) {t u : PromiseData A} → Owns t → Owns u → Owns (if b then t else u)
  if-Owns true v w = v
  if-Owns false v w = w

  notify_by-Owns : (s : State A) (p : PromiseData A) → p.state ≡ s → Owns p → Owns (notify_by s p)
  notify_by-Owns (fulfilled value) p e (not_yet u q) = cc
  notify_by-Owns (fulfilled value) p e (once v (inr r) q m) = cc
  notify_by-Owns (fulfilled value) p e (once v (inl f) q m) =
      let same : v ≡ value = cc in
      notify-Owns success _
        (handle_chains-Owns value p (subst (λ x. All (Shows x) p.log) same q) (rw e at m))
  notify_by-Owns released p e v = notify-Owns object_lost p v
  notify_by-Owns unfulfilled p e v = if-Owns p.abandoned (notify-Owns object_lost p v) v

  notify_all-Owns : (p : PromiseData A) → Owns p → Owns (notify_all p)
  unfolding notify_all
  notify_all-Owns p v = notify_by-Owns p.state p refl v

  assign-Owns : (value : A) (p t : PromiseData A) → Owns p → assign value p ≡ ok t → Owns t
  unfolding assign notify_all
  assign-Owns value p t (not_yet u q) h =
      let (idle, h') = require-eq-ok guarantee (is_unfulfilled p.state) _ h in
      subst Owns (ok-injective h') (
        notify-Owns success _
          (handle_chains-Owns value _ (Silent-Shows value p.log q) (Silent-moves p.log q)))
  assign-Owns value p t (once v (inl f) q m) h = cc (rw f at h)
  assign-Owns value p t (once v (inr f) q m) h = cc (rw f at h)

  taken-Owns :
      (value : A) (p t : PromiseData A)
      → p.state ≡ fulfilled value
      → t ≡ record p { state = released; log = p.log ++ taken value ∷ [] }
      → Owns p
      → Owns t
  taken-Owns value p t e h (not_yet u q) = cc
  taken-Owns value p t e h (once v (inr f) q m) = cc
  taken-Owns value p t e h (once v (inl f) q m) =
      let same : value ≡ v = cc in
      let none : moves p.log ≡ 0 = (rw f at m) in
      rw h (
        once v (inr refl) (All-append (Shows v) p.log (taken value ∷ []) q (same, tt))
          (omega (arith, none, moves-append p.log (taken value ∷ []))))

  release-Owns :
      (value : A) (p t : PromiseData A) → Owns p → release p ≡ ok (some (value, t)) → Owns t
  unfolding release
  release-Owns value p t v h = elim (State-cases p.state) [
    | inl e ↦ cc (rw e at h)
    | inr (inl e) ↦ cc (rw e at h)
    | inr (inr (w, e)) ↦ let h' = rw e at h in taken-Owns w p t e (cc) v
  ]

  then_ref-Owns : (c : ℕ) (p t : PromiseData A) → Owns p → then_ref c p ≡ chained t → Owns t
  unfolding then_ref
  then_ref-Owns c p t v h = elim (State-cases p.state) [
    | inl e ↦ elim (Bool-cases p.abandoned) [
      | inl b ↦ cc (rw (e, b) at h)
      | inr b ↦ let h' = rw (e, b) at h in quiet-Owns p t [] (cc) (cc (sym (append-nil p.log))) tt v
    ]
    | inr (inl e) ↦ cc (rw e at h)
    | inr (inr (w, e)) ↦ cc (rw e at h)
  ]

  then_release-Owns :
      (c : ℕ) (p t : PromiseData A)
      → Owns p
      → (then_release c p ≡ chained t) ⊎ ((value : A) × (then_release c p ≡ at_once value t))
      → Owns t
  unfolding then_release
  then_release-Owns c p t v (inl h) = elim (State-cases p.state) [
    | inl e ↦ elim (Bool-cases p.abandoned) [
      | inl b ↦ cc (rw (e, b) at h)
      | inr b ↦ let h' = rw (e, b) at h in quiet-Owns p t [] (cc) (cc (sym (append-nil p.log))) tt v
    ]
    | inr (inl e) ↦ cc (rw e at h)
    | inr (inr (w, e)) ↦ cc (rw e at h)
  ]
  then_release-Owns c p t v (inr (value, h)) = elim (State-cases p.state) [
    | inl e ↦ elim (Bool-cases p.abandoned) [
      | inl b ↦ cc (rw (e, b) at h)
      | inr b ↦ cc (rw (e, b) at h)
    ]
    | inr (inl e) ↦ cc (rw e at h)
    | inr (inr (w, e)) ↦ let h' = rw e at h in taken-Owns w p t e (cc) v
  ]

  add_wait-Owns : (id cb : ℕ) (p : PromiseData A) → Owns p → Owns (add_wait id cb p)
  unfolding add_wait
  add_wait-Owns id cb p v = elim (Bool-cases (has p.state)) [
    | inl e ↦ rw e (quiet-Owns p _ (told cb success ∷ []) refl refl (tt, tt) v)
    | inr e ↦ elim (Bool-cases (p.abandoned || is_released p.state)) [
      | inl b ↦ rw (e, b) (quiet-Owns p _ (told cb object_lost ∷ []) refl refl (tt, tt) v)
      | inr b ↦ rw (e, b) (quiet-Owns p _ [] refl (sym (append-nil p.log)) tt v)
    ]
  ]

  abandon-Owns : (p t : PromiseData A) (dead : Bool) → Owns p → abandon p ≡ ok (t, dead) → Owns t
  unfolding abandon
  abandon-Owns p t dead v h =
      let (idle, h') = require-eq-ok guarantee (not p.abandoned) _ h in
      let u =
        notify_all-Owns _
          (quiet-Owns p (record p { abandoned = true }) [] refl (sym (append-nil p.log)) tt v) in
      let same : notify_all (record p { abandoned = true }) ≡ t = cc in subst Owns same u

  reassign_futures-Owns : (q p : PromiseData A) → Owns p → Owns (reassign_futures q p).1
  unfolding reassign_futures
  reassign_futures-Owns q p v =
      notify_all-Owns _ (quiet-Owns p _ [] refl (sym (append-nil p.log)) tt v)

  Step-Owns : (p t : PromiseData A) → Owns p → Step p t → Owns t
  unfolding add_future remove_future remove_wait
  Step-Owns p t v (assigns value h) = assign-Owns value p t v h
  Step-Owns p t v (abandons dead h) = abandon-Owns p t dead v h
  Step-Owns p t v (adds id h) = rw h (quiet-Owns p _ [] refl (sym (append-nil p.log)) tt v)
  Step-Owns p t v (drops id h) = rw h (quiet-Owns p _ [] refl (sym (append-nil p.log)) tt v)
  Step-Owns p t v (waits id cb h) = rw h (add_wait-Owns id cb p v)
  Step-Owns p t v (stops id cb h) = rw h (quiet-Owns p _ [] refl (sym (append-nil p.log)) tt v)
  Step-Owns p t v (takes value h) = release-Owns value p t v h
  Step-Owns p t v (thens c h) = then_ref-Owns c p t v h
  Step-Owns p t v (then_takes c h) = then_release-Owns c p t v (inl h)
  Step-Owns p t v (takes_at_once c value h) = then_release-Owns c p t v (inr (value, h))
  Step-Owns p t v (gains q h) = rw h (reassign_futures-Owns q p v)

  -- In every reachable state of a promise: while it has not been given a value, no callback has run and no
  -- value was taken; after that there is one value that every callback saw and every taker got, and it has
  -- been moved out once if the state is `released`, and not at all otherwise.
  pub Reach-Owns : (p : PromiseData A) → Reach p → Owns p
  unfolding create
  Reach-Owns p start = not_yet refl tt
  Reach-Owns t (next {p} r s) = Step-Owns p t (Reach-Owns p r) s
