-- ===== src/Sync/Mutex/Ledger.antt =====
-- src/sync/mutex.cc: every callback that asked to wait is accounted for.
use indecorous.Base.{
  ℕ, ◌+◌, ◌≡◌, refl, ap, ◌∙◌, some, List, [], ◌∷◌, ◌++◌, ok, ◌==◌, ==_refl, Bool-cases,
  Option-cases, ok-injective, inl, inr, Among, first, later, subst, if◌then◌else◌, arith,
}
use indecorous.Sync.WaitObject.{WaitResult, success, object_lost, Notice, notices}
use indecorous.Sync.Mutex.{
  Lock, Mutex, find, erase, update, unlink, create, start_acq, has, ready_front, release_lock,
  destroy, add_wait, remove_wait, move_acq,
}
use indecorous.Sync.Mutex.Handover
use indecorous.Sync.Mutex.Handover.{IsSettled, Step-IsSettled}

abbrev pub one_if : ℕ → ℕ → ℕ
one_if c cb = if c == cb then 1 else 0

abbrev pub times : ℕ → List ℕ → ℕ
times cb [] = 0
times cb (c ∷ cs) = one_if c cb + times cb cs

-- How often a callback waits on the acquisitions, and how often it was told a result.
abbrev pub waiting : ℕ → List Lock → ℕ
waiting cb [] = 0
waiting cb (l ∷ ls) = times cb l.waiters + waiting cb ls

abbrev pub notified : ℕ → List Notice → ℕ
notified cb [] = 0
notified cb ((c, result) ∷ ns) = one_if c cb + notified cb ns

times-append : (cb : ℕ) (cs ds : List ℕ) → times cb (cs ++ ds) ≡ times cb cs + times cb ds
times-append cb [] ds = omega arith
times-append cb (c ∷ cs) ds = let e = times-append cb cs ds in omega (arith, e)

notified-append :
    (cb : ℕ) (ns ms : List Notice) → notified cb (ns ++ ms) ≡ notified cb ns + notified cb ms
notified-append cb [] ms = omega arith
notified-append cb ((c, r) ∷ ns) ms = let e = notified-append cb ns ms in omega (arith, e)

notified-notices :
    (cb : ℕ) (r : WaitResult) (ws : List ℕ) → notified cb (notices r ws) ≡ times cb ws
notified-notices cb r [] = refl
notified-notices cb r (w ∷ ws) = ap (λ n. one_if w cb + n) (notified-notices cb r ws)

-- The callbacks `ws` are told at the end of a log.
notified-log :
    (cb : ℕ) (r : WaitResult) (log : List Notice) (ws : List ℕ)
    → notified cb (log ++ notices r ws) ≡ notified cb log + times cb ws
notified-log cb r log ws =
    notified-append cb log (notices r ws) ∙ ap (λ n. notified cb log + n) (notified-notices cb r ws)

waiting-start :
    (cb id : ℕ) (ls : List Lock)
    → waiting cb (ls ++ record { id = id; waiters = [] } ∷ []) ≡ waiting cb ls
waiting-start cb id [] = omega arith
waiting-start cb id (l ∷ ls) = ap (λ n. times cb l.waiters + n) (waiting-start cb id ls)

waiting-update :
    (cb id : ℕ) (f : Lock → Lock) (ls : List Lock) (l : Lock)
    → find id ls ≡ some l
    → waiting cb (update id f ls) + times cb l.waiters ≡ waiting cb ls + times cb (f l).waiters
waiting-update cb id f [] l h = cc
waiting-update cb id f (x ∷ xs) l h = elim (Bool-cases (x.id == id)) [
  | inl b ↦
      let same : some x ≡ some l = rw b at h in
      let here : x ≡ l = cc in
      rw b (
        subst
          (λ y.
            (times cb (f x).waiters + waiting cb xs) + times cb y.waiters
            ≡ (times cb x.waiters + waiting cb xs) + times cb (f y).waiters)
          here (omega arith))
  | inr b ↦
      let there : find id xs ≡ some l = rw b at h in
      let e = waiting-update cb id f xs l there in rw b (omega (arith, e))
]

waiting-erase :
    (cb id : ℕ) (ls : List Lock) (l : Lock)
    → find id ls ≡ some l
    → waiting cb ls ≡ times cb l.waiters + waiting cb (erase id ls)
waiting-erase cb id [] l h = cc
waiting-erase cb id (x ∷ xs) l h = elim (Bool-cases (x.id == id)) [
  | inl b ↦
      let same : some x ≡ some l = rw b at h in
      let here : x ≡ l = cc in rw b (ap (λ y. times cb y.waiters + waiting cb xs) here)
  | inr b ↦
      let there : find id xs ≡ some l = rw b at h in
      let e = waiting-erase cb id xs l there in rw b (omega (arith, e))
]

-- The callbacks that wait, and those that were told
abbrev pub account : ℕ → Mutex → ℕ
account cb m = waiting cb m.locks + notified cb m.woken

account-ready_front :
    (cb : ℕ) (m : Mutex) (ls : List Lock)
    → account cb (ready_front m ls) ≡ waiting cb ls + notified cb m.woken
unfolding ready_front
account-ready_front cb m [] = refl
account-ready_front cb m (l ∷ ls) =
    let e = notified-log cb success m.woken l.waiters in omega (arith, e)

account-release_lock :
    (cb id : ℕ) (m : Mutex)
    → account cb (release_lock id m) ≡ waiting cb (erase id m.locks) + notified cb m.woken
unfolding release_lock
account-release_lock cb id m = elim (Bool-cases (has id m.locks)) [
  | inl b ↦ rw b (account-ready_front cb m (erase id m.locks))
  | inr b ↦ rw b refl
]

account-destroy : (cb id : ℕ) (m t : Mutex) → destroy id m ≡ ok t → account cb t ≡ account cb m
unfolding destroy
account-destroy cb id m t e = elim (Option-cases (find id m.locks)) [
  | inl none_there ↦ cc (rw (none_there, destroy) at e)
  | inr (l, there) ↦
      let released = account-release_lock cb id m in
      let log = notified-log cb object_lost (release_lock id m).woken l.waiters in
      let erased = waiting-erase cb id m.locks l there in
      subst (λ u. account cb u ≡ account cb m) (ok-injective (rw (there, destroy) at e))
        (omega (arith, released, log, erased))
]

account-add_wait :
    (cb id c : ℕ) (m : Mutex) (l : Lock)
    → find id m.locks ≡ some l
    → account cb (add_wait id c m) ≡ one_if c cb + account cb m
unfolding add_wait
account-add_wait cb id c m l there = elim (Bool-cases (has id m.locks)) [
  | inl b ↦ let e = notified-append cb m.woken ((c, success) ∷ []) in rw b (omega (arith, e))
  | inr b ↦
      let e =
        waiting-update cb id (λ k. record k { waiters = k.waiters ++ c ∷ [] }) m.locks l there in
      let f = times-append cb l.waiters (c ∷ []) in rw b (omega (arith, e, f))
]

times-unlink :
    (cb c : ℕ) (ws : List ℕ) → Among c ws → times cb ws ≡ one_if c cb + times cb (unlink c ws)
times-unlink cb c [] p = elim p [ ]
times-unlink cb c (w ∷ ws) first = rw (==_refl c) refl
times-unlink cb c (w ∷ ws) (later p) = elim (Bool-cases (w == c)) [
  | inl b ↦ let same : w ≡ c = ground (arith, b) in rw b (ap (λ x. one_if x cb + times cb ws) same)
  | inr b ↦ let e = times-unlink cb c ws p in rw b (omega (arith, e))
]

-- What a mutex can come to, with the callbacks that asked to wait on an acquisition of it, and those that were
-- dropped without a result: by `remove_wait`, or when their acquisition was moved.
pub data Reach : List ℕ → List ℕ → Mutex → Type 0 where
  start : Reach [] [] create
  starts :
      {asked dropped : List ℕ} {m : Mutex} (id : ℕ)
      → Reach asked dropped m
      → Reach asked dropped (start_acq id m)
  destroys :
      {asked dropped : List ℕ} {m t : Mutex} (id : ℕ)
      → Reach asked dropped m
      → destroy id m ≡ ok t
      → Reach asked dropped t
  waits :
      {asked dropped : List ℕ} {m : Mutex} (id cb : ℕ) (l : Lock)
      → Reach asked dropped m
      → find id m.locks ≡ some l
      → Reach (cb ∷ asked) dropped (add_wait id cb m)
  unwaits :
      {asked dropped : List ℕ} {m : Mutex} (id cb : ℕ) (l : Lock)
      → Reach asked dropped m
      → find id m.locks ≡ some l
      → Among cb l.waiters
      → Reach asked (cb ∷ dropped) (remove_wait id cb m)
  moves :
      {asked dropped : List ℕ} {m : Mutex} (id other : ℕ) (l : Lock)
      → Reach asked dropped m
      → find other m.locks ≡ some l
      → Reach asked (l.waiters ++ dropped) (move_acq id other m)

Reach-account :
    {asked dropped : List ℕ} {m : Mutex} (cb : ℕ)
    → Reach asked dropped m
    → times cb asked ≡ account cb m + times cb dropped
unfolding create start_acq remove_wait move_acq
Reach-account cb start = omega arith
Reach-account cb (starts {m} id r) =
    let e = Reach-account cb r in let f = waiting-start cb id m.locks in omega (arith, e, f)
Reach-account cb (destroys {m} {t} id r h) =
    let e = Reach-account cb r in let f = account-destroy cb id m t h in omega (arith, e, f)
Reach-account cb (waits {m} id c l r there) =
    let e = Reach-account cb r in let f = account-add_wait cb id c m l there in omega (arith, e, f)
Reach-account cb (unwaits {m} id c l r there p) =
    let e = Reach-account cb r in
    let f = waiting-update cb id (λ k. record k { waiters = unlink c k.waiters }) m.locks l there in
    let g = times-unlink cb c l.waiters p in omega (arith, e, f, g)
Reach-account cb (moves {dropped} {m} id other l r there) =
    let e = Reach-account cb r in
    let f = waiting-update cb other (λ k. record { id = id; waiters = [] }) m.locks l there in
    let g = times-append cb l.waiters dropped in omega (arith, e, f, g)

settled : {asked dropped : List ℕ} {m : Mutex} → Reach asked dropped m → IsSettled m.locks
unfolding create
settled start = tt
settled (starts id r) = Step-IsSettled (settled r) (Handover.starts id refl)
settled (destroys id r h) = Step-IsSettled (settled r) (Handover.destroys id h)
settled (waits id cb l r there) = Step-IsSettled (settled r) (Handover.waits id cb refl)
settled (unwaits id cb l r there p) = Step-IsSettled (settled r) (Handover.unwaits id cb refl)
settled (moves id other l r there) = Step-IsSettled (settled r) (Handover.moves id other refl)

-- In any order of the calls, nobody waits on the acquisition that holds the mutex; and a callback has asked to
-- wait just as often as it still waits behind the holder, was told a result, or was dropped, by `remove_wait` or
-- when its acquisition was moved.
pub Reach-IsSettled_told :
    {asked dropped : List ℕ} {m : Mutex} (cb : ℕ)
    → Reach asked dropped m
    → IsSettled m.locks
      × (times cb asked ≡ (waiting cb m.locks + notified cb m.woken) + times cb dropped)
Reach-IsSettled_told cb r = (settled r, Reach-account cb r)
