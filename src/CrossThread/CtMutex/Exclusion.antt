-- ===== src/CrossThread/CtMutex/Exclusion.antt =====
-- src/cross_thread/ct_mutex.cc: in every interleaving, one acquisition holds the mutex at most, and the
-- first in the queue has it or is going to be told.
use indecorous.Base.{
  ℕ, ◌≡◌, ◌⊎◌, inl, inr, refl, sym, ◌∙◌, true, false, Bool-cases, Option, none, some, List, [], ◌∷◌,
  ◌++◌, ◌==◌, ==_refl, ==_iff, All, Among, first, later, Among-append_left, Among-append_right,
  subst, arith,
}
use indecorous.CrossThread.CtMutex.{
  CtMutex, front, is_front, take_out, without, create, add_lock, ready, release_lock, send_notify,
  notification, listed,
}

-- Who has the mutex or is about to be told is the first in the queue, and if there is a first one, it has
-- the mutex, or is about to be told, or a call to tell it is about to be sent or is on its way.
abbrev pub IsAwake : Option ℕ → CtMutex → Type 0
IsAwake none m = Unit {0}
IsAwake (some f) m =
    Among f m.holding ⊎ (Among f m.readying ⊎ (Among f m.sending ⊎ Among f m.in_flight))

pub record IsExclusive (m : CtMutex) : Type 0 where
  pub holders : All (λ id. is_front id m.locks ≡ true) m.holding
  pub next_holders : All (λ id. is_front id m.locks ≡ true) m.readying
  pub awake : IsAwake (front m.locks) m

-- A step of some thread. An object that is destroyed is not in a call of `ready()`, which its own thread
-- would be running, and a call of `ready()` or `notify` runs that has been made.
pub data Step (m t : CtMutex) : Type 0 where
  adds : (id : ℕ) → t ≡ add_lock id m → Step m t
  readies : (id : ℕ) → Among id m.readying → t ≡ ready id m → Step m t
  releases : (id : ℕ) → without id m.readying ≡ m.readying → t ≡ release_lock id m → Step m t
  sends : (id : ℕ) → Among id m.sending → t ≡ send_notify id m → Step m t
  notifies : (id : ℕ) → Among id m.in_flight → t ≡ notification id m → Step m t

pub data Reach : CtMutex → Type 0 where
  start : Reach create
  next : {m t : CtMutex} → Reach m → Step m t → Reach t

Among-without : (id x : ℕ) (xs : List ℕ) → (x == id) ≡ false → Among x xs → Among x (without id xs)
Among-without id x [] e p = elim p [ ]
Among-without id x (y ∷ ys) e first = rw e first
Among-without id x (y ∷ ys) e (later p) = elim (Bool-cases (y == id)) [
  | inl q ↦ rw q (Among-without id x ys e p)
  | inr q ↦ rw q (later (Among-without id x ys e p))
]

Among-take_out :
    (id x : ℕ) (xs : List ℕ) → (x == id) ≡ false → Among x xs → Among x (take_out id xs)
Among-take_out id x [] e p = elim p [ ]
Among-take_out id x (y ∷ ys) e first = rw e first
Among-take_out id x (y ∷ ys) e (later p) = elim (Bool-cases (y == id)) [
  | inl q ↦ rw q p
  | inr q ↦ rw q (later (Among-take_out id x ys e p))
]

All-without : (P : ℕ → Type 0) (id : ℕ) (xs : List ℕ) → All P xs → All P (without id xs)
All-without P id [] h = tt
All-without P id (x ∷ xs) h = elim (Bool-cases (x == id)) [
  | inl e ↦ rw e (All-without P id xs h.1)
  | inr e ↦ rw e (h.0, All-without P id xs h.1)
]

-- What all stands for the same front is nothing without it.
without-front :
    (f id : ℕ) (rest xs : List ℕ)
    → (f == id) ≡ true
    → All (λ x. is_front x (f ∷ rest) ≡ true) xs
    → without id xs ≡ []
without-front f id rest [] e h = refl
without-front f id rest (x ∷ xs) e h =
    let same : (x == id) ≡ true = ground arith in rw same (without-front f id rest xs e h.1)

-- In an empty queue nobody is at the front.
nobody : (xs : List ℕ) → All (λ x. is_front x [] ≡ true) xs → xs ≡ []
nobody [] h = refl
nobody (x ∷ xs) h = cc

All-lookup : (P : ℕ → Type 0) (x : ℕ) (xs : List ℕ) → Among x xs → All P xs → P x
All-lookup P x [] p h = elim p [ ]
All-lookup P x (y ∷ ys) first h = h.0
All-lookup P x (y ∷ ys) (later p) h = All-lookup P x ys p h.1

add_lock-IsExclusive : (id : ℕ) (m : CtMutex) → IsExclusive m → IsExclusive (add_lock id m)
unfolding add_lock
add_lock-IsExclusive id m v = go m.locks v.holders v.next_holders v.awake
  where
    go :
        (locks : List ℕ)
        → All (λ x. is_front x locks ≡ true) m.holding
        → All (λ x. is_front x locks ≡ true) m.readying
        → IsAwake (front locks) m
        → IsExclusive (add_lock id (record m { locks = locks }))
    go [] h r a = record {
      holders = rw (nobody m.holding h) tt;
      next_holders = rw (==_refl id, nobody m.readying r) (==_refl id, tt);
      awake = rw (==_refl id) (inr (inl first));
    }
    go (f ∷ rest) h r a = elim (Bool-cases (f == id)) [
      | inl e ↦ rw e (record {
        holders = h;
        next_holders = (e, r);
        awake = elim a [
          | inl p ↦ inl p
          | inr q ↦ elim q [ inl p ↦ inr (inl (later p)) | inr p ↦ inr (inr p) ]
        ];
      })
      | inr e ↦ rw e (record { holders = h; next_holders = r; awake = a })
    ]

ready-IsExclusive :
    (id : ℕ) (m : CtMutex) → Among id m.readying → IsExclusive m → IsExclusive (ready id m)
unfolding ready
ready-IsExclusive id m p v = record {
  holders = (All-lookup (λ x. is_front x m.locks ≡ true) id m.readying p v.next_holders, v.holders);
  next_holders = All-without (λ x. is_front x m.locks ≡ true) id m.readying v.next_holders;
  awake = go (front m.locks) v.awake;
}
  where
    go : (f : Option ℕ) → IsAwake f m → IsAwake f (ready id m)
    go none a = tt
    go (some f) a = elim a [
      | inl q ↦ inl (later q)
      | inr r ↦ elim r [
        | inl q ↦ elim (Bool-cases (f == id)) [
          | inl e ↦ inl (subst (λ x. Among f (x ∷ m.holding)) ((==_iff f id).0 e) first)
          | inr e ↦ inr (inl (Among-without id f m.readying e q))
        ]
        | inr q ↦ inr (inr q)
      ]
    ]

IsAwake-notified :
    (id : ℕ) (locks : List ℕ) (m : CtMutex)
    → is_front id locks ≡ true
    → IsAwake
        (front locks)
        (record m { in_flight = take_out id m.in_flight; readying = id ∷ m.readying })
IsAwake-notified id [] m e = tt
IsAwake-notified id (f ∷ rest) m e =
    inr (inl (subst (λ x. Among f (x ∷ m.readying)) ((==_iff f id).0 e) first))

IsAwake-ignored :
    (id : ℕ) (locks : List ℕ) (m : CtMutex)
    → is_front id locks ≡ false
    → IsAwake (front locks) m
    → IsAwake (front locks) (record m { in_flight = take_out id m.in_flight })
IsAwake-ignored id [] m e a = tt
IsAwake-ignored id (f ∷ rest) m e a = elim a [
  | inl p ↦ inl p
  | inr q ↦ elim q [
    | inl p ↦ inr (inl p)
    | inr p ↦
        inr (inr (elim p [ inl s ↦ inl s | inr g ↦ inr (Among-take_out id f m.in_flight e g) ]))
  ]
]

IsAwake-sent :
    (locks sending : List ℕ) (m : CtMutex)
    → m.sending ≡ sending ++ listed (front locks)
    → IsAwake (front locks) m
IsAwake-sent [] sending m e = tt
IsAwake-sent (f ∷ rest) sending m e = inr (inr (inl (rw e (Among-append_right sending first))))

notification-IsExclusive : (id : ℕ) (m : CtMutex) → IsExclusive m → IsExclusive (notification id m)
unfolding notification
notification-IsExclusive id m v = elim (Bool-cases (is_front id m.locks)) [
  | inl e ↦ rw e (record {
    holders = v.holders;
    next_holders = (e, v.next_holders);
    awake = IsAwake-notified id m.locks m e;
  })
  | inr e ↦ rw e (record {
    holders = v.holders;
    next_holders = v.next_holders;
    awake = IsAwake-ignored id m.locks m e v.awake;
  })
]

send_notify-IsExclusive : (id : ℕ) (m : CtMutex) → IsExclusive m → IsExclusive (send_notify id m)
unfolding send_notify
send_notify-IsExclusive id m v = record {
  holders = v.holders;
  next_holders = v.next_holders;
  awake = go (front m.locks) v.awake;
}
  where
    go : (f : Option ℕ) → IsAwake f m → IsAwake f (send_notify id m)
    go none a = tt
    go (some f) (inl p) = inl p
    go (some f) (inr (inl p)) = inr (inl p)
    go (some f) (inr (inr (inr p))) = inr (inr (inr (Among-append_left (id ∷ []) p)))
    go (some f) (inr (inr (inl p))) = elim (Bool-cases (f == id)) [
      | inl e ↦ inr (
          inr (
            inr (
              subst (λ x. Among f (m.in_flight ++ x ∷ [])) ((==_iff f id).0 e)
                (Among-append_right m.in_flight first))))
      | inr e ↦ inr (inr (inl (Among-take_out id f m.sending e p)))
    ]

release_lock-IsExclusive :
    (id : ℕ) (m : CtMutex)
    → without id m.readying ≡ m.readying
    → IsExclusive m
    → IsExclusive (release_lock id m)
unfolding release_lock
release_lock-IsExclusive id m idle v = go m.locks v.holders v.next_holders v.awake
  where
    go :
        (locks : List ℕ)
        → All (λ x. is_front x locks ≡ true) m.holding
        → All (λ x. is_front x locks ≡ true) m.readying
        → IsAwake (front locks) m
        → IsExclusive (release_lock id (record m { locks = locks }))
    go [] h r a = record {
      holders = All-without (λ x. is_front x [] ≡ true) id m.holding h;
      next_holders = r;
      awake = tt;
    }
    go (f ∷ rest) h r a = elim (Bool-cases (f == id)) [
      | inl e ↦
          let none_held = without-front f id rest m.holding e h in
          let none_ready = sym idle ∙ without-front f id rest m.readying e r in
          rw (e, none_held, none_ready)
            (record { holders = tt; next_holders = tt; awake = IsAwake-sent rest m.sending _ refl })
      | inr e ↦ rw e (record {
        holders = All-without (λ x. is_front x (f ∷ rest) ≡ true) id m.holding h;
        next_holders = r;
        awake = elim a [ inl p ↦ inl (Among-without id f m.holding e p) | inr p ↦ inr p ];
      })
    ]

Step-IsExclusive : {m t : CtMutex} → IsExclusive m → Step m t → IsExclusive t
Step-IsExclusive {m} v (adds id e) = rw e (add_lock-IsExclusive id m v)
Step-IsExclusive {m} v (readies id p e) = rw e (ready-IsExclusive id m p v)
Step-IsExclusive {m} v (releases id idle e) = rw e (release_lock-IsExclusive id m idle v)
Step-IsExclusive {m} v (sends id p e) = rw e (send_notify-IsExclusive id m v)
Step-IsExclusive {m} v (notifies id p e) = rw e (notification-IsExclusive id m v)

-- In every interleaving of the threads' steps, whoever has the mutex is the first in the queue, and the
-- first in the queue has the mutex, or is about to be told, or a call to tell it is about to be sent or is on
-- its way: no wakeup is lost.
pub Reach-IsExclusive : {m : CtMutex} → Reach m → IsExclusive m
unfolding create
Reach-IsExclusive start = record { holders = tt; next_holders = tt; awake = tt }
Reach-IsExclusive (next r st) = Step-IsExclusive (Reach-IsExclusive r) st

fronts-eq : (a b : ℕ) (locks : List ℕ) → is_front a locks ≡ true → is_front b locks ≡ true → a ≡ b
fronts-eq a b [] h k = cc
fronts-eq a b (f ∷ rest) h k = ground arith

-- In every interleaving, two acquisitions that have the mutex are the same one.
pub Reach-eq : (a b : ℕ) {m : CtMutex} → Reach m → Among a m.holding → Among b m.holding → a ≡ b
Reach-eq a b {m} r p q =
    let holders = (Reach-IsExclusive r).holders in
    fronts-eq a b m.locks (All-lookup (λ x. is_front x m.locks ≡ true) a m.holding p holders)
      (All-lookup (λ x. is_front x m.locks ≡ true) b m.holding q holders)
