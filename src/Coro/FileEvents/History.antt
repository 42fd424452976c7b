-- ===== src/Coro/FileEvents/History.antt =====
-- src/coro/events.cc: the file waits of a thread, in any order of its calls.
use indecorous.Base.{
  at, ℕ, ◌≡◌, refl, ap, ◌∙◌, sym, inl, inr, Bool, true, false, not, Bool-cases, Option,
  Option-cases, none, some, List, [], ◌∷◌, ◌++◌, All-append, ok, err, assertion, undefined, ◌==◌,
  ok-injective, require-eq-ok, subst, if◌then◌else◌, arith,
}
use indecorous.Sync.WaitObject.{Notice, WaitResult}
use indecorous.Coro.FileEvents.{
  Mask, is_zero, Callback, FileInfo, Files, Epoll, listed, insert, create, info_or_new, remove,
  told, outcome, handle_event, notify_all, add_file_wait, remove_file_wait, update_epoll, is_linked,
}
use indecorous.Coro.FileEvents.Synced.{
  AsksSome, IsUnique, IsSynced, wanted, or-false, some-injective, update_epoll-IsSynced,
}

not-true : (b : Bool) → not b ≡ true → b ≡ false
not-true true h = cc
not-true false h = refl

err-ne-ok {ℓ} : {A : Type ℓ} {a : A} → err assertion ≡ ok a → ⊥
err-ne-ok h = cc

listed-snoc :
    (x fd : ℕ) (changes : List ℕ)
    → (fd == x) ≡ false
    → listed x changes ≡ false
    → listed x (changes ++ fd ∷ []) ≡ false
listed-snoc x fd [] apart h = let other : (x == fd) ≡ false = ground (arith, apart) in rw other refl
listed-snoc x fd (y ∷ changes) apart h = elim (Bool-cases (x == y)) [
  | inl b ↦ let bad : true ≡ false = rw b at h in cc
  | inr b ↦ rw b (listed-snoc x fd changes apart (or-false (x == y) (listed x changes) h))
]

IsUnique-snoc :
    (fd : ℕ) (changes : List ℕ)
    → listed fd changes ≡ false
    → IsUnique changes
    → IsUnique (changes ++ fd ∷ [])
IsUnique-snoc fd [] h u = (refl, tt)
IsUnique-snoc fd (y ∷ changes) h u = elim (Bool-cases (fd == y)) [
  | inl b ↦ let bad : true ≡ false = rw b at h in cc
  | inr b ↦ (
    listed-snoc y fd changes b u.0,
    IsUnique-snoc fd changes (or-false (fd == y) (listed fd changes) h) u.1,
  )
]

IsUnique-insert : (fd : ℕ) (changes : List ℕ) → IsUnique changes → IsUnique (insert fd changes)
IsUnique-insert fd changes u = elim (Bool-cases (listed fd changes)) [
  | inl b ↦ rw b u
  | inr b ↦ rw b (IsUnique-snoc fd changes b u)
]

listed-insert :
    (x fd : ℕ) (changes : List ℕ)
    → (fd == x) ≡ false
    → listed x changes ≡ false
    → listed x (insert fd changes) ≡ false
listed-insert x fd changes apart h = elim (Bool-cases (listed fd changes)) [
  | inl b ↦ rw b h
  | inr b ↦ rw b (listed-snoc x fd changes apart h)
]

remove-AsksSome : (id : ℕ) (cbs : List Callback) → AsksSome cbs → AsksSome (remove id cbs)
remove-AsksSome id [] h = tt
remove-AsksSome id (cb ∷ rest) h = elim (Bool-cases (cb.id == id)) [
  | inl b ↦ rw b h.1
  | inr b ↦ rw b (h.0, remove-AsksSome id rest h.1)
]

told-AsksSome :
    (o : Option WaitResult) (cb : Callback) (rest : List Notice × List Callback)
    → is_zero cb.event_mask ≡ false
    → AsksSome rest.1
    → AsksSome (told o cb rest).1
told-AsksSome none cb rest h k = (h, k)
told-AsksSome (some result) cb rest h k = k

notify_all-AsksSome :
    (m : Mask) (cbs : List Callback) → AsksSome cbs → AsksSome (notify_all m cbs).1
unfolding notify_all
notify_all-AsksSome m [] h = tt
notify_all-AsksSome m (cb ∷ rest) h =
    told-AsksSome (outcome m cb) cb (notify_all m rest) h.0 (notify_all-AsksSome m rest h.1)

module _ {K : Type 0} (e : Epoll K) where
  -- The map is written at one descriptor, which keeps what was used last.
  written-IsSynced :
      (fd : ℕ) (info : FileInfo) (changes later : List ℕ) (map : ℕ → Option FileInfo) (k : K)
      → IsSynced e changes map k
      → AsksSome info.callbacks
      → info.last_used_events ≡ (info_or_new (map fd)).last_used_events
      → IsUnique later
      → ((x : ℕ) → (fd == x) ≡ false → listed x changes ≡ false → listed x later ≡ false)
      → IsSynced e later (at fd (some info) map) k
  written-IsSynced fd info changes later map k v asks last unique covers = record {
    masks = λ x i m. elim (Bool-cases (fd == x)) [
      | inl b ↦
          let here : some info ≡ some i = rw b at m in
          subst (λ (j : FileInfo). AsksSome j.callbacks) (some-injective here) asks
      | inr b ↦ let there : map x ≡ some i = rw b at m in v.masks x i there
    ];
    used = λ x i m. elim (Bool-cases (fd == x)) [
      | inl b ↦
          let here : some info ≡ some i = rw b at m in
          let same : fd ≡ x = ground (arith, b) in
          subst
            (λ (j : FileInfo).
              e.interest k x
              ≡ (if is_zero j.last_used_events then none else some j.last_used_events))
            (some-injective here)
            (ap (λ y. e.interest k y) (sym same)
              ∙ old_used
              ∙ ap (λ l. if is_zero l then none else some l) (sym last))
      | inr b ↦ let there : map x ≡ some i = rw b at m in v.used x i there
    ];
    absent = λ x m. elim (Bool-cases (fd == x)) [
      | inl b ↦ let bad : some info ≡ none = rw b at m in cc
      | inr b ↦
          let there : map x ≡ none = rw b at m in
          let (free, out) = v.absent x there in (free, covers x b out)
    ];
    unique = unique;
  }
    where
      old_used : e.interest k fd ≡ (
          if is_zero (info_or_new (map fd)).last_used_events
          then none
          else some (info_or_new (map fd)).last_used_events)
      old_used = elim (Option-cases (map fd)) [
        | inl n ↦ let (free, out) = v.absent fd n in rw n free
        | inr (i, s) ↦ rw s (v.used fd i s)
      ]

  -- The calls of a thread, none of whose descriptors is closed while the map has it
  pub data Reach : Files → K → Type 0 where
    creates : (k : K) → ((fd : ℕ) → e.interest k fd ≡ none) → Reach create k
    adds : (cb : Callback) {f g : Files} {k : K} → Reach f k → add_file_wait cb f ≡ ok g → Reach g k
    removes :
        (cb : Callback) {f g : Files} {k : K} → Reach f k → remove_file_wait cb f ≡ ok g → Reach g k
    handles :
        (fd : ℕ) (event_mask : Mask) (notices : List Notice) {f g : Files} {k : K}
        → Reach f k
        → handle_event fd event_mask f ≡ ok (notices, g)
        → Reach g k
    updates :
        {f g : Files} {k after : K} → Reach f k → update_epoll e f k ≡ ok (g, after) → Reach g after

  or_new-AsksSome :
      (fd : ℕ) (changes : List ℕ) (map : ℕ → Option FileInfo) (k : K)
      → IsSynced e changes map k
      → AsksSome (info_or_new (map fd)).callbacks
  or_new-AsksSome fd changes map k v = elim (Option-cases (map fd)) [
    | inl n ↦ rw n tt
    | inr (info, s) ↦ rw s (v.masks fd info s)
  ]

  adds-IsSynced :
      (cb : Callback) (f g : Files) (k : K)
      → IsSynced e f.epoll_changes f.file_map k
      → add_file_wait cb f ≡ ok g
      → IsSynced e g.epoll_changes g.file_map k
  unfolding add_file_wait
  adds-IsSynced cb f g k v h =
      let info = info_or_new (f.file_map cb.fd) in
      let grown = record info { callbacks = info.callbacks ++ cb ∷ [] } in
      let (some_mask, eq) = require-eq-ok assertion (not (is_zero cb.event_mask)) _ h in
      let asks =
        All-append (λ (c : Callback). is_zero c.event_mask ≡ false) info.callbacks (cb ∷ [])
          (or_new-AsksSome cb.fd f.epoll_changes f.file_map k v)
          (not-true (is_zero cb.event_mask) some_mask, tt) in
      subst (λ (x : Files). IsSynced e x.epoll_changes x.file_map k) (ok-injective eq)
        (written-IsSynced cb.fd grown f.epoll_changes (insert cb.fd f.epoll_changes) f.file_map k v
          asks refl (IsUnique-insert cb.fd f.epoll_changes v.unique)
          (λ x apart out. listed-insert x cb.fd f.epoll_changes apart out))

  removed-is_linked :
      (cb : Callback) (info : FileInfo) (f g : Files)
      → f.file_map cb.fd ≡ some info
      → remove_file_wait cb f ≡ ok g
      → is_linked cb.id info.callbacks ≡ true
  unfolding remove_file_wait
  removed-is_linked cb info f g s h = elim (Bool-cases (is_linked cb.id info.callbacks)) [
    | inl b ↦ b
    | inr b ↦ let bad : err undefined ≡ ok g = rw (s, b) at h in cc
  ]

  removes-IsSynced :
      (cb : Callback) (f g : Files) (k : K)
      → IsSynced e f.epoll_changes f.file_map k
      → remove_file_wait cb f ≡ ok g
      → IsSynced e g.epoll_changes g.file_map k
  unfolding remove_file_wait
  removes-IsSynced cb f g k v h = elim (Option-cases (f.file_map cb.fd)) [
    | inl n ↦ let bad : err assertion ≡ ok g = rw n at h in cc
    | inr (info, s) ↦
        let shrunk = record info { callbacks = remove cb.id info.callbacks } in
        let later : Files = record {
          epoll_changes = insert cb.fd f.epoll_changes;
          file_map = at cb.fd (some shrunk) f.file_map;
        } in
        let linked = removed-is_linked cb info f g s h in
        let eq : ok later ≡ ok g = rw (s, linked) at h in
        subst (λ (x : Files). IsSynced e x.epoll_changes x.file_map k) (ok-injective eq)
          (written-IsSynced cb.fd shrunk f.epoll_changes (insert cb.fd f.epoll_changes) f.file_map k
            v (remove-AsksSome cb.id info.callbacks (v.masks cb.fd info s)) (rw s refl)
            (IsUnique-insert cb.fd f.epoll_changes v.unique)
            (λ x apart out. listed-insert x cb.fd f.epoll_changes apart out))
  ]

  handles-IsSynced :
      (fd : ℕ) (event_mask : Mask) (notices : List Notice) (f g : Files) (k : K)
      → IsSynced e f.epoll_changes f.file_map k
      → handle_event fd event_mask f ≡ ok (notices, g)
      → IsSynced e g.epoll_changes g.file_map k
  unfolding handle_event
  handles-IsSynced fd event_mask notices f g k v h = elim (Option-cases (f.file_map fd)) [
    | inl n ↦ let bad : err assertion ≡ ok (notices, g) = rw n at h in absurd (err-ne-ok bad)
    | inr (info, s) ↦
        let left = record info { callbacks = (notify_all event_mask info.callbacks).1 } in
        let later = record f { file_map = at fd (some left) f.file_map } in
        let eq : ok ((notify_all event_mask info.callbacks).0, later) ≡ ok (notices, g) =
          rw s at h in
        subst (λ (x : Files). IsSynced e x.epoll_changes x.file_map k)
          (ap (λ p. p.1) (ok-injective eq))
          (written-IsSynced fd left f.epoll_changes f.epoll_changes f.file_map k v
            (notify_all-AsksSome event_mask info.callbacks (v.masks fd info s)) (rw s refl) v.unique
            (λ x apart out. out))
  ]

  updates-IsSynced :
      (f g : Files) (k after : K)
      → IsSynced e f.epoll_changes f.file_map k
      → update_epoll e f k ≡ ok (g, after)
      → IsSynced e g.epoll_changes g.file_map after
  updates-IsSynced f g k after v h =
      let (g', (after', (eq, (w, asks)))) = update_epoll-IsSynced e f k v in
      subst (λ (p : Files × K). IsSynced e p.0.epoll_changes p.0.file_map p.1)
        (ok-injective (sym eq ∙ h)) w

  Reach-IsSynced : {f : Files} {k : K} → Reach f k → IsSynced e f.epoll_changes f.file_map k
  unfolding create
  Reach-IsSynced (creates k free) = record {
    masks = λ fd info h. cc;
    used = λ fd info h. cc;
    absent = λ fd h. (free fd, refl);
    unique = tt;
  }
  Reach-IsSynced (adds cb {f} {g} {k} r h) = adds-IsSynced cb f g k (Reach-IsSynced r) h
  Reach-IsSynced (removes cb {f} {g} {k} r h) = removes-IsSynced cb f g k (Reach-IsSynced r) h
  Reach-IsSynced (handles fd m notices {f} {g} {k} r h) =
      handles-IsSynced fd m notices f g k (Reach-IsSynced r) h
  Reach-IsSynced (updates {f} {g} {k} {after} r h) =
      updates-IsSynced f g k after (Reach-IsSynced r) h

  -- Whatever waits have been added, removed and served before, and in whatever order, as long as no
  -- descriptor that the map has is closed: `update_epoll` ends well, and the epoll set then asks, for each
  -- descriptor that was changed, for just what its callbacks ask for, all together, and for nothing if it
  -- has none; for the other descriptors it asks what it asked before.
  pub Reach-update_epoll :
      (f : Files) (k : K)
      → Reach f k
      → (g : Files) × ((after : K) × ((update_epoll e f k ≡ ok (g, after))
            × ((fd : ℕ)
                → e.interest after fd ≡ (
                    if listed fd f.epoll_changes
                    then wanted (f.file_map fd)
                    else e.interest k fd))))
  Reach-update_epoll f k r =
      let (g, (after, (eq, (w, asks)))) = update_epoll-IsSynced e f k (Reach-IsSynced r) in
      (g, (after, (eq, asks)))
