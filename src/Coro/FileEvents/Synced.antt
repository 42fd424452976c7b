-- ===== src/Coro/FileEvents/Synced.antt =====
-- src/coro/events.cc: `update_epoll` brings the epoll set to the callbacks.
use indecorous.Base.{
  at, ℕ, ◌≡◌, refl, ap, ◌∙◌, sym, inl, inr, Bool, true, false, not, ◌||◌, Bool-cases, Option,
  Option-cases, none, some, List, [], ◌∷◌, All, ok, subst, ◌==◌, ==_refl, if◌then◌else◌, arith,
}
use indecorous.Coro.FileEvents.{
  Mask, no_events, join, is_zero, Callback, FileInfo, Files, add, modify, delete, Epoll, listed,
  all_masks, is_empty, update_file, update_all, update_epoll,
}

-- What the callbacks ask for
unfoldable pub union : List Callback → Mask
union [] = no_events
union (cb ∷ rest) = join cb.event_mask (union rest)

abbrev pub AsksSome : List Callback → Type 0
AsksSome callbacks = All (λ (cb : Callback). is_zero cb.event_mask ≡ false) callbacks

abbrev pub wanted : Option FileInfo → Option Mask
wanted none = none
wanted (some info) = if is_empty info.callbacks then none else some (union info.callbacks)

abbrev pub IsUnique : List ℕ → Type 0
IsUnique [] = Unit
IsUnique (x ∷ xs) = (listed x xs ≡ false) × IsUnique xs

medial : (a b c d : Bool) → ((a || b) || (c || d)) ≡ ((a || c) || (b || d))
medial true b c d = refl
medial false true true d = refl
medial false true false d = refl
medial false false true d = refl
medial false false false d = refl

some_bit : Mask → Bool
some_bit a =
    a.epoll_in || (a.epoll_pri || (a.epoll_out || (a.epoll_err || (a.epoll_hup || a.epoll_rdhup))))

some_bit-join : (a b : Mask) → some_bit (join a b) ≡ (some_bit a || some_bit b)
unfolding some_bit
some_bit-join a b =
    let five = medial a.epoll_hup b.epoll_hup a.epoll_rdhup b.epoll_rdhup in
    let four =
      ap (λ r. (a.epoll_err || b.epoll_err) || r) five ∙ medial a.epoll_err b.epoll_err _ _ in
    let three =
      ap (λ r. (a.epoll_out || b.epoll_out) || r) four ∙ medial a.epoll_out b.epoll_out _ _ in
    let two =
      ap (λ r. (a.epoll_pri || b.epoll_pri) || r) three ∙ medial a.epoll_pri b.epoll_pri _ _ in
    ap (λ r. (a.epoll_in || b.epoll_in) || r) two ∙ medial a.epoll_in b.epoll_in _ _

not-false : (b : Bool) → not b ≡ false → b ≡ true
not-false true h = refl
not-false false h = cc

pub or-false : (a b : Bool) → (a || b) ≡ false → b ≡ false
or-false true b h = cc
or-false false b h = h

pub some-injective {ℓ} : {A : Type ℓ} {a b : A} → some a ≡ some b → a ≡ b
some-injective h = cc

-- A mask that is not zero makes the union not zero.
pub is_zero-join : (a b : Mask) → is_zero a ≡ false → is_zero (join a b) ≡ false
unfolding some_bit
is_zero-join a b h =
    let asks : some_bit a ≡ true = not-false (some_bit a) h in
    ap not (some_bit-join a b ∙ ap (λ s. s || some_bit b) asks)

is_zero-union : (cbs : List Callback) → AsksSome cbs → is_zero (union cbs) ≡ is_empty cbs
unfolding union
is_zero-union [] h = refl
is_zero-union (cb ∷ rest) h = is_zero-join cb.event_mask (union rest) h.0

all_masks-eq : (cbs : List Callback) → AsksSome cbs → all_masks cbs ≡ ok (union cbs)
unfolding all_masks union
all_masks-eq [] h = refl
all_masks-eq (cb ∷ rest) h = rw (h.0, all_masks-eq rest h.1) refl

module _ {K : Type 0} (e : Epoll K) where
  -- The epoll set and the map agree on what was used last; `todo` are the descriptors that are still to be
  -- brought up to date.
  pub record IsSynced (todo : List ℕ) (map : ℕ → Option FileInfo) (k : K) : Type 0 where
    pub masks : (fd : ℕ) (info : FileInfo) → map fd ≡ some info → AsksSome info.callbacks
    pub used :
        (fd : ℕ) (info : FileInfo)
        → map fd ≡ some info
        → e.interest k fd
          ≡ (if is_zero info.last_used_events then none else some info.last_used_events)
    pub absent : (fd : ℕ) → map fd ≡ none → (e.interest k fd ≡ none) × (listed fd todo ≡ false)
    pub unique : IsUnique todo

  -- What an update of one descriptor leads to
  abbrev pub new_info : FileInfo → Option FileInfo
  new_info info =
      if is_empty info.callbacks
      then none
      else some (record info { last_used_events = union info.callbacks })

  pub record Updated (fd : ℕ) (info : FileInfo) (f g : Files) (k after : K) : Type 0 where
    pub changed : g.file_map ≡ at fd (new_info info) f.file_map
    pub same_changes : g.epoll_changes ≡ f.epoll_changes
    pub asked : e.interest after fd ≡ wanted (some info)
    pub others : (x : ℕ) → (fd == x) ≡ false → e.interest after x ≡ e.interest k x

  update_file-Updated :
      (fd : ℕ) (info : FileInfo) (todo : List ℕ) (f : Files) (k : K)
      → IsSynced todo f.file_map k
      → f.file_map fd ≡ some info
      → (g : Files) × ((after : K) × ((update_file e fd f k ≡ ok (g, after))
            × Updated fd info f g k after))
  unfolding update_file
  update_file-Updated fd info todo f k v h =
      let asks = v.masks fd info h in
      let union_ = union info.callbacks in
      elim (Bool-cases (is_empty info.callbacks)) [
        | inl empty ↦
            let zero_ = is_zero-union info.callbacks asks ∙ empty in
            let (gone, interest) = e.ctl-delete fd union_ k in
            (
              record f { file_map = at fd none f.file_map },
              (
                (e.epoll_ctl delete fd union_ k).1,
                (
                  rw (h, all_masks-eq info.callbacks asks, zero_, empty, gone) refl,
                  record {
                    changed = rw empty refl;
                    same_changes = refl;
                    asked = rw empty interest;
                    others = λ x apart. e.ctl-other delete fd x union_ k apart;
                  },
                ),
              ),
            )
        | inr full ↦
            let zero_ = is_zero-union info.callbacks asks ∙ full in
            elim (Bool-cases (is_zero info.last_used_events)) [
              | inl new ↦
                  let free = v.used fd info h ∙ rw new refl in
                  let (done, interest) = e.ctl-add fd union_ k free in
                  (
                    record f {
                      file_map =
                          at fd (some (record info { last_used_events = union_ })) f.file_map;
                    },
                    (
                      (e.epoll_ctl add fd union_ k).1,
                      (
                        rw (h, all_masks-eq info.callbacks asks, zero_, new, done) refl,
                        record {
                          changed = rw full refl;
                          same_changes = refl;
                          asked = rw full interest;
                          others = λ x apart. e.ctl-other add fd x union_ k apart;
                        },
                      ),
                    ),
                  )
              | inr old ↦
                  let known = v.used fd info h ∙ rw old refl in
                  let (done, interest) = e.ctl-modify fd union_ info.last_used_events k known in
                  (
                    record f {
                      file_map =
                          at fd (some (record info { last_used_events = union_ })) f.file_map;
                    },
                    (
                      (e.epoll_ctl modify fd union_ k).1,
                      (
                        rw (h, all_masks-eq info.callbacks asks, zero_, old, done) refl,
                        record {
                          changed = rw full refl;
                          same_changes = refl;
                          asked = rw full interest;
                          others = λ x apart. e.ctl-other modify fd x union_ k apart;
                        },
                      ),
                    ),
                  )
            ]
      ]

  new_info-some :
      (info i : FileInfo)
      → new_info info ≡ some i
      → (record info { last_used_events = union info.callbacks } ≡ i)
        × (is_empty info.callbacks ≡ false)
  new_info-some info i h = elim (Bool-cases (is_empty info.callbacks)) [
    | inl empty ↦
        let gone : new_info info ≡ none = rw empty refl in
        let bad : none ≡ some i = sym gone ∙ h in cc
    | inr full ↦
        let kept : new_info info ≡ some (record info { last_used_events = union info.callbacks }) =
          rw full refl in
        (some-injective (sym kept ∙ h), full)
  ]

  new_info-none : (info : FileInfo) → new_info info ≡ none → is_empty info.callbacks ≡ true
  new_info-none info h = elim (Bool-cases (is_empty info.callbacks)) [
    | inl empty ↦ empty
    | inr full ↦
        let kept : new_info info ≡ some (record info { last_used_events = union info.callbacks }) =
          rw full refl in
        let bad : some (record info { last_used_events = union info.callbacks }) ≡ none =
          sym kept ∙ h in
        cc
  ]

  module _ (fd : ℕ) (info : FileInfo) (rest : List ℕ) (f g : Files) (k after : K)
      (v : IsSynced (fd ∷ rest) f.file_map k) (h : f.file_map fd ≡ some info)
      (u : Updated fd info f g k after) where
    here_used :
        (i : FileInfo)
        → new_info info ≡ some i
        → e.interest after fd
          ≡ (if is_zero i.last_used_events then none else some i.last_used_events)
    here_used i n =
        let (same, full) = new_info-some info i n in
        let zero_ = is_zero-union info.callbacks (v.masks fd info h) ∙ full in
        subst
          (λ (j : FileInfo).
            e.interest after fd
            ≡ (if is_zero j.last_used_events then none else some j.last_used_events))
          same (u.asked ∙ rw (full, zero_) refl)

    updated-IsSynced : IsSynced rest (at fd (new_info info) f.file_map) after
    updated-IsSynced = record {
      masks = λ x i m. elim (Bool-cases (fd == x)) [
        | inl b ↦
            let here : new_info info ≡ some i = rw b at m in
            let (same, full) = new_info-some info i here in
            subst (λ (j : FileInfo). AsksSome j.callbacks) same (v.masks fd info h)
        | inr b ↦ let there : f.file_map x ≡ some i = rw b at m in v.masks x i there
      ];
      used = λ x i m. elim (Bool-cases (fd == x)) [
        | inl b ↦
            let here : new_info info ≡ some i = rw b at m in
            let same : fd ≡ x = ground (arith, b) in
            ap (λ y. e.interest after y) (sym same) ∙ here_used i here
        | inr b ↦ let there : f.file_map x ≡ some i = rw b at m in u.others x b ∙ v.used x i there
      ];
      absent = λ x m. elim (Bool-cases (fd == x)) [
        | inl b ↦
            let here : new_info info ≡ none = rw b at m in
            let same : fd ≡ x = ground (arith, b) in
            let empty = new_info-none info here in
            (
              ap (λ y. e.interest after y) (sym same) ∙ u.asked ∙ rw empty refl,
              subst (λ y. listed y rest ≡ false) same v.unique.0,
            )
        | inr b ↦
            let there : f.file_map x ≡ none = rw b at m in
            let (free, out) = v.absent x there in
            (u.others x b ∙ free, or-false (x == fd) (listed x rest) out)
      ];
      unique = v.unique.1;
    }

    asked-step :
        (x : ℕ)
        → (if listed x rest then wanted (g.file_map x) else e.interest after x)
          ≡ (if listed x (fd ∷ rest) then wanted (f.file_map x) else e.interest k x)
    asked-step x = elim (Bool-cases (x == fd)) [
      | inl b ↦
          let same : fd ≡ x = ground (arith, b) in
          let out : listed x rest ≡ false = subst (λ y. listed y rest ≡ false) same v.unique.0 in
          let now : e.interest after x ≡ wanted (f.file_map x) =
            ap (λ y. e.interest after y) (sym same)
            ∙ u.asked
            ∙ ap wanted (sym h ∙ ap f.file_map same) in
          rw (out, b) now
      | inr b ↦
          let apart : (fd == x) ≡ false = ground (arith, b) in
          let kept : g.file_map x ≡ f.file_map x = ap (λ m. m x) u.changed ∙ rw apart refl in
          rw (b, kept, u.others x apart) refl
    ]

  -- The rounds of `update_epoll`
  update_all-IsSynced :
      (todo : List ℕ) (f : Files) (k : K)
      → IsSynced todo f.file_map k
      → (g : Files) × ((after : K) × ((update_all e todo f k ≡ ok (g, after))
            × (IsSynced [] g.file_map after
                × ((fd : ℕ)
                    → e.interest after fd
                      ≡ (if listed fd todo then wanted (f.file_map fd) else e.interest k fd)))))
  unfolding update_all
  update_all-IsSynced [] f k v = (f, (k, (refl, (v, λ fd. refl))))
  update_all-IsSynced (fd ∷ rest) f k v = elim (Option-cases (f.file_map fd)) [
    | inl none_there ↦
        let (free, out) = v.absent fd none_there in
        let bad : true ≡ false = sym (rw (==_refl fd) refl) ∙ out in cc
    | inr (info, h) ↦
        let (g, (after, (eq, u))) = update_file-Updated fd info (fd ∷ rest) f k v h in
        let w =
          subst (λ m. IsSynced rest m after) (sym u.changed)
            (updated-IsSynced fd info rest f g k after v h u) in
        let (last, (k', (eq', (s, asks)))) = update_all-IsSynced rest g after w in
        (
          last,
          (k', (rw (eq, eq') refl, (s, λ x. asks x ∙ asked-step fd info rest f g k after v h u x))),
        )
  ]

  -- Where the set and the map agree on what was used last, `update_epoll` ends well: no assertion and no
  -- GUARANTEE fails. The set then asks, for each descriptor that was changed, for just what its callbacks
  -- ask for, all together, and for nothing if it has none; the other descriptors are as before.
  pub update_epoll-IsSynced :
      (f : Files) (k : K)
      → IsSynced f.epoll_changes f.file_map k
      → (g : Files) × ((after : K) × ((update_epoll e f k ≡ ok (g, after))
            × (IsSynced g.epoll_changes g.file_map after
                × ((fd : ℕ)
                    → e.interest after fd ≡ (
                        if listed fd f.epoll_changes
                        then wanted (f.file_map fd)
                        else e.interest k fd)))))
  unfolding update_epoll
  update_epoll-IsSynced f k v =
      let (g, (after, (eq, (s, asks)))) = update_all-IsSynced f.epoll_changes f k v in
      (record g { epoll_changes = [] }, (after, (rw eq refl, (s, asks))))
