-- ===== src/Sync/Semaphore/Lookup.antt =====
-- Acquisitions in an intrusive list of src/sync/semaphore.cc, found by their address.
use indecorous.Base.{
  refl, ◌≢◌, none, ◌++◌, refl, ◌≢◌, true, ℕ, ◌+◌, ◌≡◌, Bool, Option, none, some, List, [], ◌∷◌,
  ◌++◌, ◌==◌, if◌then◌else◌, All, subst, Bool-cases, inl, inr, arith,
}

-- `semaphore_acq_t`: its address, `m_owned`, `m_pending`, whether `m_parent` is set, and its waiters.
pub record Acq : Type 0 where
  pub id : ℕ
  pub owned : ℕ
  pub pending : ℕ
  pub attached : Bool
  pub waiters : List ℕ

unfoldable pub find : ℕ → List Acq → Option Acq
find id [] = none
find id (a ∷ xs) = if a.id == id then some a else find id xs

unfoldable pub erase : ℕ → List Acq → List Acq
erase id [] = []
erase id (a ∷ xs) = if a.id == id then xs else a ∷ erase id xs

-- Writing through the pointer: the entry with this address.
unfoldable pub replace : Acq → List Acq → List Acq
replace b [] = []
replace b (a ∷ xs) = if a.id == b.id then b ∷ xs else a ∷ replace b xs

-- What an acquisition holds of its semaphore: nothing once it is detached.
abbrev pub held : Acq → ℕ
held a = if a.attached then a.owned else 0

pub held-attached : (a : Acq) → a.attached ≡ true → held a ≡ a.owned
held-attached a h = rw h

abbrev pub total_held : List Acq → ℕ
total_held [] = 0
total_held (a ∷ xs) = held a + total_held xs

pub total_held-append : (xs bs : List Acq) → total_held (xs ++ bs) ≡ total_held xs + total_held bs
total_held-append [] bs = omega arith
total_held-append (a ∷ xs) bs = omega (arith, total_held-append xs bs)

pub total_held-erase :
    (id : ℕ) (xs : List Acq) (a : Acq)
    → find id xs ≡ some a
    → total_held xs ≡ held a + total_held (erase id xs)
unfolding find erase
total_held-erase id [] a e = cc
total_held-erase id (b ∷ bs) a e = ground (arith, total_held-erase id bs a)

pub total_held-replace :
    (id : ℕ) (xs : List Acq) (a b : Acq)
    → b.id ≡ id
    → find id xs ≡ some a
    → total_held (replace b xs) + held a ≡ total_held xs + held b
unfolding find replace
total_held-replace id [] a b h e = cc
total_held-replace id (c ∷ cs) a b h e = ground (arith, total_held-replace id cs a b)

pub find-id : (id : ℕ) (xs : List Acq) (a : Acq) → find id xs ≡ some a → a.id ≡ id
unfolding find
find-id id [] a e = cc
find-id id (b ∷ bs) a e = ground (arith, find-id id bs a)

module _ {κ} (P : Acq → Type κ) where
  pub All-find : (id : ℕ) (xs : List Acq) (a : Acq) → find id xs ≡ some a → All P xs → P a
  unfolding find
  All-find id [] a e h = cc
  All-find id (b ∷ bs) a e h = elim (Bool-cases (b.id == id)) [
    | inl hit ↦ let q : b ≡ a = ground arith in subst P q h.0
    | inr miss ↦ All-find id bs a (rw miss at e) h.1
  ]

  pub All-erase : (id : ℕ) (xs : List Acq) → All P xs → All P (erase id xs)
  unfolding erase
  All-erase id [] h = tt
  All-erase id (b ∷ bs) h = elim (Bool-cases (b.id == id)) [
    | inl hit ↦ rw hit h.1
    | inr miss ↦ rw miss (h.0, All-erase id bs h.1)
  ]

  pub All-replace : (xs : List Acq) (b : Acq) → P b → All P xs → All P (replace b xs)
  unfolding replace
  All-replace [] b p h = tt
  All-replace (c ∷ cs) b p h = elim (Bool-cases (c.id == b.id)) [
    | inl hit ↦ rw hit (p, h.1)
    | inr miss ↦ rw miss (h.0, All-replace cs b p h.1)
  ]

pub find-replace_ne :
    (id : ℕ) (xs : List Acq) (b : Acq) → b.id ≢ id → find id (replace b xs) ≡ find id xs
unfolding find replace
find-replace_ne id [] b h = refl
find-replace_ne id (c ∷ cs) b h = ground (arith, find-replace_ne id cs b h)

-- The entry that was written is the entry that is found.
pub find-replace_self :
    (id : ℕ) (xs : List Acq) (a b : Acq)
    → b.id ≡ id
    → find id xs ≡ some a
    → find id (replace b xs) ≡ some b
unfolding find replace
find-replace_self id [] a b h e = cc
find-replace_self id (c ∷ cs) a b h e = ground (arith, find-replace_self id cs a b h)

pub find-snoc :
    (id : ℕ) (xs : List Acq) (a : Acq)
    → find id xs ≡ none
    → a.id ≡ id
    → find id (xs ++ a ∷ []) ≡ some a
unfolding find
find-snoc id [] a h e = ground arith
find-snoc id (c ∷ cs) a h e = ground (arith, find-snoc id cs a)
