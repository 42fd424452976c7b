-- ===== src/Sync/Time/Calendar.antt =====
-- src/sync/timer.cc: what the arithmetic on times means in nanoseconds.
use indecorous.Base.{
  ℕ, zero, suc, ◌+◌, ◌-◌, ◌*◌, ◌/◌, ◌%◌, ◌^◌, ◌≤◌, ◌<◌, ◌≡◌, inl, inr, refl, false, ok, arith,
  Bool-cases, ltb, leb, if◌then◌else◌,
}
use indecorous.Sync.Time.{
  AbsoluteTime, pos, negsuc, add, ms_diff, is_before, difference, ◌+ℤ◌, neg, is_positive,
}

-- The time in nanoseconds.
abbrev pub instant : AbsoluteTime → ℕ
instant t = t.sec * 1000000000 + t.nsec

abbrev pub IsNormal : AbsoluteTime → Type 0
IsNormal t = t.nsec < 1000000000

-- Adding milliseconds to a time below 2 ^ 63 seconds, fewer than 2 ^ 63 of them, moves it by just these,
-- and leaves at most a second of nanoseconds.
pub add-instant :
    (ms : ℕ) (t : AbsoluteTime)
    → IsNormal t
    → t.sec < 2 ^ 63
    → ms < 2 ^ 63
    → (u : AbsoluteTime) × (add (pos ms) t ≡ ok u)
      × (instant u ≡ instant t + ms * 1000000)
      × (u.nsec ≤ 1000000000)
unfolding add
add-instant ms t normal early small =
    let nsec = t.nsec + (ms % 1000) * 1000000 in
    elim (Bool-cases (ltb 1000000000 nsec)) [
      | inl over ↦ (
        record { sec = t.sec + ms / 1000 + 1; nsec = nsec - 1000000000 },
        ground arith,
        ground arith,
        ground arith,
      )
      | inr under ↦ (
        record { sec = t.sec + ms / 1000; nsec = nsec },
        ground arith,
        ground arith,
        ground arith,
      )
    ]

-- Where the nanoseconds come to just a second, they are not carried over.
pub add_uncarried :
    (ms : ℕ) (t : AbsoluteTime)
    → t.sec < 2 ^ 63
    → ms < 2 ^ 63
    → t.nsec + (ms % 1000) * 1000000 ≡ 1000000000
    → add (pos ms) t ≡ ok (record { sec = t.sec + ms / 1000; nsec = 1000000000 })
unfolding add
add_uncarried ms t early small full = ground arith

-- `difference` of numbers below 2 ^ 63 is their difference.
difference-ge : (a b : ℕ) → a < 2 ^ 63 → b ≤ a → difference a b ≡ pos (a - b)
difference-ge a b h k = ground arith

difference-lt : (a b : ℕ) → b < 2 ^ 63 → a < b → difference a b ≡ negsuc (b - a - 1)
difference-lt a b h k = ground arith

is_positive-neg : (k : ℕ) → is_positive (neg k) ≡ false
is_positive-neg zero = refl
is_positive-neg (suc k) = refl

pos-plus-neg : (m k : ℕ) → k ≤ m → pos m +ℤ neg k ≡ pos (m - k)
pos-plus-neg m zero h = ground arith
pos-plus-neg m (suc k) h = ground arith

-- The difference of times, by the seconds and the nanoseconds between them.
ms_diff-up :
    (a b : AbsoluteTime)
    → a.sec < 2 ^ 53
    → b.sec ≤ a.sec
    → a.nsec < 2 ^ 53
    → b.nsec ≤ a.nsec
    → ms_diff a b
      ≡ pos (
          (a.sec - b.sec) * 1000
          + (a.nsec - b.nsec) / 1000000
          + (if ltb 0 ((a.nsec - b.nsec) % 1000000) then 1 else 0))
unfolding ms_diff
ms_diff-up a b h k h' k' =
    rw (difference-ge a.sec b.sec (omega arith) k, difference-ge a.nsec b.nsec (omega arith) k')
      (ground arith)

ms_diff-down :
    (a b : AbsoluteTime)
    → a.sec < 2 ^ 53
    → b.sec ≤ a.sec
    → b.nsec < 2 ^ 53
    → a.nsec < b.nsec
    → (b.nsec - a.nsec) / 1000000 ≤ (a.sec - b.sec) * 1000
    → ms_diff a b ≡ pos ((a.sec - b.sec) * 1000 - (b.nsec - a.nsec) / 1000000)
unfolding ms_diff
ms_diff-down a b h k h' k' enough =
    let one : (b.nsec - a.nsec - 1) + 1 ≡ b.nsec - a.nsec = omega arith in
    rw
      (
        difference-ge a.sec b.sec (omega arith) k,
        difference-lt a.nsec b.nsec (omega arith) k',
        one,
        is_positive-neg ((b.nsec - a.nsec) % 1000000),
        pos-plus-neg ((a.sec - b.sec) * 1000) ((b.nsec - a.nsec) / 1000000) enough,
      )
      (ground arith)

-- From a time to one that is not earlier: the milliseconds between them, rounded up.
pub ms_diff_later :
    (a b : AbsoluteTime)
    → IsNormal a
    → IsNormal b
    → a.sec < 2 ^ 53
    → instant b ≤ instant a
    → (ms : ℕ) × (ms_diff a b ≡ pos ms)
      × (instant a ≤ instant b + ms * 1000000)
      × (instant b + ms * 1000000 < instant a + 1000000)
ms_diff_later a b ha hb early later = elim (Bool-cases (leb b.nsec a.nsec)) [
  | inl ge ↦ (
    (a.sec - b.sec) * 1000
        + (a.nsec - b.nsec) / 1000000
        + (if ltb 0 ((a.nsec - b.nsec) % 1000000) then 1 else 0),
    ms_diff-up a b early (ground arith) (omega arith) (ground arith),
    ground arith,
    ground arith,
  )
  | inr lt ↦ (
    (a.sec - b.sec) * 1000 - (b.nsec - a.nsec) / 1000000,
    ms_diff-down a b early (ground arith) (omega arith) (ground arith) (ground arith),
    ground arith,
    ground arith,
  )
]

-- `<` on normal times is the order of the instants.
pub is_before-instant :
    (a b : AbsoluteTime) → IsNormal a → IsNormal b → is_before a b ≡ ltb (instant a) (instant b)
unfolding is_before
is_before-instant a b ha hb = ground arith
