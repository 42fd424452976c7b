-- ===== src/Sync/Time/Periodic.antt =====
-- src/sync/timer.cc: `absolute_time_t::update_periodic`, a loop that adds a period until the time is not
-- before the clock's.
use indecorous.Base.{
  ℕ, zero, suc, ◌+◌, ◌-◌, ◌*◌, ◌/◌, ◌%◌, ◌^◌, ◌≤◌, ◌<◌, ◌≡◌, inl, inr, refl, true, false, Option,
  none, some, Result, ok, ◌>>=◌, arith, Bool-cases, ltb, if◌then◌else◌,
}
use indecorous.Sync.Time.{AbsoluteTime, ℤ, pos, add, is_before}
use indecorous.Sync.Time.Calendar.{instant, IsNormal}

-- `update_periodic`, with at most `fuel` rounds of its loop: `none` is a loop that goes on.
unfoldable pub update_periodic : ℕ → ℤ → AbsoluteTime → AbsoluteTime → Result (Option AbsoluteTime)
update_periodic zero delta_ms now t = ok (if is_before t now then none else some t)
update_periodic (suc fuel) delta_ms now t =
    if is_before t now
    then (do later ← add delta_ms t; update_periodic fuel delta_ms now later)
    else ok (some t)

-- A time whose nanoseconds come to a second at most.
abbrev pub IsUncarried : AbsoluteTime → Type 0
IsUncarried t = t.nsec ≤ 1000000000

add-IsUncarried :
    (ms : ℕ) (t : AbsoluteTime)
    → IsUncarried t
    → t.sec < 2 ^ 63
    → ms < 2 ^ 63
    → (u : AbsoluteTime) × ((add (pos ms) t ≡ ok u)
        × ((instant u ≡ instant t + ms * 1000000) × IsUncarried u))
unfolding add
add-IsUncarried ms t normal early small =
    let nsec = t.nsec + (ms % 1000) * 1000000 in
    elim (Bool-cases (ltb 1000000000 nsec)) [
      | inl over ↦ (
        record { sec = t.sec + ms / 1000 + 1; nsec = nsec - 1000000000 },
        (ground arith, (ground arith, ground arith)),
      )
      | inr under ↦ (
        record { sec = t.sec + ms / 1000; nsec = nsec },
        (ground arith, (ground arith, ground arith)),
      )
    ]

before-le :
    (t now : AbsoluteTime)
    → IsUncarried t
    → is_before t now ≡ true
    → (instant t ≤ instant now) × (t.sec ≤ now.sec)
unfolding is_before
before-le t now u h = (ground arith, ground arith)

not_before-le :
    (t now : AbsoluteTime) → IsNormal now → is_before t now ≡ false → instant now ≤ instant t
unfolding is_before
not_before-le t now u h = ground arith

-- What the loop leaves: a time that is not before `now` and, unless it is the first one, within a period of it.
pub data Caught (ms : ℕ) (now t u : AbsoluteTime) : Type 0 where
  ahead : u ≡ t → instant now ≤ instant u → Caught ms now t u
  caught : instant now ≤ instant u → instant u ≤ instant now + ms * 1000000 → Caught ms now t u

-- For a period of a millisecond or more, the loop of `update_periodic` ends, within the rounds that the
-- distance to `now` allows: it leaves a time that is already ahead, and otherwise gives one that is not
-- before `now` and at most a period behind it.
pub update_periodic-Caught :
    (fuel ms : ℕ) (now t : AbsoluteTime)
    → 0 < ms
    → ms < 2 ^ 63
    → now.sec < 2 ^ 63
    → IsNormal now
    → IsUncarried t
    → instant now < instant t + fuel * (ms * 1000000)
    → (u : AbsoluteTime) × ((update_periodic fuel (pos ms) now t ≡ ok (some u)) × Caught ms now t u)
unfolding update_periodic
update_periodic-Caught zero ms now t some_ms small early normal un enough =
    elim (Bool-cases (is_before t now)) [
      | inl b ↦ absurd (omega (arith, enough, (before-le t now un b).0))
      | inr b ↦ (t, (rw b refl, ahead refl (not_before-le t now normal b)))
    ]
update_periodic-Caught (suc fuel) ms now t some_ms small early normal un enough =
    elim (Bool-cases (is_before t now)) [
      | inl b ↦
          let (le, sec) = before-le t now un b in
          let (later, (e, (moved, un'))) =
            add-IsUncarried ms t un (omega (arith, sec, early)) small in
          let (u, (eq, c)) =
            update_periodic-Caught fuel ms now later some_ms small early normal un'
              (omega (arith, enough, moved)) in
          (u, (rw (b, e) eq, catch later u c moved le))
      | inr b ↦ (t, (rw b refl, ahead refl (not_before-le t now normal b)))
    ]
  where
    catch :
        (later u : AbsoluteTime)
        → Caught ms now later u
        → instant later ≡ instant t + ms * 1000000
        → instant t ≤ instant now
        → Caught ms now t u
    catch later u (ahead e le) moved below = caught le (rw e (omega (arith, moved, below)))
    catch later u (caught le ge) moved below = caught le ge

add-zero : (t : AbsoluteTime) → t.sec < 2 ^ 64 → t.nsec ≤ 1000000000 → add (pos 0) t ≡ ok t
unfolding add
add-zero t h k = ground arith

-- With a period of 0, the loop on a time before `now` never ends, whatever number of rounds it is given.
pub update_periodic-zero :
    (fuel : ℕ) (now t : AbsoluteTime)
    → t.sec < 2 ^ 64
    → IsUncarried t
    → is_before t now ≡ true
    → update_periodic fuel (pos 0) now t ≡ ok none
unfolding update_periodic
update_periodic-zero zero now t h k b = rw b refl
update_periodic-zero (suc fuel) now t h k b =
    rw (b, add-zero t h k) (update_periodic-zero fuel now t h k b)
