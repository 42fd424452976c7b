-- ===== src/Sync/Time.antt =====
-- src/sync/timer.hpp and timer.cc: `absolute_time_t`.
pub mod Calendar
pub mod Periodic
use indecorous.Base.{
  ℕ, zero, suc, ◌+◌, ◌-◌, ◌*◌, ◌/◌, ◌%◌, ◌^◌, Bool, true, false, Result, ok, assert, ◌>>=◌, ◌>>◌,
  leb, ltb, ◌==◌, if◌then◌else◌,
}

infixl 20 ◌⊖◌ ◌+ℤ◌
-- Signed numbers, over the native natural numbers: `negsuc n` is -(n + 1).
pub data ℤ : Type 0 where
  pos negsuc : ℕ → ℤ

abbrev pub neg : ℕ → ℤ
neg zero = pos 0
neg (suc n) = negsuc n

-- `m - n`
abbrev pub ◌⊖◌ : ℕ → ℕ → ℤ
m ⊖ n = if leb n m then pos (m - n) else negsuc (n - m - 1)

abbrev pub ◌+ℤ◌ : ℤ → ℤ → ℤ
pos m +ℤ pos n = pos (m + n)
pos m +ℤ negsuc n = m ⊖ (n + 1)
negsuc m +ℤ pos n = n ⊖ (m + 1)
negsuc m +ℤ negsuc n = negsuc (m + n + 1)

-- Multiplication, division and remainder by a positive number; the last two round towards zero.
abbrev pub times : ℤ → ℕ → ℤ
times (pos m) k = pos (m * k)
times (negsuc m) k = neg ((m + 1) * k)

abbrev pub quotient : ℤ → ℕ → ℤ
quotient (pos m) k = pos (m / k)
quotient (negsuc m) k = neg ((m + 1) / k)

abbrev pub remainder : ℤ → ℕ → ℤ
remainder (pos m) k = pos (m % k)
remainder (negsuc m) k = neg ((m + 1) % k)

abbrev pub word : ℕ
word = 2 ^ 64

-- A signed number as a `uint64_t`, and back as an `int64_t`.
abbrev pub as_uint64 : ℤ → ℕ
as_uint64 (pos n) = n % word
as_uint64 (negsuc n) = word - 1 - n % word

abbrev pub as_int64 : ℕ → ℤ
as_int64 n = if ltb n (2 ^ 63) then pos n else negsuc (word - n - 1)

abbrev pub is_positive : ℤ → Bool
is_positive (pos n) = ltb 0 n
is_positive (negsuc n) = false

-- `absolute_time_t`
pub record AbsoluteTime : Type 0 where
  pub sec : ℕ
  pub nsec : ℕ

-- `absolute_time_t::add`
unfoldable pub add : ℤ → AbsoluteTime → Result AbsoluteTime
add delta_ms t =
    let sec = (t.sec + as_uint64 (quotient delta_ms 1000)) % word in
    let nsec = (t.nsec + as_uint64 (times (remainder delta_ms 1000) 1000000)) % word in
    if ltb 1000000000 nsec
    then (do
      assert (ltb (nsec - 1000000000) 1000000000)
      ok (record { sec = (sec + 1) % word; nsec = nsec - 1000000000 }))
    else ok (record { sec = sec; nsec = nsec })

-- `a - b` on `uint64_t`, read as an `int64_t`.
abbrev pub difference : ℕ → ℕ → ℤ
difference a b = as_int64 ((a + (word - b)) % word)

-- `absolute_time_t::ms_diff`. The signed sums are those of numbers without a bound: they are below
-- 2 ^ 63 while the seconds are below 2 ^ 53.
unfoldable pub ms_diff : AbsoluteTime → AbsoluteTime → ℤ
ms_diff a b =
    let s_diff = difference a.sec b.sec in
    let ns_diff = difference a.nsec b.nsec in
    (times s_diff 1000 +ℤ quotient ns_diff 1000000)
    +ℤ (if is_positive (remainder ns_diff 1000000) then pos 1 else pos 0)

-- `absolute_time_t::operator <`
unfoldable pub is_before : AbsoluteTime → AbsoluteTime → Bool
is_before a b =
    if ltb a.sec b.sec then true else if a.sec == b.sec then ltb a.nsec b.nsec else false
