-- ===== src/Tests/Streams.antt =====
-- Files and connections, of src/io/file.cc and tcp.cc, at concrete inputs.
use indecorous.Base.{
  ℕ, zero, suc, ◌+◌, ◌≡◌, ◌≤◌, ◌<◌, refl, none, some, List, [], ◌∷◌, ◌++◌, length, take, drop,
  take-drop, ok, err, undefined, Among, later, arith, min,
}
use indecorous.Io.FileCalls
use indecorous.Io.FileCalls.{Moved, moved, Outcome, done}
use indecorous.Io.FileCalls.Short.{IsBounded, write-endless}
use indecorous.Io.Tcp
use indecorous.Io.Tcp.{Socket, Conn, Loop}
use indecorous.Io.Tcp.Reads.{unread}
use indecorous.Io.Tcp.Ends.{Sink, write, write-sends, read-endless}
use indecorous.Io.Tcp.Peek.{peek, peeked, peek-unread}
use indecorous.Io.Tcp.Returns.{read-takes}
use indecorous.Io.Tcp.Until.{read_until, read_until-overruns}

-- A device that moves four bytes at most in a call, and counts the calls.
abbrev by_four : ℕ → ℕ → ℕ → Moved × ℕ
by_four offset n calls = (moved (min n 4), 1 + calls)

by_four-IsBounded : IsBounded by_four
by_four-IsBounded offset length n s h = let same : min length 4 ≡ n = cc in omega (arith, same)

-- The same without the count.
abbrev four : ℕ → ℕ → Unit {0} → Moved × Unit {0}
four offset n s = (moved (min n 4), tt)

write-endless_example : FileCalls.write four 9 10 7 tt ≡ none
write-endless_example =
    write-endless four 9 10 7 4 tt tt tt (omega arith) (omega arith) (λ o v. refl) refl refl

-- A socket that brings a list of bytes, as many as are asked for.
length-take_le : (n : ℕ) (s : List ℕ) → length (take n s) ≤ n
length-take_le zero s = omega arith
length-take_le (suc n) [] = omega arith
length-take_le (suc n) (x ∷ s) = omega (arith, length-take_le n s)

take-some : (n : ℕ) (s : List ℕ) → 0 < n → 0 < length s → 0 < length (take n s)
take-some zero s h k = absurd (omega arith)
take-some (suc n) [] h k = k
take-some (suc n) (x ∷ s) h k = omega arith

abbrev plain : Socket (List ℕ)
plain = record {
  recv = λ n s. (take n s, drop n s);
  bytes = λ s. s;
  recv-bytes = λ n s. take-drop n s;
  length-recv = λ n s. length-take_le n s;
  recv-some = λ n s h k. take-some n s h k;
}

-- A connection that has two bytes in its buffer, behind one that is used up.
abbrev open_conn : Conn (List ℕ)
open_conn = record { buffer = 1 ∷ 2 ∷ 3 ∷ []; offset = 1; socket = 4 ∷ 5 ∷ 6 ∷ [] }

read-takes_example :
    (t : Loop (List ℕ)) × ((Tcp.read plain 5 4 open_conn ≡ ok (some t))
      × ((t.out ++ unread plain t.conn ≡ 2 ∷ 3 ∷ 4 ∷ 5 ∷ 6 ∷ [])
          × ((length t.out ≡ 4) × (t.conn.offset ≤ length t.conn.buffer))))
read-takes_example = read-takes plain 5 4 open_conn (omega arith) (omega arith) (omega arith)

apart : Among {A = ℕ} 3 (2 ∷ []) → ⊥
apart (later a) = elim a [ ]

absent : Among {A = ℕ} 9 (2 ∷ 3 ∷ []) → ⊥
absent (later (later a)) = elim a [ ]

read_until-overruns_example : read_until plain 1 9 4 open_conn ≡ err undefined
read_until-overruns_example =
    read_until-overruns plain 0 9 4 open_conn (omega arith) (omega arith) absent

-- Two bytes are in the buffer, and a third is asked for.
peek-unread_example :
    (d : Conn (List ℕ)) × ((peek plain 3 3 open_conn ≡ peeked (2 ∷ 3 ∷ 4 ∷ []) d)
      × (unread plain d ≡ 2 ∷ 3 ∷ 4 ∷ 5 ∷ 6 ∷ []))
peek-unread_example =
    peek-unread plain 3 3 open_conn (omega arith) (omega arith) (omega arith) (omega arith)
      (omega arith)

-- A connection that has brought all its bytes.
abbrev closed_conn : Conn (List ℕ)
closed_conn = record { buffer = 1 ∷ []; offset = 1; socket = [] }

read-endless_example : Tcp.read plain 5 4 closed_conn ≡ ok none
read-endless_example = read-endless plain 5 4 closed_conn (omega arith) (omega arith) refl refl

min-some : (n : ℕ) → 0 < n → 0 < min n 2
min-some n h = ground arith

-- A socket that takes two bytes at most in a call.
abbrev by_two : Sink (List ℕ)
by_two = record {
  send = λ bytes s. (min (length bytes) 2, s ++ take (min (length bytes) 2) bytes);
  sent = λ s. s;
  sent-send = λ bytes s. refl;
  send_some = λ bytes s h. min-some (length bytes) h;
}

write-sends_example :
    (t : List ℕ) × ((write by_two 3 (7 ∷ 8 ∷ 9 ∷ []) (6 ∷ []) ≡ some t) × (t ≡ 6 ∷ 7 ∷ 8 ∷ 9 ∷ []))
write-sends_example = write-sends by_two 3 (7 ∷ 8 ∷ 9 ∷ []) (6 ∷ []) (omega arith)
