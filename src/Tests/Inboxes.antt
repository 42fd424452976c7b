-- ===== src/Tests/Inboxes.antt =====
-- The streams of messages between threads, of src/rpc/stream.cc, at concrete inputs.
use indecorous.Base.{
  ℕ, ◌≡◌, refl, true, Option, none, some, [], ◌∷◌, Result, err, ok, guarantee, ◌==◌, Bool-cases,
  inl, inr, arith,
}
use indecorous.Containers.Mpsc
use indecorous.Containers.Mpsc.{Mpsc, push, set_next, skip, take_front, find_back, push_self}
use indecorous.Containers.Mpsc.Pop.{pop, pop_node, Pops, pop-Pops}
use indecorous.Containers.Mpsc.History.{Reach-IsQueue}
use indecorous.Rpc.Stream
use indecorous.Rpc.Stream.{
  Stream, write_push, write_link, signal, read, wait, read_io, Reach, creates, links, signals,
  reads, waits,
}
use indecorous.Rpc.Stream.Heard.{Reach-no_message_missed}
use indecorous.Rpc.Stream.Overtaken.{read_io-overtaken}

abbrev got : Result (Option ℕ × Stream) → Stream
got (err fault) = Stream.create
got (ok (found, s)) = s

abbrev held : Option Stream → Stream
held none = Stream.create
held (some s) = s

-- The reader finds nothing; message 5 is written; the reader is told, reads it, and finds nothing more.
abbrev written : Stream
written = signal (write_link 0 5 (write_push 5 (got (read Stream.create))))

abbrev told : Stream
told = held (wait written)

abbrev last_read : Stream
last_read = got (read (got (read told)))

told_run : read told ≡ ok (some 5, got (read told))
unfolding Stream.create Mpsc.create read write_push write_link signal wait push set_next pop
    pop_node skip take_front find_back push_self
told_run = refl

last_read_reached : Reach [] true last_read
unfolding Stream.create Mpsc.create read write_push write_link signal wait push set_next pop
    pop_node skip take_front find_back push_self
last_read_reached =
    reads none
      (reads (some 5)
        (waits
          (signals [] [] 5
            (links 0 5
              (Stream.pushes 5 (reads none creates refl) (λ e. absurd (omega (arith, e)))
                (λ e. absurd (omega (arith, e))) (λ x e. cc) (λ x e. cc))
              refl)
            (λ x. silent x))
          refl)
        refl)
      refl
  where
    silent :
        (x : ℕ)
        → (write_link 0 5 (write_push 5 (got (read Stream.create)))).queue.writes x ≡ some 5
        → ⊥
    silent x e = elim (Bool-cases (0 == x)) [
      | inl b ↦ let bad : ◌≡◌ {A = Option ℕ} none (some 5) = rw b at e in cc
      | inr b ↦ let bad : ◌≡◌ {A = Option ℕ} none (some 5) = rw b at e in cc
    ]

Reach-no_message_missed_example :
    (wait last_read ≡ none)
    × ((last_read.queue.pushed ≡ last_read.queue.popped)
        × ((t : Stream) × (read last_read ≡ ok (none, t))))
unfolding Stream.create Mpsc.create read write_push write_link signal wait push set_next pop
    pop_node skip take_front find_back push_self
Reach-no_message_missed_example = Reach-no_message_missed last_read last_read_reached refl

-- The queue holds the node 5.
abbrev one_node : Mpsc
one_node = set_next 0 5 (push 5 Mpsc.create)

one_node_reached : Mpsc.Reach one_node
unfolding Mpsc.create push set_next
one_node_reached =
    Mpsc.next
      (Mpsc.next Mpsc.start (
        Mpsc.pushes 5 (λ e. absurd (omega (arith, e))) (λ e. absurd (omega (arith, e))) (λ x e. cc)
          (λ x e. cc) refl))
      (Mpsc.writes_next 0 5 refl refl)

pop-Pops_example :
    Pops one_node (pop one_node) (one_node.front ∷ (Reach-IsQueue one_node one_node_reached).rest)
unfolding Mpsc.create push set_next
pop-Pops_example = pop-Pops one_node one_node_reached refl

read_io-overtaken_example :
    read_io (
      signal
        (write_link 7 9 (write_push 9 (write_push 7 (record { queue = Mpsc.create; value = 0 })))))
    ≡ err guarantee
unfolding Mpsc.create
read_io-overtaken_example =
    read_io-overtaken Mpsc.create 0 7 9 Mpsc.start refl refl (λ e. absurd (omega (arith, e)))
      (λ e. absurd (omega (arith, e)))
