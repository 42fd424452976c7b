-- ===== src/Rpc/Stream/Overtaken.antt =====
-- src/rpc/stream.cc: `io_stream_t::read` between two writers.
use indecorous.Base.{
  ℕ, ◌+◌, ◌≡◌, refl, ap, ◌∙◌, sym, false, none, List, [], ◌∷◌, Among, err, guarantee, ◌==◌, subst,
  arith,
}
use indecorous.Containers.Mpsc
use indecorous.Containers.Mpsc.{stub, Mpsc, put, push, set_next}
use indecorous.Containers.Mpsc.Chained.{Chain, Distinct, last, Among-last}
use indecorous.Containers.Mpsc.Order.{IsQueue, eqb-false}
use indecorous.Containers.Mpsc.History.{Reach-IsQueue}
use indecorous.Containers.Mpsc.Pop.{pop}
use indecorous.Rpc.Stream.{write_push, write_link, signal, read_io}

-- A queue the front and the back of which are its own node has no link behind that node.
empty-link : (q : Mpsc) → IsQueue q → q.front ≡ stub → q.back ≡ stub → q.link stub ≡ none
empty-link q v f b = go v.rest v.chain v.distinct (v.ends)
  where
    go :
        (rest : List ℕ)
        → Chain q.link q.writes (q.front ∷ rest)
        → Distinct (q.front ∷ rest)
        → q.back ≡ last q.front rest
        → q.link stub ≡ none
    go [] c d e = ap q.link (sym f) ∙ c.0
    go (y ∷ r) c (alone, d) e =
        absurd (alone (subst (λ z. Among z (y ∷ r)) (sym e ∙ b ∙ sym f) (Among-last y r)))

-- The reader of an `io_stream_t` is told of the second of two messages while the writer of the first one
-- has not linked it yet: the queue gives nothing, and the GUARANTEE of `read` fails. The stream is one that
-- is empty, the two messages are any, and the second writer has done all its steps.
pub read_io-overtaken :
    (q : Mpsc) (value one other : ℕ)
    → Mpsc.Reach q
    → q.front ≡ stub
    → q.back ≡ stub
    → ¬ (one ≡ stub)
    → ¬ (other ≡ stub)
    → read_io (
        signal (
          write_link one other
            (write_push other (write_push one (record { queue = q; value = value })))))
      ≡ err guarantee
unfolding read_io signal write_link write_push push set_next pop
read_io-overtaken q value one other r f b one_else other_else =
    let link = empty-link q (Reach-IsQueue q r) f b in
    let a : (one == stub) ≡ false = eqb-false one stub one_else in
    let c : (other == stub) ≡ false = eqb-false other stub other_else in
    let told : (value + 1 == 0) ≡ false = ground arith in rw (told, f, a, c, link) refl
