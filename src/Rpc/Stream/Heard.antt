-- ===== src/Rpc/Stream/Heard.antt =====
-- src/rpc/stream.cc: no message of a `local_stream_t` is missed.
use indecorous.Base.{
  ℕ, ◌≡◌, inl, inr, refl, ap, ◌∙◌, sym, Bool, true, false, Bool-cases, Option, Option-cases, none,
  some, List, [], ◌∷◌, ◌++◌, Among, first, later, Among-append_left, Among-append_right, ok,
  ok-injective, ◌==◌, subst, arith,
}
use indecorous.Containers.Mpsc
use indecorous.Containers.Mpsc.{stub, Mpsc, put, push, set_next, pushes, writes_next}
use indecorous.Containers.Mpsc.Order.{items, Among-split, Among-cons}
use indecorous.Containers.Mpsc.History.{Reach-IsQueue}
use indecorous.Containers.Mpsc.Pop.{pop, head?, given, pop-Pops, is_none}
use indecorous.Rpc.Stream
use indecorous.Rpc.Stream.{
  Stream, create, write_push, write_link, signal, read, wait, Reach, creates, links, signals, reads,
  waits,
}

pub record IsHeard (writers : List ℕ) (empty : Bool) (s : Stream) : Type 0 where
  pub reached : Mpsc.Reach s.queue
  pub idle : s.queue.at_back ≡ false
  pub midway : (x message : ℕ) → s.queue.writes x ≡ some message → Among message writers
  pub heard : empty ≡ true → writers ≡ [] → s.value ≡ 0 → s.queue.pushed ≡ s.queue.popped

some-apart {ℓ} : {A : Type ℓ} {a b : A} → some a ≡ some b → a ≡ b
some-apart h = cc

push-IsHeard :
    (message : ℕ) (writers : List ℕ) (empty : Bool) (s : Stream)
    → IsHeard writers empty s
    → ¬ (message ≡ stub)
    → ¬ (message ≡ s.queue.front)
    → ((x : ℕ) → ¬ (s.queue.link x ≡ some message))
    → ((x : ℕ) → ¬ (s.queue.writes x ≡ some message))
    → IsHeard (message ∷ writers) empty (write_push message s)
unfolding write_push push
push-IsHeard message writers empty s v h f l w = record {
  reached = Mpsc.next v.reached (pushes message h f l w refl);
  idle = v.idle;
  midway = λ x m e. elim (Bool-cases (s.queue.back == x)) [
    | inl b ↦
        let here : put s.queue.back (some message) s.queue.writes x ≡ some message = rw b refl in
        let same : message ≡ m = some-apart (sym here ∙ e) in
        subst (λ y. Among y (message ∷ writers)) same first
    | inr b ↦
        let old : put s.queue.back (some message) s.queue.writes x ≡ s.queue.writes x = rw b refl in
        later (v.midway x m (sym old ∙ e))
  ];
  heard = λ b none_left z. cc;
}

link-IsHeard :
    (prev message : ℕ) (writers : List ℕ) (empty : Bool) (s : Stream)
    → IsHeard writers empty s
    → s.queue.writes prev ≡ some message
    → IsHeard writers empty (write_link prev message s)
unfolding write_link set_next
link-IsHeard prev message writers empty s v w = record {
  reached = Mpsc.next v.reached (writes_next prev message w refl);
  idle = v.idle;
  midway = λ x m e. elim (Bool-cases (prev == x)) [
    | inl b ↦
        let gone : put prev none s.queue.writes x ≡ none = rw b refl in
        let bad : none ≡ some m = sym gone ∙ e in cc
    | inr b ↦
        let old : put prev none s.queue.writes x ≡ s.queue.writes x = rw b refl in
        v.midway x m (sym old ∙ e)
  ];
  heard = v.heard;
}

signal-IsHeard :
    (before after : List ℕ) (message : ℕ) (empty : Bool) (s : Stream)
    → IsHeard (before ++ message ∷ after) empty s
    → ((x : ℕ) → ¬ (s.queue.writes x ≡ some message))
    → IsHeard (before ++ after) empty (signal s)
unfolding signal
signal-IsHeard before after message empty s v h = record {
  reached = v.reached;
  idle = v.idle;
  midway = λ x m e. elim (Among-split m before (message ∷ after) (v.midway x m e)) [
    | inl a ↦ Among-append_left after a
    | inr a ↦ elim (Among-cons m message after a) [
      | inl same ↦ absurd (h x (e ∙ ap some same))
      | inr b ↦ Among-append_right before b
    ]
  ];
  heard = λ b none_left z. absurd (omega (arith, z));
}

none-Among : (x : ℕ) (f : ℕ → Option ℕ) → ((m : ℕ) → f x ≡ some m → Among m []) → f x ≡ none
none-Among x f h = elim (Option-cases (f x)) [ inl e ↦ e | inr (m, e) ↦ elim (h m e) [ ] ]

eq-nil_of_head : (xs : List ℕ) → none ≡ head? xs → xs ≡ []
eq-nil_of_head [] h = refl
eq-nil_of_head (x ∷ xs) h = cc

read-eq :
    (found : Option ℕ) (q : Mpsc) (s : Stream)
    → pop s.queue ≡ ok (found, q)
    → read s ≡ ok (found, record s { queue = q })
unfolding read
read-eq found q s h = rw h refl

-- A `read` of a stream ends well; if it finds nothing and every writer has signalled, every message has
-- been read.
read-IsHeard :
    (writers : List ℕ) (empty : Bool) (s : Stream)
    → IsHeard writers empty s
    → (found : Option ℕ) × ((t : Stream) × ((read s ≡ ok (found, t))
          × IsHeard writers (is_none found) t))
read-IsHeard writers empty s v =
    let p = pop-Pops s.queue v.reached v.idle in
    let q = Reach-IsQueue s.queue v.reached in
    (
      p.found,
      (
        record s { queue = p.then_ },
        (
          read-eq p.found p.then_ s p.ends,
          record {
            reached = p.reached;
            idle = p.done;
            midway = λ x m e. v.midway x m (p.writers x m e);
            heard = λ b none_left z. elim (Option-cases p.found) [
              | inr (m, e) ↦ let bad : false ≡ true = sym (ap is_none e) ∙ b in cc
              | inl e ↦
                  let quiet = λ (x : ℕ).
                    none-Among x s.queue.writes
                      (λ m w. subst (λ l. Among m l) none_left (v.midway x m w)) in
                  let no_items =
                    eq-nil_of_head (items (s.queue.front ∷ q.rest)) (sym e ∙ p.oldest quiet) in
                  p.same_pushed
                  ∙ q.order
                  ∙ ap (λ l. s.queue.popped ++ l) no_items
                  ∙ sym (ap (λ o. s.queue.popped ++ given o) e)
                  ∙ sym p.gone
            ];
          },
        ),
      ),
    )

wait-IsHeard :
    (writers : List ℕ) (s t : Stream)
    → IsHeard writers true s
    → wait s ≡ some t
    → IsHeard writers false t
unfolding wait
wait-IsHeard writers s t v e = elim (Bool-cases (s.value == 0)) [
  | inl b ↦ let stays : wait s ≡ none = rw b refl in let bad : none ≡ some t = sym stays ∙ e in cc
  | inr b ↦
      let cleared : wait s ≡ some (record s { value = 0 }) = rw b refl in
      subst (λ x. IsHeard writers false x) (some-apart (sym cleared ∙ e))
        record { reached = v.reached; idle = v.idle; midway = v.midway; heard = λ c. cc }
]

read-same :
    (s t u : Stream) (found f : Option ℕ)
    → read s ≡ ok (found, t)
    → read s ≡ ok (f, u)
    → (found ≡ f) × (t ≡ u)
read-same s t u found f h k = let e = ok-injective (sym h ∙ k) in (ap (λ p. p.0) e, ap (λ p. p.1) e)

Reach-IsHeard :
    {writers : List ℕ} {empty : Bool} {s : Stream} → Reach writers empty s → IsHeard writers empty s
unfolding create Mpsc.create
Reach-IsHeard creates = record {
  reached = Mpsc.start;
  idle = refl;
  midway = λ x m e. let bad : none ≡ some m = e in cc;
  heard = λ b. cc;
}
Reach-IsHeard (Stream.pushes message {writers} {empty} {s} r h f l w) =
    push-IsHeard message writers empty s (Reach-IsHeard r) h f l w
Reach-IsHeard (links prev message {writers} {empty} {s} r w) =
    link-IsHeard prev message writers empty s (Reach-IsHeard r) w
Reach-IsHeard (signals before after message {empty} {s} r h) =
    signal-IsHeard before after message empty s (Reach-IsHeard r) h
Reach-IsHeard (reads found {writers} {empty} {s} {t} r e) =
    let (f, (u, (eq, v))) = read-IsHeard writers empty s (Reach-IsHeard r) in
    let (same, state) = read-same s u t f found eq e in
    subst (λ o. IsHeard writers (is_none o) t) same
      (subst (λ x. IsHeard writers (is_none f) x) state v)
Reach-IsHeard (waits {writers} {s} {t} r e) = wait-IsHeard writers s t (Reach-IsHeard r) e

-- In every interleaving, a `read` ends well, with no assertion of the queue failing.
Reach-read :
    (writers : List ℕ) (empty : Bool) (s : Stream)
    → Reach writers empty s
    → (found : Option ℕ) × ((t : Stream) × (read s ≡ ok (found, t)))
Reach-read writers empty s r =
    let (f, (u, (eq, w))) = read-IsHeard writers empty s (Reach-IsHeard r) in (f, (u, eq))

abbrev rest : List ℕ → List ℕ
rest [] = []
rest (x ∷ xs) = xs

append-same : (xs ys : List ℕ) → xs ≡ xs ++ ys → ys ≡ []
append-same [] ys h = sym h
append-same (x ∷ xs) ys h = append-same xs ys (ap rest h)

-- No message is missed: in every interleaving, while the reader has found nothing and would wait, with no
-- signal there, and no writer is under way, every message that was written has been read, and a `read` ends
-- well and finds nothing.
pub Reach-no_message_missed :
    (s : Stream)
    → Reach [] true s
    → s.value ≡ 0
    → (wait s ≡ none)
      × ((s.queue.pushed ≡ s.queue.popped) × ((t : Stream) × (read s ≡ ok (none, t))))
unfolding wait
Reach-no_message_missed s r z =
    let v = Reach-IsHeard r in
    let p = pop-Pops s.queue v.reached v.idle in
    let q = Reach-IsQueue s.queue v.reached in
    let quiet = λ (x : ℕ). none-Among x s.queue.writes (v.midway x) in
    let all_read = v.heard refl refl z in
    let no_items = append-same s.queue.popped _ (sym all_read ∙ q.order) in
    let nothing : p.found ≡ none = p.oldest quiet ∙ ap head? no_items in
    (
      rw z refl,
      (
        all_read,
        (
          record s { queue = p.then_ },
          read-eq p.found p.then_ s p.ends ∙ ap (λ o. ok (o, record s { queue = p.then_ })) nothing,
        ),
      ),
    )
