-- ===== src/Rpc/Hub/Dispatch.antt =====
-- src/rpc/hub.cc: a reply gets to the request that it answers.
use indecorous.Base.{
  ℕ, ◌<◌, ◌≡◌, refl, true, false, Bool-cases, inl, inr, none, some, List, [], ◌∷◌, ◌++◌, ok, ◌>>=◌,
  ◌∙◌, ◌==◌, ==_refl, ==_iff, sym, subst, All, arith,
}
use indecorous.Containers.Buffer.{has}
use indecorous.Rpc.Wire.{ReadMessage}
use indecorous.Rpc.Message.{no_id}
use indecorous.Rpc.Hub.{Reply, Hub, find_reply, fulfill, new_request, spawn_task, after}

-- Only requests that have been made are in the table.
abbrev pub IsFresh : Hub → Type 0
IsFresh h = All (λ r. r.request < h.next_request) h.replies

find-fresh : (n : ℕ) (rs : List Reply) → All (λ r. r.request < n) rs → find_reply n rs ≡ none
find-fresh n [] h = refl
find-fresh n (r ∷ rs) h =
    let apart : (r.request == n) ≡ false = ground arith in rw apart (find-fresh n rs h.1)

find-last :
    (n : ℕ) (rs : List Reply) (r : Reply)
    → find_reply n rs ≡ none
    → r.request ≡ n
    → find_reply n (rs ++ r ∷ []) ≡ some r
find-last n [] r h e = rw (e, ==_refl n)
find-last n (x ∷ rs) r h e = elim (Bool-cases (x.request == n)) [
  | inl q ↦ cc (rw q at h)
  | inr q ↦ rw q (find-last n rs r (rw q at h) e)
]

find-fulfill :
    (n : ℕ) (msg : ReadMessage) (rs : List Reply) (r : Reply)
    → find_reply n rs ≡ some r
    → find_reply n (fulfill n msg rs) ≡ some (record r { value = some msg })
find-fulfill n msg [] r h = cc
find-fulfill n msg (x ∷ rs) r h = elim (Bool-cases (x.request == n)) [
  | inl q ↦ let e : x ≡ r = cc (rw q at h) in ground (arith, e)
  | inr q ↦ let e = find-fulfill n msg rs r (rw q at h) in ground (arith, e)
]

find-fulfill_other :
    (n k : ℕ) (msg : ReadMessage) (rs : List Reply)
    → (k == n) ≡ false
    → find_reply n (fulfill k msg rs) ≡ find_reply n rs
find-fulfill_other n k msg [] e = refl
find-fulfill_other n k msg (x ∷ rs) e = elim (Bool-cases (x.request == k)) [
  | inl q ↦ ground arith
  | inr q ↦ let r = find-fulfill_other n k msg rs e in ground (arith, r)
]

find-snoc_other :
    (n : ℕ) (rs : List Reply) (r : Reply)
    → (r.request == n) ≡ false
    → find_reply n (rs ++ r ∷ []) ≡ find_reply n rs
find-snoc_other n [] r e = rw e
find-snoc_other n (x ∷ rs) r e = let q = find-snoc_other n rs r e in ground (arith, q)

-- What the hub is once the request has been made.
abbrev opened : Hub → Hub
opened h = record h {
  next_request = after h.next_request;
  replies = h.replies ++ record { request = h.next_request; value = none } ∷ [];
}

new_request-opened : (h : Hub) → IsFresh h → new_request h ≡ ok (h.next_request, opened h)
unfolding new_request
new_request-opened h f = rw (find-fresh h.next_request h.replies f)

spawn_task-fulfill :
    (h : Hub) (msg : ReadMessage) (r : Reply)
    → has msg.buffer ≡ true
    → (msg.rpc_id == no_id) ≡ true
    → find_reply msg.request_id h.replies ≡ some r
    → r.value ≡ none
    → spawn_task msg h ≡ ok (record h { replies = fulfill msg.request_id msg h.replies })
unfolding spawn_task
spawn_task-fulfill h msg r there reply found waiting = rw (there, reply, found, waiting)

-- Where the table holds requests with smaller ids only, a new request is made, and a reply to it with a
-- buffer fulfils the promise of just this request: every other request's is as it was, and no task starts.
pub new_request-spawn_task :
    (h : Hub) (msg : ReadMessage) (other_request : ℕ)
    → IsFresh h
    → has msg.buffer ≡ true
    → msg.rpc_id ≡ no_id
    → msg.request_id ≡ h.next_request
    → (h.next_request == other_request) ≡ false
    → (t : Hub) × ((new_request h >>= λ p. spawn_task msg p.1) ≡ ok t)
      × ((find_reply h.next_request t.replies
            ≡ some (record { request = h.next_request; value = some msg }))
          × ((find_reply other_request t.replies ≡ find_reply other_request h.replies)
              × (t.spawned ≡ h.spawned)))
new_request-spawn_task h msg other_request f there reply same apart =
    let n = h.next_request in
    let waiting : Reply = record { request = n; value = none } in
    let rs = (opened h).replies in
    let found = find-last n h.replies waiting (find-fresh n h.replies f) refl in
    let own = find-fulfill n msg rs waiting found in
    let others =
      find-fulfill_other other_request n msg rs apart
      ∙ find-snoc_other other_request h.replies waiting apart in
    (
      record (opened h) { replies = fulfill msg.request_id msg rs },
      rw (new_request-opened h f) (
          spawn_task-fulfill (opened h) msg waiting there ((==_iff msg.rpc_id no_id).1 reply)
            (subst (λ k. find_reply k rs ≡ some waiting) (sym same) found) refl),
      (
        subst (λ k. find_reply n (fulfill k msg rs) ≡ some (record waiting { value = some msg }))
            (sym same) own,
        (
          subst
              (λ k.
                find_reply other_request (fulfill k msg rs) ≡ find_reply other_request h.replies)
              (sym same) others,
          refl,
        ),
      ),
    )
