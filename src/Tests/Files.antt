-- ===== src/Tests/Files.antt =====
-- The file waits of a thread, of src/coro/events.cc, at concrete inputs.
use indecorous.Base.{
  at, ℕ, ◌≡◌, refl, ap, ◌∙◌, true, false, Option, none, some, [], ◌∷◌, Result, ok, err, guarantee,
  ◌==◌, ==_refl, if◌then◌else◌,
}
use indecorous.Sync.WaitObject.{success}
use indecorous.Coro.FileEvents.{
  Mask, no_events, Callback, Files, add, modify, delete, Control, CtlResult, returned_zero,
  errno_enoent, errno_other, Epoll, listed, create, add_file_wait, handle_event, update_epoll,
}
use indecorous.Coro.FileEvents.Synced.{wanted, union}
use indecorous.Coro.FileEvents.Reused.{info_of, update_epoll-reused}
use indecorous.Coro.FileEvents.History.{Reach, creates, adds, Reach-update_epoll}

-- An epoll set as the map of its interests
abbrev Interests : Type 0
Interests = ℕ → Option Mask

abbrev add_to : Option Mask → ℕ → Mask → Interests → CtlResult × Interests
add_to none fd m k = (returned_zero, at fd (some m) k)
add_to (some old) fd m k = (errno_other, k)

abbrev modify_in : Option Mask → ℕ → Mask → Interests → CtlResult × Interests
modify_in none fd m k = (errno_enoent, k)
modify_in (some old) fd m k = (returned_zero, at fd (some m) k)

abbrev control : Control → ℕ → Mask → Interests → CtlResult × Interests
control add fd m k = add_to (k fd) fd m k
control modify fd m k = modify_in (k fd) fd m k
control delete fd m k = (returned_zero, at fd none k)

at_self : (fd : ℕ) (v : Option Mask) (k : Interests) → at fd v k fd ≡ v
at_self fd v k = rw (==_refl fd) refl

add_to-other :
    (o : Option Mask) (fd g : ℕ) (m : Mask) (k : Interests)
    → (fd == g) ≡ false
    → (add_to o fd m k).1 g ≡ k g
add_to-other none fd g m k h = rw h refl
add_to-other (some old) fd g m k h = refl

modify_in-other :
    (o : Option Mask) (fd g : ℕ) (m : Mask) (k : Interests)
    → (fd == g) ≡ false
    → (modify_in o fd m k).1 g ≡ k g
modify_in-other none fd g m k h = refl
modify_in-other (some old) fd g m k h = rw h refl

control-other :
    (c : Control) (fd g : ℕ) (m : Mask) (k : Interests)
    → (fd == g) ≡ false
    → (control c fd m k).1 g ≡ k g
control-other add fd g m k h = add_to-other (k fd) fd g m k h
control-other modify fd g m k h = modify_in-other (k fd) fd g m k h
control-other delete fd g m k h = rw h refl

control-add :
    (fd : ℕ) (m : Mask) (k : Interests)
    → k fd ≡ none
    → ((control add fd m k).0 ≡ returned_zero) × ((control add fd m k).1 fd ≡ some m)
control-add fd m k h =
    let eq = ap (λ o. add_to o fd m k) h in
    (ap (λ p. p.0) eq, ap (λ p. p.1 fd) eq ∙ at_self fd (some m) k)

control-modify :
    (fd : ℕ) (m old : Mask) (k : Interests)
    → k fd ≡ some old
    → ((control modify fd m k).0 ≡ returned_zero) × ((control modify fd m k).1 fd ≡ some m)
control-modify fd m old k h =
    let eq = ap (λ o. modify_in o fd m k) h in
    (ap (λ p. p.0) eq, ap (λ p. p.1 fd) eq ∙ at_self fd (some m) k)

abbrev plain : Epoll Interests
plain = record {
  interest = λ k fd. k fd;
  epoll_ctl = control;
  ctl-add = control-add;
  ctl-modify = control-modify;
  ctl-absent = λ fd m k h. ap (λ o. (modify_in o fd m k).0) h;
  ctl-delete = λ fd m k. (refl, at_self fd none k);
  ctl-other = control-other;
}

abbrev readable : Mask
readable = record no_events { epoll_in = true }

abbrev writable : Mask
writable = record no_events { epoll_out = true }

abbrev wait_on : ℕ → Mask → Callback
wait_on id m = record { id = id; fd = 5; event_mask = m }

abbrev got : Result Files → Files
got (err fault) = create
got (ok f) = f

-- Two callbacks of one descriptor
abbrev two_waits : Files
two_waits =
    got (add_file_wait (wait_on 1 readable) (got (add_file_wait (wait_on 2 writable) create)))

abbrev nothing : Interests
nothing = λ fd. none

two_waits_reached : Reach plain two_waits nothing
unfolding create add_file_wait
two_waits_reached =
    adds (wait_on 1 readable) (adds (wait_on 2 writable) (creates nothing (λ fd. refl)) refl) refl

two_waits_run : (wanted (two_waits.file_map 5) ≡ some (record readable { epoll_out = true }))
unfolding create add_file_wait union
two_waits_run = refl

Reach-update_epoll_example :
    (g : Files) × ((after : Interests) × ((update_epoll plain two_waits nothing ≡ ok (g, after))
        × ((fd : ℕ)
            → after fd ≡ (
                if listed fd two_waits.epoll_changes
                then wanted (two_waits.file_map fd)
                else none))))
Reach-update_epoll_example = Reach-update_epoll plain two_waits nothing two_waits_reached

-- One callback, of which the set has been told
abbrev one_wait : Files
one_wait = record {
  epoll_changes = [];
  file_map = at 5 (some (info_of (wait_on 1 readable ∷ []) readable)) (λ fd. none);
}

update_epoll-reused_example :
    (g : Files) × ((h : Files) × ((handle_event 5 readable one_wait ≡ ok ((1, success) ∷ [], g))
        × ((add_file_wait (wait_on 2 writable) g ≡ ok h)
            × (update_epoll plain h nothing ≡ err guarantee))))
update_epoll-reused_example =
    update_epoll-reused plain one_wait readable readable (wait_on 1 readable) (wait_on 2 writable)
      nothing refl refl refl refl refl refl refl refl refl
