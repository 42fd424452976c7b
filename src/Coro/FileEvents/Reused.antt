-- ===== src/Coro/FileEvents/Reused.antt =====
-- src/coro/events.cc: a descriptor that is closed once its wait is over, and opened again.
use indecorous.Base.{
  at, ◌≡◌, refl, ap, ◌∙◌, true, false, none, some, List, [], ◌∷◌, ok, err, guarantee, ◌==◌, ==_refl,
  arith,
}
use indecorous.Sync.WaitObject.{success}
use indecorous.Coro.FileEvents.Synced.{is_zero-join}
use indecorous.Coro.FileEvents.{
  Mask, no_events, join, is_zero, meets, Callback, FileInfo, Files, Epoll, all_masks, handle_event,
  notify_all, update_file, update_all, update_epoll, add_file_wait,
}

abbrev pub info_of : List Callback → Mask → FileInfo
info_of callbacks last = record { callbacks = callbacks; last_used_events = last }

-- A descriptor has one callback, and the epoll set has been told of it. The event that the callback waits
-- for comes, and the callback is told; the set and the map still have the descriptor. The descriptor is
-- then closed, by which the kernel takes it out of the set, and the next descriptor that is opened gets its
-- number: the first wait on that one ends in the GUARANTEE of `update_epoll`, which wants to modify what is
-- not there.
pub update_epoll-reused :
    {K : Type 0} (e : Epoll K) (f : Files) (last event_mask : Mask) (old new : Callback)
    (closed : K)
    → f.epoll_changes ≡ []
    → f.file_map old.fd ≡ some (info_of (old ∷ []) last)
    → is_zero last ≡ false
    → event_mask.epoll_err ≡ false
    → event_mask.epoll_hup ≡ false
    → meets old.event_mask event_mask ≡ true
    → e.interest closed old.fd ≡ none
    → new.fd ≡ old.fd
    → is_zero new.event_mask ≡ false
    → (g : Files) × ((h : Files) × ((handle_event old.fd event_mask f
            ≡ ok ((old.id, success) ∷ [], g))
          × ((add_file_wait new g ≡ ok h) × (update_epoll e h closed ≡ err guarantee))))
unfolding handle_event notify_all add_file_wait update_epoll update_all update_file all_masks
update_epoll-reused e f last event_mask old new closed changes there asked no_err no_hup met gone
      same some_mask =
    let g = record f { file_map = at old.fd (some (info_of [] last)) f.file_map } in
    let h : Files = record {
      epoll_changes = new.fd ∷ [];
      file_map = at new.fd (some (info_of (new ∷ []) last)) g.file_map;
    } in
    let refused =
      e.ctl-absent new.fd (join new.event_mask no_events) closed
        (ap (e.interest closed) same ∙ gone) in
    let here : (old.fd == new.fd) ≡ true = ground (arith, same) in
    let some_union = is_zero-join new.event_mask no_events some_mask in
    (
      g,
      (
        h,
        (
          rw (there, met, no_err, no_hup) refl,
          (
            rw (some_mask, here, changes) refl,
            rw (==_refl new.fd, some_mask, some_union, asked, refused) refl,
          ),
        ),
      ),
    )
