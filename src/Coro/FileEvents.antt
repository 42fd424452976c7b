-- ===== src/Coro/FileEvents.antt =====
-- src/coro/events.hpp and events.cc: the file descriptors on which a thread waits, and its epoll set; and the
-- masks of src/sync/file_wait.cc. The epoll set is the kernel's, and is a parameter. A callback is the number
-- of its object with its descriptor and its mask; a mask is a `uint32_t`, here the bits that are asked for.
pub mod Synced
pub mod Reused
pub mod History
use indecorous.Base.{
  at, ℕ, ◌≡◌, ◌≢◌, Bool, true, false, not, ◌&&◌, ◌||◌, Option, none, some, List, [], ◌∷◌, ◌++◌,
  Result, ok, err, guarantee, undefined, require, assert, ◌>>=◌, ◌>>◌, ◌==◌, if◌then◌else◌,
}
use indecorous.Sync.WaitObject.{WaitResult, success, object_lost, Notice}

pub record Mask : Type 0 where
  pub epoll_in : Bool
  pub epoll_pri : Bool
  pub epoll_out : Bool
  pub epoll_err : Bool
  pub epoll_hup : Bool
  pub epoll_rdhup : Bool

abbrev pub no_events : Mask
no_events = record {
  epoll_in = false;
  epoll_pri = false;
  epoll_out = false;
  epoll_err = false;
  epoll_hup = false;
  epoll_rdhup = false;
}

-- `a | b`, `a == 0` and `(a & b) != 0`
abbrev pub join : Mask → Mask → Mask
join a b = record {
  epoll_in = a.epoll_in || b.epoll_in;
  epoll_pri = a.epoll_pri || b.epoll_pri;
  epoll_out = a.epoll_out || b.epoll_out;
  epoll_err = a.epoll_err || b.epoll_err;
  epoll_hup = a.epoll_hup || b.epoll_hup;
  epoll_rdhup = a.epoll_rdhup || b.epoll_rdhup;
}

abbrev pub is_zero : Mask → Bool
is_zero a = not (
    a.epoll_in || (a.epoll_pri || (a.epoll_out || (a.epoll_err || (a.epoll_hup || a.epoll_rdhup)))))

abbrev pub meets : Mask → Mask → Bool
meets a b =
    (a.epoll_in && b.epoll_in)
    || ((a.epoll_pri && b.epoll_pri)
        || ((a.epoll_out && b.epoll_out)
            || ((a.epoll_err && b.epoll_err)
                || ((a.epoll_hup && b.epoll_hup) || (a.epoll_rdhup && b.epoll_rdhup)))))

-- `file_callback_t`
pub record Callback : Type 0 where
  pub id : ℕ
  pub fd : ℕ
  pub event_mask : Mask

-- `file_info_t`
pub record FileInfo : Type 0 where
  pub callbacks : List Callback
  pub last_used_events : Mask

-- `m_epoll_changes` and `m_file_map`
pub record Files : Type 0 where
  pub epoll_changes : List ℕ
  pub file_map : ℕ → Option FileInfo

pub data Control : Type 0 where
  add modify delete : Control

-- 0, or the error of a call
pub data CtlResult : Type 0 where
  returned_zero errno_ebadf errno_enoent errno_other : CtlResult

-- The tests of the two GUARANTEE_ERR of `update_epoll`
abbrev pub is_zero_result : CtlResult → Bool
is_zero_result returned_zero = true
is_zero_result errno_ebadf = false
is_zero_result errno_enoent = false
is_zero_result errno_other = false

abbrev pub is_deleted : CtlResult → Bool
is_deleted returned_zero = true
is_deleted errno_ebadf = true
is_deleted errno_enoent = true
is_deleted errno_other = false

-- The epoll set: what it is interested in, and `::epoll_ctl`, with its result. A descriptor that is not in the
-- set can be added and cannot be modified, and the other way round; one that is deleted is out of the set
-- afterwards, or was not there; a call changes the interest in its own descriptor alone. The kernel does not
-- run out of memory or of watches.
pub record Epoll (K : Type 0) : Type 0 where
  pub interest : K → ℕ → Option Mask
  pub epoll_ctl : Control → ℕ → Mask → K → CtlResult × K
  pub ctl-add :
      (fd : ℕ) (m : Mask) (k : K)
      → interest k fd ≡ none
      → ((epoll_ctl add fd m k).0 ≡ returned_zero) × (interest (epoll_ctl add fd m k).1 fd ≡ some m)
  pub ctl-modify :
      (fd : ℕ) (m old : Mask) (k : K)
      → interest k fd ≡ some old
      → ((epoll_ctl modify fd m k).0 ≡ returned_zero)
        × (interest (epoll_ctl modify fd m k).1 fd ≡ some m)
  pub ctl-absent :
      (fd : ℕ) (m : Mask) (k : K)
      → interest k fd ≡ none
      → (epoll_ctl modify fd m k).0 ≡ errno_enoent
  pub ctl-delete :
      (fd : ℕ) (m : Mask) (k : K)
      → (is_deleted (epoll_ctl delete fd m k).0 ≡ true)
        × (interest (epoll_ctl delete fd m k).1 fd ≡ none)
  pub ctl-other :
      (c : Control) (fd g : ℕ) (m : Mask) (k : K)
      → (fd == g) ≡ false
      → interest (epoll_ctl c fd m k).1 g ≡ interest k g

-- `events_t()`
unfoldable pub create : Files
create = record { epoll_changes = []; file_map = λ fd. none }

abbrev pub listed : ℕ → List ℕ → Bool
listed fd [] = false
listed fd (x ∷ xs) = (fd == x) || listed fd xs

-- `m_epoll_changes.insert`
abbrev pub insert : ℕ → List ℕ → List ℕ
insert fd changes = if listed fd changes then changes else changes ++ fd ∷ []

abbrev pub info_or_new : Option FileInfo → FileInfo
info_or_new none = record { callbacks = []; last_used_events = no_events }
info_or_new (some info) = info

-- `events_t::add_file_wait`
unfoldable pub add_file_wait : Callback → Files → Result Files
add_file_wait cb f = do
  assert (not (is_zero cb.event_mask))
  let info = info_or_new (f.file_map cb.fd)
  let grown = record info { callbacks = info.callbacks ++ cb ∷ [] }
  ok (record {
    epoll_changes = insert cb.fd f.epoll_changes;
    file_map = at cb.fd (some grown) f.file_map;
  })

-- `intrusive_list_t::remove`
abbrev pub remove : ℕ → List Callback → List Callback
remove id [] = []
remove id (cb ∷ rest) = if cb.id == id then rest else cb ∷ remove id rest

abbrev pub is_linked : ℕ → List Callback → Bool
is_linked id [] = false
is_linked id (cb ∷ rest) = if cb.id == id then true else is_linked id rest

-- `assert(it != m_file_map.end())`
abbrev pub found : Option FileInfo → Result FileInfo
found none = assert false >> ok (record { callbacks = []; last_used_events = no_events })
found (some info) = ok info

-- `events_t::remove_file_wait`: unlinking a node that is in no list is undefined.
unfoldable pub remove_file_wait : Callback → Files → Result Files
remove_file_wait cb f = do
  info ← found (f.file_map cb.fd)
  require undefined (is_linked cb.id info.callbacks)
  let shrunk = record info { callbacks = remove cb.id info.callbacks }
  ok (record {
    epoll_changes = insert cb.fd f.epoll_changes;
    file_map = at cb.fd (some shrunk) f.file_map;
  })

-- The loop over the callbacks in `update_epoll`
unfoldable pub all_masks : List Callback → Result Mask
all_masks [] = ok no_events
all_masks (cb ∷ rest) = do
  assert (not (is_zero cb.event_mask))
  others ← all_masks rest
  ok (join cb.event_mask others)

-- What an event does to the callbacks of its descriptor in `do_epoll_wait`: those that are told, and those
-- that stay
abbrev pub outcome : Mask → Callback → Option WaitResult
outcome event_mask cb =
    if event_mask.epoll_err || event_mask.epoll_hup
    then some object_lost
    else if meets cb.event_mask event_mask
    then some success
    else none

abbrev pub told :
    Option WaitResult → Callback → List Notice × List Callback → List Notice × List Callback
told none cb rest = (rest.0, cb ∷ rest.1)
told (some result) cb rest = ((cb.id, result) ∷ rest.0, rest.1)

unfoldable pub notify_all : Mask → List Callback → List Notice × List Callback
notify_all event_mask [] = ([], [])
notify_all event_mask (cb ∷ rest) = told (outcome event_mask cb) cb (notify_all event_mask rest)

-- One round of the loop of `do_epoll_wait`, with the events that `::epoll_wait` has given
unfoldable pub handle_event : ℕ → Mask → Files → Result (List Notice × Files)
unfolding notify_all
handle_event fd event_mask f = do
  info ← found (f.file_map fd)
  let (notices, left) = notify_all event_mask info.callbacks
  ok (notices, record f { file_map = at fd (some (record info { callbacks = left })) f.file_map })

unfoldable pub do_epoll_wait : List (ℕ × Mask) → Files → Result (List Notice × Files)
unfolding handle_event
do_epoll_wait [] f = ok ([], f)
do_epoll_wait ((fd, event_mask) ∷ events) f = do
  (notices, after) ← handle_event fd event_mask f
  (others, last) ← do_epoll_wait events after
  ok (notices ++ others, last)

abbrev pub is_empty : List Callback → Bool
is_empty [] = true
is_empty (cb ∷ rest) = false

module _ {K : Type 0} (e : Epoll K) where
  -- The rest of a round in `update_epoll`, once the masks are joined
  abbrev pub apply_events : ℕ → FileInfo → Mask → Files → K → Result (Files × K)
  apply_events fd info events f k =
      if is_zero events
      then (do
        assert (is_empty info.callbacks)
        let gone = e.epoll_ctl delete fd events k
        require guarantee (is_deleted gone.0)
        ok (record f { file_map = at fd none f.file_map }, gone.1))
      else (do
        let task = if is_zero info.last_used_events then add else modify
        let done = e.epoll_ctl task fd events k
        require guarantee (is_zero_result done.0)
        ok (
          record f {
            file_map = at fd (some (record info { last_used_events = events })) f.file_map;
          },
          done.1,
        ))

  unfoldable pub update_file : ℕ → Files → K → Result (Files × K)
  unfolding all_masks
  update_file fd f k = do
    info ← found (f.file_map fd)
    events ← all_masks info.callbacks
    apply_events fd info events f k

  unfoldable pub update_all : List ℕ → Files → K → Result (Files × K)
  unfolding update_file
  update_all [] f k = ok (f, k)
  update_all (fd ∷ changes) f k = do (g, after) ← update_file fd f k; update_all changes g after

  -- `events_t::update_epoll`
  unfoldable pub update_epoll : Files → K → Result (Files × K)
  unfolding update_all
  update_epoll f k = do
    (g, after) ← update_all f.epoll_changes f k
    ok (record g { epoll_changes = [] }, after)
