-- ===== src/Daemon/Pool.antt =====
-- core/daemon.go, DaemonContext: for each key the channels, a slice of pointers to futures of
-- sessions, in which a nil pointer is a free place. Futures and sessions live in two heaps.
pub mod Channels
pub mod Races
use truenas_incus_ctl.Base.{
  ℕ, zero, suc, ◌+◌, Bool, true, false, List, [], ◌∷◌, ◌++◌, Option, none, some, Str, str_eq,
  length, get_elem?, set, if◌then◌else◌,
}
use truenas_incus_ctl.Base.Dict.{Dict, lookup, insert}

-- A Future[*TruenasSession]: it is failed, or complete with a session.
pub data SessionFuture : Type 0 where
  pending : SessionFuture
  failed : Str → SessionFuture
  ready : ℕ → SessionFuture

-- What the pool reads of a session.
pub record Daemon : Type 0 where
  pub session_map : Dict Str (List (Option ℕ))
  pub futures : List SessionFuture
  pub in_progress : List Bool

-- The channel that a request gets, its future, and whether the request has to log in for it.
pub record Choice : Type 0 where
  pub channel : ℕ
  pub future : ℕ
  pub should_create : Bool

pub data Slot : Type 0 where
  free : Slot
  usable : ℕ → Slot
  skipped : Slot

-- The body of the loop over the slots: the pointer, `Peek`, and `callInProgress_`.
unfoldable pub peek_session : Daemon → ℕ → Option SessionFuture → Slot
peek_session d p (some (ready s)) = elim (get_elem? d.in_progress s) [
  | some false ↦ usable p
  | some true ↦ skipped
  | none ↦ skipped
]
peek_session d p _ = skipped

unfoldable pub look : Daemon → Option ℕ → Slot
unfolding peek_session
look d none = free
look d (some p) = peek_session d p (get_elem? d.futures p)

-- The first slot that is free or usable, counted from `i`.
unfoldable pub first_slot : Daemon → List (Option ℕ) → ℕ → Option (ℕ × Slot)
unfolding look
first_slot d [] i = none
first_slot d (p ∷ ps) i =
    let rest = first_slot d ps (suc i) in
    elim (look d p) [ free ↦ some (i, free) | usable q ↦ some (i, usable q) | skipped ↦ rest ]

-- A new future stands at the end of the heap.
abbrev pub with_future : Daemon → Str → List (Option ℕ) → Daemon
with_future d key slots = record d {
  session_map = insert key slots d.session_map;
  futures = d.futures ++ pending ∷ [];
}

unfoldable pub take_slot : Daemon → Str → List (Option ℕ) → Option (ℕ × Slot) → Daemon × Choice
take_slot d key slots (some (i, usable q)) =
    (d, record { channel = i; future = q; should_create = false })
take_slot d key slots (some (i, free)) = (
  with_future d key (set slots i (some (length d.futures))),
  record { channel = i; future = length d.futures; should_create = true },
)
take_slot d key slots _ = (
  with_future d key (slots ++ some (length d.futures) ∷ []),
  record { channel = length slots; future = length d.futures; should_create = true },
)

-- The part of maybeCreateSessionAndCall that holds `mapMtx`.
unfoldable pub choose_in : Daemon → Str → Option (List (Option ℕ)) → Daemon × Choice
unfolding first_slot take_slot
choose_in d key none = (
  with_future d key (some (length d.futures) ∷ []),
  record { channel = 0; future = length d.futures; should_create = true },
)
choose_in d key (some slots) = take_slot d key slots (first_slot d slots 0)

unfoldable pub choose_channel : Daemon → Str → Daemon × Choice
unfolding choose_in
choose_channel d key = choose_in d key (lookup key d.session_map)

unfoldable pub clear_in : Daemon → Str → ℕ → Option (List (Option ℕ)) → Daemon
clear_in d key channel none = d
clear_in d key channel (some slots) = record d {
  session_map = insert key (set slots channel none) d.session_map;
}

-- A channel that is out of range is left alone.
unfoldable pub delete_session : Daemon → Str → ℕ → Daemon
unfolding clear_in
delete_session d key channel = clear_in d key channel (lookup key d.session_map)

-- `future.Complete(s)` and `future.Fail(err)` by the request that created the future.
unfoldable pub settle : Daemon → ℕ → SessionFuture → Daemon
settle d p f = record d { futures = set d.futures p f }
