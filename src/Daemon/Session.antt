-- ===== src/Daemon/Session.antt =====
-- core/daemon.go, TruenasSession: one connection, its calls and its jobs. A pointer to a future is
-- an index into the session's own heap of futures.
pub mod Calls
use truenas_incus_ctl.Base.{
  ℕ, zero, suc, ◌+◌, ◌-◌, ◌^◌, Bool, true, false, ◌||◌, List, [], ◌∷◌, ◌++◌, Option, none, some, ℤ,
  pos, negsuc, int_eq, Str, codes, eqb, length, get_elem?, set, contains_str, if◌then◌else◌,
}
use truenas_incus_ctl.Base.Dict.{Dict, lookup, insert, erase}
use truenas_incus_ctl.Json.{Json, null}
use truenas_incus_ctl.Future.{Future, make_future, reach, complete, fail}

pub record TruenasSession (F : Type 0) : Type 0 where
  pub session_key : Str
  pub channel : ℕ
  pub call_in_progress : Bool
  pub cur_call_id : ℤ
  pub call_map : Dict ℤ ℕ
  pub job_map : Dict ℤ ℕ
  pub futures : List (Future (Json F) Str)

-- `n++` on an int64.
unfoldable pub inc_int64 : ℤ → ℤ
inc_int64 (pos n) = if eqb n (2 ^ 63 - 1) then negsuc n else pos (suc n)
inc_int64 (negsuc zero) = pos 0
inc_int64 (negsuc (suc n)) = negsuc n

module _ {F : Type 0} where
  unfoldable pub new_session : Str → ℕ → TruenasSession F
  new_session key channel = record {
    session_key = key;
    channel = channel;
    call_in_progress = false;
    cur_call_id = pos 0;
    call_map = [];
    job_map = [];
    futures = [];
  }

  -- A new future stands at the end of the heap.
  unfoldable pub alloc : List (Future (Json F) Str) → List (Future (Json F) Str)
  unfolding make_future
  alloc fs = fs ++ make_future null ∷ []

  unfoldable pub reach_at :
      List (Future (Json F) Str) → ℕ → Json F → Option Str → List (Future (Json F) Str)
  unfolding reach
  reach_at [] p v e = []
  reach_at (f ∷ fs) zero v e = (reach f v e).0 ∷ fs
  reach_at (f ∷ fs) (suc p) v e = f ∷ reach_at fs p v e

  -- The first locked part of `callJson`: a new id, its future, and the session is in use. The
  -- future stands at the old end of the heap.
  unfoldable pub begin_call : TruenasSession F → TruenasSession F
  unfolding inc_int64 alloc
  begin_call s = record s {
    cur_call_id = inc_int64 s.cur_call_id;
    call_map = insert (inc_int64 s.cur_call_id) (length s.futures) s.call_map;
    call_in_progress = true;
    futures = alloc s.futures;
  }

  -- The second locked part of `callJson`.
  unfoldable pub end_call : TruenasSession F → ℤ → TruenasSession F
  end_call s id = record s { call_map = erase id s.call_map; call_in_progress = false }

unfoldable pub is_closed_error : Str → Bool
is_closed_error msg =
    contains_str msg (codes "use of closed network connection")
    || contains_str msg (codes "gorilla panic")

-- What comes of a request that is written: the result of AwaitFutureOrTimeout for the call's future.
pub data Awaited (F : Type 0) : Type 0 where
  write_failed : Str → Awaited F
  timed_out : Str → Awaited F
  answered : Json F → Option Str → Awaited F

-- The three results of `callJson`; a nil message is `null`.
pub record Reply (F : Type 0) : Type 0 where
  pub message : Json F
  pub error : Option Str
  pub should_retry : Bool

module _ {F : Type 0} where
  -- `callJson` behind its first locked part, for the call `id`.
  unfoldable pub finish_call : TruenasSession F → ℤ → Awaited F → TruenasSession F × Reply F
  unfolding is_closed_error end_call
  finish_call s id (write_failed msg) =
      (s, record { message = null; error = some msg; should_retry = is_closed_error msg })
  finish_call s id (timed_out duration) = (
    s,
    record {
      message = null;
      error = some (codes "Request timed out (exceeded " ++ duration ++ codes ")");
      should_retry = false;
    },
  )
  finish_call s id (answered v (some e)) =
      (end_call s id, record { message = null; error = some e; should_retry = false })
  finish_call s id (answered v none) =
      (end_call s id, record { message = v; error = none; should_retry = false })
