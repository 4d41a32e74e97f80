-- ===== src/Client/Calls.antt =====
-- truenas_api/truenas_api.go, `NewClientWithCallback`, `Close` and `Call`: the life of a call, and
-- histories of calls with the messages that `listen` reads.
use truenas_incus_ctl.Base.{
  Bool, true, false, [], ◌++◌, Option, none, some, ℤ, pos, int_eq, Str, codes, if◌then◌else◌,
}
use truenas_incus_ctl.Base.Dict.{lookup, insert, erase}
use truenas_incus_ctl.Json.{Fields}
use truenas_incus_ctl.Daemon.Session.{inc_int64}
use truenas_incus_ctl.Client.Jobs.{new_jobs}
use truenas_incus_ctl.Client.Listen.{Client}

unfoldable pub new_client : {F : Type 0} → Bool → Client F
unfolding new_jobs
new_client has_jobs_cb = record {
  is_closed = false;
  call_id = pos 0;
  pending = [];
  jobs = new_jobs;
  has_jobs_cb = has_jobs_cb;
}

-- The two results of `Call`.
pub data Called (F : Type 0) : Type 0 where
  failed : Str → Called F
  answered : Fields F → Called F

module _ {F : Type 0} where
  -- `Close`, with what writing the close message and closing the connection give.
  unfoldable pub close : Client F → Option Str → Option Str → Client F × Option Str
  close c write_error conn_error =
      if c.is_closed
      then (c, none)
      else (record c { is_closed = true }, elim write_error [ some e ↦ some e | none ↦ conn_error ])

  -- The locked part at the start of `Call`; an `int` has 64 bits.
  unfoldable pub begin_call : Client F → Client F × ℤ
  begin_call c =
      let id = inc_int64 c.call_id in
      (record c { call_id = id; pending = insert id none c.pending }, id)

  -- What the call's channel holds, when the call looks at it.
  unfoldable pub received : Client F → ℤ → Option (Fields F)
  received c id = elim (lookup id c.pending) [ none ↦ none | some held ↦ held ]

  unfoldable pub end_call : Client F → ℤ → Client F
  end_call c id = record c { pending = erase id c.pending }

  -- The end of `Call`, with what writing the request gives. A call that has no message when it looks
  -- again is timed out.
  unfoldable pub call_result : Client F → ℤ → Option Str → Called F
  unfolding received
  call_result c id (some e) = failed (codes "failed to send call: " ++ e)
  call_result c id none = elim (received c id) [
    | some response ↦ answered response
    | none ↦ failed (codes "call timed out")
  ]
