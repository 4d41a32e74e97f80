-- ===== src/Daemon/Session/Calls.antt =====
-- core/daemon.go, `callJson`: what a call leaves behind in its session.
use truenas_incus_ctl.Base.{
  ℕ, suc, ◌≡◌, ◌≢◌, refl, ◌∙◌, false, Option, none, some, arith, ℤ, pos, negsuc, zero, int_eq, Str,
  length,
}
use truenas_incus_ctl.Base.Dict.{
  lookup, insert, lookup-insert, lookup-erase, lookup-insert_self, lookup-erase_ne,
}
use truenas_incus_ctl.Json.{Json}
use truenas_incus_ctl.Daemon.Session.{
  TruenasSession, inc_int64, begin_call, end_call, finish_call, answered,
}

inc_int64-ne : (n : ℤ) → n ≢ inc_int64 n
unfolding inc_int64
inc_int64-ne (pos n) e = ground arith
inc_int64-ne (negsuc zero) e = ground arith
inc_int64-ne (negsuc (suc n)) e = ground arith

module _ {F : Type 0} where
  -- An answered call whose id was not in use leaves the session free, and the calls that wait as
  -- they were, whether the answer is a message or an error.
  answered_call_restores :
      (s : TruenasSession F) (v : Json F) (e : Option Str) (i : ℤ)
      → lookup (inc_int64 s.cur_call_id) s.call_map ≡ none
      → let t = (finish_call (begin_call s) (inc_int64 s.cur_call_id) (answered v e)).0 in
        (t.call_in_progress ≡ false) × (lookup i t.call_map ≡ lookup i s.call_map)
  unfolding finish_call begin_call end_call
  answered_call_restores s v none i h = (
    refl,
    ground (
      arith,
      int_eq.beq_iff (inc_int64 s.cur_call_id) i,
      lookup-erase (inc_int64 s.cur_call_id) i
          (insert (inc_int64 s.cur_call_id) (length s.futures) s.call_map),
      lookup-insert (inc_int64 s.cur_call_id) i (length s.futures) s.call_map,
    ),
  )
  answered_call_restores s v (some e) i h = (
    refl,
    ground (
      arith,
      int_eq.beq_iff (inc_int64 s.cur_call_id) i,
      lookup-erase (inc_int64 s.cur_call_id) i
          (insert (inc_int64 s.cur_call_id) (length s.futures) s.call_map),
      lookup-insert (inc_int64 s.cur_call_id) i (length s.futures) s.call_map,
    ),
  )

  -- Two calls on one session: when the first is answered the session is marked as free, though the
  -- second one still waits.
  overlapping_call_frees :
      (s : TruenasSession F) (v : Json F)
      → let first = inc_int64 s.cur_call_id in
        let t = (finish_call (begin_call (begin_call s)) first (answered v none)).0 in
        (t.call_in_progress ≡ false) × ((p : ℕ) × (lookup (inc_int64 first) t.call_map ≡ some p))
  unfolding finish_call begin_call end_call
  overlapping_call_frees s v = (
    refl,
    (
      length (begin_call s).futures,
      lookup-erase_ne _ _ _ (inc_int64-ne (inc_int64 s.cur_call_id)) ∙ lookup-insert_self _ _ _,
    ),
  )
