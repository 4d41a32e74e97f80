-- ===== src/ClientSession/Retries.antt =====
-- core/client_api.go: how often a request is tried.
use truenas_incus_ctl.Base.{
  ℕ, zero, suc, ◌+◌, ◌-◌, ◌≤◌, ◌≡◌, ◌∙◌, refl, ap, Bool, true, false, if◌then◌else◌, Option, none,
  some, Str, arith,
}
use mathlib.Core.Path.{subst}
use truenas_incus_ctl.ClientSession.{
  ClientSession, Reply, SocketCheck, Attempt, responded, not_removed, removed, Requested,
  broken_off, is_dial_error, before_ping, login_from, next_try, after_login,
  request_and_maybe_retry,
}

-- The attempt fails to reach the daemon, the socket is removed, and `Login` finds the session's
-- settings and the new socket in order.
pub record IsRelaunched (s : ClientSession) (a : Attempt) : Type 0 where
  pub e : Str
  pub c : SocketCheck
  pub is : a ≡ removed e c
  pub dial : is_dial_error e ≡ true
  pub fine : before_ping s c ≡ none

login_unended :
    (s : ClientSession) (c : SocketCheck) (n : ℕ)
    → before_ping s c ≡ none
    → login_from s c n none ≡ none
unfolding login_from
login_unended s c n h = rw (login_from, h) refl

-- A request of which every attempt fails to reach the daemon, while each time the socket is removed and
-- a new daemon is launched, never ends: requestAndMaybeRetry and Login call one another, each with ten
-- retries of its own.
pub relaunches_forever :
    (s : ClientSession) (attempts : ℕ → Attempt) (fuel retries n : ℕ)
    → ((i : ℕ) → IsRelaunched s (attempts i))
    → request_and_maybe_retry fuel s attempts retries n ≡ none
unfolding request_and_maybe_retry login_from after_login
relaunches_forever s attempts zero retries n h = refl
relaunches_forever s attempts (suc fuel) retries n h =
    let ping = relaunches_forever s attempts fuel 10 (suc n) h in
    let again = request_and_maybe_retry fuel s attempts (retries - 1) in
    let login =
      ap (login_from s (h n).c (suc n)) ping ∙ login_unended s (h n).c (suc n) (h n).fine in
    rw (request_and_maybe_retry, (h n).is, (h n).dial)
      (ap (after_login retries (h n).e again) login)

-- The attempt starts no `Login`.
abbrev pub IsPlain : Attempt → Type 0
IsPlain (responded status body e) = Unit
IsPlain (not_removed e) = Unit
IsPlain (removed e c) = is_dial_error e ≡ false

-- The request has ended after at most so many attempts.
abbrev pub EndsBy : ℕ → Option Requested → Type 0
EndsBy m o = (i : ℕ) × (r : Reply) × (o ≡ some (i, r)) × (i ≤ m)

next_try-EndsBy :
    (k n m : ℕ) (e : Str) (again : Option Requested)
    → n ≤ m
    → (1 ≤ k → EndsBy m again)
    → EndsBy m (next_try (suc k) e n again)
unfolding next_try
next_try-EndsBy zero n m e again l h = (n, broken_off e, refl, l)
next_try-EndsBy (suc k) n m e again l h =
    let (i, r, q, le) = h (omega arith) in (i, r, ground (arith, q), le)

if-EndsBy :
    (b : Bool) (m : ℕ) (o p : Option Requested)
    → EndsBy m o
    → EndsBy m p
    → EndsBy m (if b then o else p)
if-EndsBy true m o p h k = h
if-EndsBy false m o p h k = k

one_round :
    (s : ClientSession) (attempts : ℕ → Attempt) (k n : ℕ) (a : Attempt)
    → attempts n ≡ a
    → IsPlain a
    → (1 ≤ k → EndsBy (n + suc k) (request_and_maybe_retry k s attempts (suc k - 1) (suc n)))
    → EndsBy (n + suc k) (request_and_maybe_retry (suc k) s attempts (suc k) n)
unfolding request_and_maybe_retry
one_round s attempts k n (responded status body e) is p h =
    rw (request_and_maybe_retry, is) (suc n, _, refl, omega arith)
one_round s attempts k n (not_removed e) is p h =
    rw (request_and_maybe_retry, is)
      (if-EndsBy (is_dial_error e) (n + suc k) _ _
        (next_try-EndsBy k (suc n) (n + suc k) e _ (omega arith) h)
        (suc n, broken_off e, refl, omega arith))
one_round s attempts k n (removed e c) is p h =
    rw (request_and_maybe_retry, is, p) (suc n, broken_off e, refl, omega arith)

-- A request none of whose attempts starts a `Login` ends, after as many attempts as it has retries at
-- most.
pub request_and_maybe_retry-EndsBy :
    (s : ClientSession) (attempts : ℕ → Attempt) (retries n : ℕ)
    → 1 ≤ retries
    → ((i : ℕ) → IsPlain (attempts i))
    → EndsBy (n + retries) (request_and_maybe_retry retries s attempts retries n)
request_and_maybe_retry-EndsBy s attempts zero n l h = absurd (omega arith)
request_and_maybe_retry-EndsBy s attempts (suc k) n l h =
    let one_less : suc k - 1 ≡ k = omega arith in
    let sum : suc n + k ≡ n + suc k = omega arith in
    one_round s attempts k n (attempts n) refl (h n) λ q. rw one_less (
      subst (λ m. EndsBy m (request_and_maybe_retry k s attempts k (suc n))) sum
        (request_and_maybe_retry-EndsBy s attempts k (suc n) q h))
