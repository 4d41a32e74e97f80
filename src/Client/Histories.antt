-- ===== src/Client/Histories.antt =====
-- truenas_api/truenas_api.go: calls of many threads and the messages that `listen` reads, one step
-- at a time.
use truenas_incus_ctl.Base.{
  ℕ, suc, ◌<◌, ◌≤◌, ◌^◌, ◌-◌, ◌≡◌, refl, sym, ap, ◌∙◌, ◌⊎◌, inl, inr, Bool, true, false, List,
  Option, none, some, ℤ, pos, int_eq, Str, codes, arith, if◌then◌else◌, Bool-cases, Option-cases,
}
use mathlib.Core.Path.{subst}
use mathlib.Core.Option.{some-injective}
use truenas_incus_ctl.Daemon.Session.{inc_int64}
use truenas_incus_ctl.Base.Dict.{Dict, lookup, insert, lookup-insert_cases, lookup-erase_kept}
use truenas_incus_ctl.Json.{
  Json, null, bool, str, int64, int, arr, obj, float, Fields, FloatOps, get_field,
}
use truenas_incus_ctl.Api.{Run, returns, panics}
use truenas_incus_ctl.Client.Jobs.{Jobs, is_owned_job}
use truenas_incus_ctl.Client.Listen.{
  Client, Notice, Handled, goes_on, is_stuck, has_panicked, as_object, as_float, is_update,
  handle_message, answer_call, send_message, collection_update, update_job, update_of,
  update_with_progress, after_update,
}
use truenas_incus_ctl.Client.Calls.{
  answered, call_result, received, new_client, begin_call, end_call, close,
}
use truenas_incus_ctl.Client.Requests.{track_job}

module _ {F : Type 0} where
  -- An update of a job leaves the calls as they are.
  abbrev SameCalls : Client F → Handled F → Type 0
  SameCalls c (goes_on d ns) = (d.call_id ≡ c.call_id) × (d.pending ≡ c.pending)
  SameCalls c _ = Unit

  module _ (ops : FloatOps F) where
    after_update-SameCalls :
        (c : Client F) (job_id : ℤ) (percent : F) (state description : Str)
        (r : Run (Jobs F × Option Str))
        → SameCalls c (after_update ops c job_id percent state description r)
    unfolding after_update
    after_update-SameCalls c job_id percent state description panics = tt
    after_update-SameCalls c job_id percent state description (returns (jobs, sent)) = (refl, refl)

    update_with_progress-SameCalls :
        (c : Client F) (job_id : ℤ) (fields : Fields F) (progress : Option (Fields F))
        → SameCalls c (update_with_progress ops c job_id fields progress)
    unfolding update_with_progress
    update_with_progress-SameCalls c job_id fields none = tt
    update_with_progress-SameCalls c job_id fields (some progress) =
        after_update-SameCalls c job_id _ _ _ _

    choose-SameCalls :
        (c : Client F) (b : Bool) (h k : Handled F)
        → SameCalls c h
        → SameCalls c k
        → SameCalls c (if b then h else k)
    choose-SameCalls c true h k p q = p
    choose-SameCalls c false h k p q = q

    update_of-SameCalls :
        (c : Client F) (id : Option F) (fields : Option (Fields F))
        → SameCalls c (update_of ops c id fields)
    unfolding update_of update_job
    update_of-SameCalls c none fields = tt
    update_of-SameCalls c (some id) none = tt
    update_of-SameCalls c (some id) (some fields) =
        choose-SameCalls c c.has_jobs_cb _ _ (refl, refl)
          (choose-SameCalls c (is_owned_job c.jobs (ops.to_int64 id)) _ _
            (update_with_progress-SameCalls c _ fields _) (refl, refl))

    collection_update-SameCalls :
        (c : Client F) (params : Option (Fields F)) → SameCalls c (collection_update ops c params)
    unfolding collection_update
    collection_update-SameCalls c none = tt
    collection_update-SameCalls c (some params) = update_of-SameCalls c _ _

    -- The message has a number as its id.
    abbrev pub HasId : Fields F → ℤ → Type 0
    HasId r id = (f : F) × (get_field (codes "id") r ≡ some (float f)) × (ops.to_int64 f ≡ id)

    -- The calls are as they were, or the one with the message's id, whose channel was empty, has it.
    abbrev Delivered : Client F → Fields F → Client F → Type 0
    Delivered c r d =
        (d.call_id ≡ c.call_id)
        × ((d.pending ≡ c.pending)
            ⊎ ((id : ℤ) × HasId r id
                × (lookup id c.pending ≡ some none)
                × (d.pending ≡ insert id (some r) c.pending)))

    abbrev Delivers : Client F → Fields F → Handled F → Type 0
    Delivers c r (goes_on d ns) = Delivered c r d
    Delivers c r _ = Unit

    SameCalls-Delivers :
        (c : Client F) (r : Fields F) (h : Handled F) → SameCalls c h → Delivers c r h
    SameCalls-Delivers c r (goes_on d ns) (e, f) = (e, inl f)
    SameCalls-Delivers c r is_stuck h = tt
    SameCalls-Delivers c r has_panicked h = tt

    send_message-Delivers :
        (c : Client F) (id : ℤ) (r : Fields F) (o : Option (Option (Fields F)))
        → HasId r id
        → lookup id c.pending ≡ o
        → Delivers c r (send_message ops c id r o)
    unfolding send_message
    send_message-Delivers c id r none h e = (refl, inl refl)
    send_message-Delivers c id r (some (some m)) h e = tt
    send_message-Delivers c id r (some none) h e = (refl, inr (id, h, e, refl))

    answer_call-Delivers :
        (c : Client F) (r : Fields F) (v : Option (Json F))
        → get_field (codes "id") r ≡ v
        → Delivers c r (answer_call ops c r (as_float ops v))
    unfolding answer_call as_float
    answer_call-Delivers c r none e = (refl, inl refl)
    answer_call-Delivers c r (some (float f)) e = send_message-Delivers c _ r _ (f, e, refl) refl
    answer_call-Delivers c r (some null) e = (refl, inl refl)
    answer_call-Delivers c r (some (bool b)) e = (refl, inl refl)
    answer_call-Delivers c r (some (str b)) e = (refl, inl refl)
    answer_call-Delivers c r (some (int64 b)) e = (refl, inl refl)
    answer_call-Delivers c r (some (int b)) e = (refl, inl refl)
    answer_call-Delivers c r (some (arr b)) e = (refl, inl refl)
    answer_call-Delivers c r (some (obj b)) e = (refl, inl refl)

    choose-Delivers :
        (c : Client F) (r : Fields F) (b : Bool) (h k : Handled F)
        → Delivers c r h
        → Delivers c r k
        → Delivers c r (if b then h else k)
    choose-Delivers c r true h k p q = p
    choose-Delivers c r false h k p q = q

    handle_message-Delivers : (c : Client F) (r : Fields F) → Delivers c r (handle_message ops c r)
    unfolding handle_message
    handle_message-Delivers c r =
        choose-Delivers c r (is_update ops r) _ _
          (SameCalls-Delivers c r _
            (collection_update-SameCalls c (as_object ops (get_field (codes "params") r))))
          (answer_call-Delivers c r _ refl)

    handled_lem :
        (c : Client F) (r : Fields F) {d : Client F} {ns : List (Notice F)}
        → handle_message ops c r ≡ goes_on d ns
        → Delivered c r d
    handled_lem c r e = subst (Delivers c r) e (handle_message-Delivers c r)

    -- Clients after so many calls: calls begin and end, messages are read, jobs are tracked, and the
    -- client is closed.
    pub data Reach : ℕ → Client F → Type 0 where
      starts : (has_jobs_cb : Bool) → Reach 0 (new_client has_jobs_cb)
      begins : {n : ℕ} {c : Client F} → Reach n c → Reach (suc n) (begin_call c).0
      ends : {n : ℕ} {c : Client F} (id : ℤ) → Reach n c → Reach n (end_call c id)
      reads :
          {n : ℕ} {c d : Client F} (r : Fields F) (ns : List (Notice F))
          → Reach n c
          → handle_message ops c r ≡ goes_on d ns
          → Reach n d
      tracks :
          {n : ℕ} {c : Client F} (job_id : ℤ) (method : Str) (has_callback : Bool)
          → Reach n c
          → Reach n (track_job ops c job_id method has_callback)
      closes :
          {n : ℕ} {c : Client F} (write_error conn_error : Option Str)
          → Reach n c
          → Reach n (close c write_error conn_error).0

    -- What holds of the calls that wait: their ids are the numbers up to that of the last call, and a
    -- channel holds nothing or a message with the id of its call.
    abbrev Waiting : ℕ → Client F → Type 0
    Waiting n c =
        (c.call_id ≡ pos n)
        × ((id : ℤ) (v : Option (Fields F))
            → lookup id c.pending ≡ some v
            → ((k : ℕ) × (id ≡ pos k) × (k ≤ n)) × ((m : Fields F) → v ≡ some m → HasId m id))

    next_id : (n : ℕ) → n < 2 ^ 63 - 1 → inc_int64 (pos n) ≡ pos (suc n)
    unfolding inc_int64
    next_id n h = ground arith

    begin_call-Waiting :
        (n : ℕ) (c : Client F) → n < 2 ^ 63 - 1 → Waiting n c → Waiting (suc n) (begin_call c).0
    unfolding begin_call
    begin_call-Waiting n c h (e, w) =
        let q : inc_int64 c.call_id ≡ pos (suc n) = ap inc_int64 e ∙ next_id n h in
        (
          q,
          λ id v l. elim (lookup-insert_cases (inc_int64 c.call_id) id none v c.pending l) [
            | inl (k, f) ↦ ((suc n, sym k ∙ q, omega arith), λ m g. absurd (cc))
            | inr f ↦ let ((k, g, o), a) = w id v f in ((k, g, omega (arith, o)), a)
          ],
        )

    read-Waiting :
        (n : ℕ) (c d : Client F) (r : Fields F) → Delivered c r d → Waiting n c → Waiting n d
    read-Waiting n c d r (e, inl p) (f, w) =
        (e ∙ f, λ id v l. w id v (ap (λ (m : Dict ℤ (Option (Fields F))). lookup id m) (sym p) ∙ l))
    read-Waiting n c d r (e, inr (id, h, l, p)) (f, w) = (
      e ∙ f,
      λ j v q.
          elim (lookup-insert_cases id j (some r) v c.pending
            (ap (λ (m : Dict ℤ (Option (Fields F))). lookup j m) (sym p) ∙ q)) [
              | inl (same, value) ↦ (
                subst (λ (i : ℤ). (k : ℕ) × (i ≡ pos k) × (k ≤ n)) same ((w id none l).0),
                λ m g.
                    subst (λ (i : ℤ). HasId m i) same
                      (subst (λ (s : Fields F). HasId s id) (some-injective r m (value ∙ g)) h),
              )
              | inr o ↦ w j v o
            ],
    )

    track_job-Waiting :
        (n : ℕ) (c : Client F) (job_id : ℤ) (method : Str) (b : Bool)
        → Waiting n c
        → Waiting n (track_job ops c job_id method b)
    unfolding track_job
    track_job-Waiting n c job_id method b w = elim (Bool-cases c.has_jobs_cb) [
      | inl t ↦ rw (track_job, t) w
      | inr f ↦ rw (track_job, f) w
    ]

    close-Waiting :
        (n : ℕ) (c : Client F) (e f : Option Str) → Waiting n c → Waiting n (close c e f).0
    unfolding close
    close-Waiting n c e f w = elim (Bool-cases c.is_closed) [
      | inl t ↦ rw (close, t) w
      | inr g ↦ rw (close, g) w
    ]

    Reach-Waiting : {n : ℕ} {c : Client F} → Reach n c → n < 2 ^ 63 → Waiting n c
    unfolding new_client end_call lookup
    Reach-Waiting (starts b) h = (refl, λ id v l. absurd (cc))
    Reach-Waiting {n = suc n} (begins {c = c} r) h =
        begin_call-Waiting n c (omega (arith, h)) (Reach-Waiting r (omega (arith, h)))
    Reach-Waiting {n = n} (ends {c = c} id r) h =
        let (e, w) = Reach-Waiting r h in (e, λ j v l. w j v (lookup-erase_kept id j v c.pending l))
    Reach-Waiting {n = n} (reads {c = c} {d = d} r ns p e) h =
        read-Waiting n c d r (handled_lem c r e) (Reach-Waiting p h)
    Reach-Waiting {n = n} (tracks {c = c} job_id method b p) h =
        track_job-Waiting n c job_id method b (Reach-Waiting p h)
    Reach-Waiting {n = n} (closes {c = c} e f p) h = close-Waiting n c e f (Reach-Waiting p h)

  pending_new :
      (ops : FloatOps F) (n : ℕ) (c : Client F)
      → n < 2 ^ 63 - 1
      → Waiting ops n c
      → lookup (begin_call c).1 c.pending ≡ none
  unfolding begin_call
  pending_new ops n c h (e, w) = elim (Option-cases (lookup (inc_int64 c.call_id) c.pending)) [
    | inl f ↦ f
    | inr (v, f) ↦
        let ((k, g, o), _) = w (inc_int64 c.call_id) v f in
        let p : pos (suc n) ≡ pos k = sym (ap inc_int64 e ∙ next_id ops n h) ∙ g in
        absurd (ground (arith, p, o))
  ]

  answered-held :
      (c : Client F) (id : ℤ) (m : Fields F)
      → call_result c id none ≡ answered m
      → lookup id c.pending ≡ some (some m)
  unfolding call_result received
  answered-held c id m e = ground arith

  -- After fewer than 2 ^ 63 - 1 calls of a new client, with messages read, calls ended, jobs tracked
  -- and the client closed at any moments between, the next call gets an id that no waiting call has,
  -- and a call that is answered is answered by a message with the call's own id.
  pub calls_kept_apart :
      (ops : FloatOps F) {n : ℕ} {c : Client F}
      → Reach ops n c
      → n < 2 ^ 63 - 1
      → (lookup (begin_call c).1 c.pending ≡ none)
        × ((id : ℤ) (m : Fields F) → call_result c id none ≡ answered m → HasId ops m id)
  calls_kept_apart ops {n = n} {c = c} r h =
      let w = Reach-Waiting ops r (omega (arith, h)) in
      (pending_new ops n c h w, λ id m e. (w.1 id (some m) (answered-held c id m e)).1 m refl)
