-- ===== src/Daemon/Jobs/Delivery.antt =====
-- core/daemon.go: a job's result reaches whoever asks for it, before or after it comes.
use truenas_incus_ctl.Base.{
  ℕ, zero, suc, ◌<◌, ◌≡◌, ◌≢◌, refl, sym, ap, ◌∙◌, ◌⊎◌, inl, inr, true, false, List, [], ◌∷◌, ◌++◌,
  Option, none, some, ℤ, int_eq, is_neg, Str, arith, length, get_elem?, Option-cases,
  get_elem?-append_end,
}
use truenas_incus_ctl.Base.Dict.{lookup, insert, lookup-insert_self}
use truenas_incus_ctl.Json.{Json, null}
use truenas_incus_ctl.Future.{Future, reach, make_future}
use truenas_incus_ctl.Daemon.Session.{TruenasSession, alloc, reach_at}
use truenas_incus_ctl.Daemon.Listen.{job_future, settle_job, complete_call}
use truenas_incus_ctl.Daemon.Jobs.{peek_job, await_job, waits_for, get_job}

module _ {F : Type 0} where
  -- The pointers of the two maps lead to futures.
  pub record InHeap (s : TruenasSession F) : Type 0 where
    pub calls_in : (i : ℤ) (p : ℕ) → lookup i s.call_map ≡ some p → p < length s.futures
    pub jobs_in : (i : ℤ) (p : ℕ) → lookup i s.job_map ≡ some p → p < length s.futures

  get-reach_at :
      (fs : List (Future (Json F) Str)) (p : ℕ) (f : Future (Json F) Str) (v : Json F)
      (e : Option Str)
      → get_elem? fs p ≡ some f
      → get_elem? (reach_at fs p v e) p ≡ some (reach f v e).0
  unfolding reach_at
  get-reach_at [] p f v e h = absurd (cc)
  get-reach_at (x ∷ fs) zero f v e h = ground arith
  get-reach_at (x ∷ fs) (suc p) f v e h = get-reach_at fs p f v e h

  get-reach_at_ne :
      (fs : List (Future (Json F) Str)) (p q : ℕ) (v : Json F) (e : Option Str)
      → p ≢ q
      → get_elem? (reach_at fs p v e) q ≡ get_elem? fs q
  unfolding reach_at
  get-reach_at_ne [] p q v e h = refl
  get-reach_at_ne (x ∷ fs) zero zero v e h = absurd (h refl)
  get-reach_at_ne (x ∷ fs) zero (suc q) v e h = refl
  get-reach_at_ne (x ∷ fs) (suc p) zero v e h = refl
  get-reach_at_ne (x ∷ fs) (suc p) (suc q) v e h = get-reach_at_ne fs p q v e (λ k. h (ap suc k))

  -- No result has come for the job yet.
  abbrev pub NotSettled : TruenasSession F → ℤ → Type 0
  NotSettled s id =
      (p : ℕ) (f : Future (Json F) Str)
      → lookup id s.job_map ≡ some p
      → get_elem? s.futures p ≡ some f
      → f.done ≡ false

  -- The job's place in the map leads to a future that is not done.
  abbrev Open : TruenasSession F → ℤ → ℕ → Type 0
  Open s id p =
      (f : Future (Json F) Str) × (lookup id s.job_map ≡ some p)
      × (get_elem? s.futures p ≡ some f)
      × (f.done ≡ false)

  found :
      (fs : List (Future (Json F) Str)) (p : ℕ)
      → p < length fs
      → (f : Future (Json F) Str) × (get_elem? fs p ≡ some f)
  found [] p h = absurd (omega arith)
  found (x ∷ fs) zero h = (x, refl)
  found (x ∷ fs) (suc p) h = found fs p (omega arith)

  job_future-cases :
      (s : TruenasSession F) (id : ℤ)
      → ((lookup id s.job_map ≡ none)
          × (job_future s id ≡ (
            record s {
              job_map = insert id (length s.futures) s.job_map;
              futures = s.futures ++ make_future null ∷ [];
            },
            length s.futures,
          )))
        ⊎ ((p : ℕ) × (lookup id s.job_map ≡ some p) × (job_future s id ≡ (s, p)))
  unfolding job_future alloc
  job_future-cases s id = elim (Option-cases (lookup id s.job_map)) [
    | inl n ↦ inl (n, rw (n, job_future))
    | inr (p, e) ↦ inr (p, e, rw (e, job_future))
  ]

  job_future-Open :
      (s : TruenasSession F) (id : ℤ)
      → InHeap s
      → NotSettled s id
      → Open (job_future s id).0 id (job_future s id).1
  job_future-Open s id h n = elim (job_future-cases s id) [
    | inl (e, same) ↦ rw same (
      make_future null,
      lookup-insert_self id (length s.futures) s.job_map,
      get_elem?-append_end s.futures (make_future null) [],
      unfold make_future in refl,
    )
    | inr (p, e, same) ↦
        let (f, g) = found s.futures p (h.jobs_in id p e) in rw same (f, e, g, n p f e g)
  ]

  -- Once a job has its future, asking for it changes nothing.
  job_future-known :
      (s : TruenasSession F) (id : ℤ) (p : ℕ)
      → lookup id s.job_map ≡ some p
      → job_future s id ≡ (s, p)
  unfolding job_future
  job_future-known s id p e = rw (e, job_future)

  abbrev pub done_with : Json F → Future (Json F) Str
  done_with v = record { done = true; woken_up = false; value = v; err = none }

  reach-Open :
      (s : TruenasSession F) (id : ℤ) (p : ℕ) (v : Json F)
      → Open s id p
      → get_elem? (reach_at s.futures p v none) p ≡ some (done_with v)
  unfolding reach
  reach-Open s id p v (f, l, g, d) = get-reach_at s.futures p f v none g ∙ rw d

  settle_open :
      (s : TruenasSession F) (id : ℤ) (v : Json F)
      → is_neg id ≡ false
      → settle_job s id v ≡ record (job_future s id).0 {
        futures = reach_at (job_future s id).0.futures (job_future s id).1 v none;
      }
  unfolding settle_job
  settle_open s id v h = rw h

  peek_done :
      (s : TruenasSession F) (id : ℤ) (p : ℕ) (v : Json F)
      → lookup id s.job_map ≡ some p
      → get_elem? s.futures p ≡ some (done_with v)
      → (peek_job s id ≡ (v, none)) × (get_job s p none ≡ some (v, none))
  unfolding peek_job get_job
  peek_done s id p v l g = (rw (l, peek_job) (rw g), rw (g, get_job))

  -- Where the job has its place, the update is put there.
  settled_at :
      (t : TruenasSession F) (id : ℤ) (p : ℕ) (v : Json F)
      → is_neg id ≡ false
      → Open t id p
      → (peek_job (settle_job t id v) id ≡ (v, none))
        × (get_job (settle_job t id v) p none ≡ some (v, none))
  settled_at t id p v h o =
      let known : job_future t id ≡ (t, p) = job_future-known t id p o.1 in
      let same : settle_job t id v ≡ record t { futures = reach_at t.futures p v none } =
        settle_open t id v h
        ∙ ap
            (λ (x : TruenasSession F × ℕ). record x.0 { futures = reach_at x.0.futures x.1 v none })
            known in
      rw same (
        peek_done (record t { futures = reach_at t.futures p v none }) id p v o.1
          (reach-Open t id p v o))

  -- To settle a job is to give it its place first.
  settle_same :
      (s : TruenasSession F) (id : ℤ) (v : Json F)
      → is_neg id ≡ false
      → lookup id (job_future s id).0.job_map ≡ some (job_future s id).1
      → settle_job s id v ≡ settle_job (job_future s id).0 id v
  settle_same s id v h l =
      settle_open s id v h
      ∙ sym (
          settle_open (job_future s id).0 id v h
          ∙ ap
              (λ (x : TruenasSession F × ℕ). record x.0 {
                futures = reach_at x.0.futures x.1 v none;
              })
              (job_future-known (job_future s id).0 id (job_future s id).1 l))

  await_known :
      (s : TruenasSession F) (id : ℤ) (p : ℕ) (f : Future (Json F) Str)
      → lookup id s.job_map ≡ some p
      → get_elem? s.futures p ≡ some f
      → f.done ≡ false
      → await_job s id ≡ (s, waits_for id p)
  unfolding await_job
  await_known s id p f l g d = rw (l, await_job) (rw g (rw d (rw (job_future-known s id p l))))

  await_new :
      (s : TruenasSession F) (id : ℤ)
      → lookup id s.job_map ≡ none
      → await_job s id ≡ ((job_future s id).0, waits_for id (job_future s id).1)
  unfolding await_job
  await_new s id l = rw (l, await_job)

  await_waits :
      (s : TruenasSession F) (id : ℤ)
      → InHeap s
      → NotSettled s id
      → await_job s id ≡ ((job_future s id).0, waits_for id (job_future s id).1)
  await_waits s id h n = elim (job_future-cases s id) [
    | inl (e, same) ↦ await_new s id e
    | inr (p, e, same) ↦
        let (f, g) = found s.futures p (h.jobs_in id p e) in
        rw same (await_known s id p f e g (n p f e g))
  ]

  -- In a session whose maps lead to futures, the result of a job that is not settled yet, and
  -- whose number is not negative, is not lost, whichever comes first. If the update comes first,
  -- `peek_job` answers with it; if `await_job` comes first, it waits at a future in which the
  -- update is then found.
  pub job_delivered :
      (s : TruenasSession F) (id : ℤ) (v : Json F)
      → InHeap s
      → is_neg id ≡ false
      → NotSettled s id
      → (peek_job (settle_job s id v) id ≡ (v, none))
        × ((await_job s id).1 ≡ waits_for id (job_future s id).1)
        × (get_job (settle_job (await_job s id).0 id v) (job_future s id).1 none ≡ some (v, none))
  job_delivered s id v h pos n =
      let o : Open (job_future s id).0 id (job_future s id).1 = job_future-Open s id h n in
      let r = settled_at (job_future s id).0 id (job_future s id).1 v pos o in
      rw (await_waits s id h n) (rw (settle_same s id v pos o.1) r.0, refl, r.1)

  -- The answer to call `id` is put into that call's future alone, if it still waits.
  call_routed :
      (s : TruenasSession F) (id : ℤ) (v : Json F) (p q : ℕ) (f : Future (Json F) Str)
      → is_neg id ≡ false
      → lookup id s.call_map ≡ some p
      → get_elem? s.futures p ≡ some f
      → f.done ≡ false
      → q ≢ p
      → (get_elem? (complete_call s id v).futures p ≡ some (done_with v))
        × (get_elem? (complete_call s id v).futures q ≡ get_elem? s.futures q)
        × ((complete_call s id v).call_map ≡ s.call_map)
  unfolding complete_call reach
  call_routed s id v p q f h l g d n =
      rw (h, l, complete_call)
        (
          get-reach_at s.futures p f v none g ∙ rw d,
          get-reach_at_ne s.futures p q v none (λ e. n (sym e)),
          refl,
        )
