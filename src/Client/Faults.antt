-- ===== src/Client/Faults.antt =====
-- truenas_api/truenas_api.go: which messages end the program, and which answers log a client in.
use truenas_incus_ctl.Base.{
  is_empty, false, [], ◌∷◌, ◌≡◌, ◌≢◌, refl, sym, ◌↔◌, ◌⊎◌, inl, inr, true, Option, none, some, ℤ,
  int_eq, Str, str_eq, codes, arith, Bool-cases,
}
use mathlib.Core.Path.{subst}
use mathlib.Core.Option.{some-injective}
use truenas_incus_ctl.Json.{bool, str, nil, cons, Items, Fields, FloatOps, get_field}
use truenas_incus_ctl.Client.Listen.{
  Client, has_panicked, as_object, as_float, is_update, update_of, collection_update, answer_call,
  send_message, update_job, handle_message,
}
use truenas_incus_ctl.Client.Calls.{Called, answered}
use truenas_incus_ctl.Client.Requests.{login, login_call, login_answer, is_json_true}

module _ {F : Type 0} (ops : FloatOps F) where
  -- The parameters of an update are no object, or one whose id is no number or whose fields are no
  -- object.
  abbrev pub IsMalformed : Option (Fields F) → Type 0
  IsMalformed params =
      (params ≡ none)
      ⊎ ((p : Fields F) × (params ≡ some p)
          × ((as_float ops (get_field (codes "id") p) ≡ none)
              ⊎ (as_object ops (get_field (codes "fields") p) ≡ none)))

  send_message-no_panic :
      (c : Client F) (id : ℤ) (r : Fields F) (o : Option (Option (Fields F)))
      → send_message ops c id r o ≢ has_panicked
  unfolding send_message
  send_message-no_panic c id r none = λ e. absurd (cc)
  send_message-no_panic c id r (some none) = λ e. absurd (cc)
  send_message-no_panic c id r (some (some m)) = λ e. absurd (cc)

  answer_call-no_panic :
      (c : Client F) (r : Fields F) (id : Option F) → answer_call ops c r id ≢ has_panicked
  unfolding answer_call
  answer_call-no_panic c r none = λ e. absurd (cc)
  answer_call-no_panic c r (some id) = send_message-no_panic c _ r _

  update_of-panics_iff :
      (c : Client F) (id : Option F) (fields : Option (Fields F))
      → c.has_jobs_cb ≡ true
      → (update_of ops c id fields ≡ has_panicked) ↔ ((id ≡ none) ⊎ (fields ≡ none))
  unfolding update_of update_job
  update_of-panics_iff c none fields h = (λ e. inl refl, λ e. refl)
  update_of-panics_iff c (some id) none h = (λ e. inr refl, λ e. refl)
  update_of-panics_iff c (some id) (some fields) h = ground arith

  collection_update-panics_iff :
      (c : Client F) (params : Option (Fields F))
      → c.has_jobs_cb ≡ true
      → (collection_update ops c params ≡ has_panicked) ↔ IsMalformed params
  unfolding collection_update
  collection_update-panics_iff c none h = (λ e. inl refl, λ e. refl)
  collection_update-panics_iff c (some p) h =
      let inner =
        update_of-panics_iff c (as_float ops (get_field (codes "id") p))
          (as_object ops (get_field (codes "fields") p)) h in
      (
        λ e. inr (p, refl, inner.0 e),
        λ m. elim m [
          | inl e ↦ absurd (cc)
          | inr (q, e, d) ↦ inner.1 (
              subst
                (λ (k : Fields F).
                  (as_float ops (get_field (codes "id") k) ≡ none)
                  ⊎ (as_object ops (get_field (codes "fields") k) ≡ none))
                (sym (some-injective p q e)) d)
        ],
      )

  -- `handle_message`, for a client with a callback for jobs, as the sessions make it: a message
  -- panics exactly if it is an update of a job whose parameters are no object, or an object whose
  -- `id` is no number or whose `fields` are no object.
  pub handle_message-panics_iff :
      (c : Client F) (r : Fields F)
      → c.has_jobs_cb ≡ true
      → (handle_message ops c r ≡ has_panicked)
        ↔ ((is_update ops r ≡ true) × IsMalformed (as_object ops (get_field (codes "params") r)))
  unfolding handle_message
  handle_message-panics_iff c r h = elim (Bool-cases (is_update ops r)) [
    | inl t ↦
        let inner =
          collection_update-panics_iff c (as_object ops (get_field (codes "params") r)) h in
        rw (handle_message, t) (λ e. (refl, inner.0 e), λ (_, m). inner.1 m)
    | inr f ↦
        rw (handle_message, f)
          (
            λ e. absurd (answer_call-no_panic c r (as_float ops (get_field (codes "id") r)) e),
            λ (e, _). absurd (cc),
          )
  ]

  -- The answer to a login is a success.
  abbrev Accepts : Called F → Type 0
  Accepts a =
      (r : Fields F) × (a ≡ answered r)
      × (get_field (codes "error") r ≡ none)
      × (get_field (codes "result") r ≡ some (bool true))

  login_answer-ok_iff : (a : Called F) → (login_answer ops a ≡ none) ↔ Accepts a
  unfolding login_answer is_json_true
  login_answer-ok_iff a = ground arith

  -- `login` has no error exactly if the call with the API key, if there is one, or else the call with
  -- the user name and the password, if there are both, is answered with no `error` and with `true` as
  -- `result`.
  pub login-ok_iff :
      (username password api_key : Str) (call : Str → Items F → Called F)
      → (login ops username password api_key call ≡ none) ↔ (
          (r : Fields F) × (((is_empty api_key ≡ false)
              × (call (codes "auth.login_with_api_key") (cons (str api_key) nil) ≡ answered r))
            ⊎ ((is_empty api_key ≡ true)
                × (is_empty username ≡ false)
                × (is_empty password ≡ false)
                × (call (codes "auth.login") (cons (str username) (cons (str password) nil))
                    ≡ answered r)))
          × (get_field (codes "error") r ≡ none)
          × (get_field (codes "result") r ≡ some (bool true)))
  unfolding login login_call
  login-ok_iff username password (c ∷ k) call =
      let asked = call (codes "auth.login_with_api_key") (cons (str (c ∷ k)) nil) in
      let (there, back) = login_answer-ok_iff asked in
      (
        λ e. let (r, a, p, q) = there e in (r, inl (refl, a), p, q),
        λ (r, o, p, q). elim o [ inl (f, a) ↦ back (r, a, p, q) | inr (f, g, h, a) ↦ absurd (cc) ],
      )
  login-ok_iff (u ∷ us) (p ∷ ps) [] call =
      let asked = call (codes "auth.login") (cons (str (u ∷ us)) (cons (str (p ∷ ps)) nil)) in
      let (there, back) = login_answer-ok_iff asked in
      (
        λ e. let (r, a, p, q) = there e in (r, inr (refl, refl, refl, a), p, q),
        λ (r, o, p, q). elim o [ inl (f, a) ↦ absurd (cc) | inr (f, g, h, a) ↦ back (r, a, p, q) ],
      )
  login-ok_iff [] password [] call = (
    λ e. absurd (cc),
    λ (r, o, p, q). elim o [ inl (f, a) ↦ absurd (cc) | inr (f, g, h, a) ↦ absurd (cc) ],
  )
  login-ok_iff (u ∷ us) [] [] call = (
    λ e. absurd (cc),
    λ (r, o, p, q). elim o [ inl (f, a) ↦ absurd (cc) | inr (f, g, h, a) ↦ absurd (cc) ],
  )
