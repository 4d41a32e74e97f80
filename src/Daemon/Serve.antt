-- ===== src/Daemon/Serve.antt =====
-- core/daemon.go, `serveImpl`, and `maybeCreateSessionAndCall` around the choice of a channel.
use truenas_incus_ctl.Base.{
  ℕ, ◌<◌, ◌≡◌, ◌≢◌, ◌⊎◌, length, length-append, get_elem?-set_ne, refl, sym, ap, ◌∙◌, Bool, true,
  false, ◌||◌, List, [], ◌∷◌, ◌++◌, append_assoc, Option, none, some, arith, Str, str_eq, ◌==◌,
  codes, is_empty, to_lower, get_elem?, set, if◌then◌else◌, Bool-cases, get_elem?-set_self,
  get_elem?-lt, inl, inr,
}
use truenas_incus_ctl.Base.Dict.{lookup, lookup-insert_self, lookup-insert_ne}
use truenas_incus_ctl.Json.{null}
use truenas_incus_ctl.Daemon.Session.{Reply}
use truenas_incus_ctl.Daemon.Pool.{
  Slot, free, usable, skipped, pending, first_slot, take_slot, choose_in, Daemon, Choice, failed,
  ready, choose_channel, delete_session, clear_in, settle,
}
use truenas_incus_ctl.Daemon.Pool.Channels.{slots_of, stored, choose_channel-Chosen}

-- The request's headers "TNC-Host-Url", "TNC-Api-Key" and so on; one that is missing is empty.
pub record Headers : Type 0 where
  pub host : Str
  pub key : Str
  pub user : Str
  pub pass : Str
  pub method : Str
  pub allow_insecure : Str

pub record Login : Type 0 where
  pub session_key : Str
  pub method_login : Str
  pub params_login : List Str
  pub insecure : Bool

pub data Admission : Type 0 where
  refused : Str → Admission
  pong : Admission
  admitted : Login → Admission

unfoldable pub is_insecure : Str → Bool
is_insecure s = if is_empty s then false else to_lower s == codes "true"

-- `fmt.Sprint(allowInsecure)`
abbrev pub bool_text : Bool → Str
bool_text true = codes "true"
bool_text false = codes "false"

unfoldable pub login_of : Headers → Admission
unfolding is_insecure
login_of h =
    let insecure = is_insecure h.allow_insecure in
    if is_empty h.key
    then (if is_empty h.user || is_empty h.pass
        then refused (codes "TNC-Api-Key was not provided, nor TNC-Username nor TNC-Password")
        else admitted (record {
          session_key = (h.host ++ h.user ++ h.pass) ++ bool_text insecure;
          method_login = codes "auth.login";
          params_login = h.user ∷ h.pass ∷ [];
          insecure = insecure;
        }))
    else admitted (record {
      session_key = (h.host ++ h.key) ++ bool_text insecure;
      method_login = codes "auth.login_with_api_key";
      params_login = h.key ∷ [];
      insecure = insecure;
    })

-- The tests of `serveImpl` before it reads the body.
unfoldable pub admit : Headers → Admission
unfolding login_of
admit h =
    if is_empty h.method
    then refused (codes "TNC-Call-Method was not provided")
    else if h.method == codes "tnc_daemon.ping"
    then pong
    else if is_empty h.host
    then refused (codes "TNC-Host-Url was not provided")
    else login_of h

-- What `createSession` gives, to the request that created the channel.
pub data Created : Type 0 where
  login_failed : Str → Created
  logged_in : ℕ → Created

unfoldable pub finish_create : Daemon → Choice → Created → Daemon
finish_create d c (login_failed e) = settle d c.future (failed e)
finish_create d c (logged_in s) = settle d c.future (ready s)

-- What a request has in the end: no session, or the reply of `callJson`.
pub data Ended (F : Type 0) : Type 0 where
  no_session : Str → Ended F
  called : Reply F → Ended F

-- The end of `maybeCreateSessionAndCall`; the caller tries again if `should_retry` is set.
unfoldable pub conclude : {F : Type 0} → Daemon → Str → ℕ → Ended F → Daemon × Reply F
conclude d key channel (no_session e) =
    (delete_session d key channel, record { message = null; error = some e; should_retry = false })
conclude d key channel (called r) = (if r.should_retry then delete_session d key channel else d, r)

clear_in-slot :
    (d : Daemon) (key : Str) (channel : ℕ) (o : Option (List (Option ℕ))) (p : Option ℕ)
    → slots_of d key ≡ stored o
    → get_elem? (slots_of d key) channel ≡ some p
    → get_elem? (slots_of (clear_in d key channel o) key) channel ≡ some none
unfolding clear_in
clear_in-slot d key channel none p e g = absurd (cc)
clear_in-slot d key channel (some slots) p e g =
    ap (λ s. get_elem? (stored s) channel)
      (lookup-insert_self key (set slots channel none) d.session_map)
    ∙ get_elem?-set_self slots channel none
        (get_elem?-lt slots channel (ap (λ s. get_elem? s channel) (sym e) ∙ g))

-- A request that has to log in waits at a new future.
take_slot-new :
    (d : Daemon) (key : Str) (slots : List (Option ℕ)) (r : Option (ℕ × Slot))
    → (take_slot d key slots r).1.should_create ≡ true
    → ((take_slot d key slots r).1.future ≡ length d.futures)
      × ((take_slot d key slots r).0.futures ≡ d.futures ++ pending ∷ [])
unfolding take_slot
take_slot-new d key slots none h = (refl, refl)
take_slot-new d key slots (some (i, free)) h = (refl, refl)
take_slot-new d key slots (some (i, skipped)) h = (refl, refl)
take_slot-new d key slots (some (i, usable q)) h = absurd (cc)

choose_in-new :
    (d : Daemon) (key : Str) (o : Option (List (Option ℕ)))
    → (choose_in d key o).1.should_create ≡ true
    → ((choose_in d key o).1.future ≡ length d.futures)
      × ((choose_in d key o).0.futures ≡ d.futures ++ pending ∷ [])
unfolding choose_in
choose_in-new d key none h = (refl, refl)
choose_in-new d key (some slots) h = take_slot-new d key slots (first_slot d slots 0) h

clear_in-other :
    (d : Daemon) (key k : Str) (channel : ℕ) (o : Option (List (Option ℕ)))
    → key ≢ k
    → slots_of (clear_in d key channel o) k ≡ slots_of d k
unfolding clear_in
clear_in-other d key k channel none h = refl
clear_in-other d key k channel (some slots) h =
    ap stored (lookup-insert_ne key k (set slots channel none) d.session_map h)

clear_in-futures :
    (d : Daemon) (key : Str) (channel : ℕ) (o : Option (List (Option ℕ)))
    → (clear_in d key channel o).futures ≡ d.futures
unfolding clear_in
clear_in-futures d key channel none = refl
clear_in-futures d key channel (some slots) = refl

-- A request that has to log in, and whose login fails with nothing else in between, gives its channel
-- back: its place in the map is free, the requests that wait at its future find the error there, and
-- the channels of the other keys and all futures of before are as they were.
pub failed_login_frees :
    (F : Type 0) (d : Daemon) (key e k : Str) (p : ℕ)
    → (choose_channel d key).1.should_create ≡ true
    → key ≢ k
    → p < length d.futures
    → let (t, c) = choose_channel d key in
      let u =
        (conclude {F = F} (finish_create t c (login_failed e)) key c.channel (no_session e)).0 in
      (get_elem? (slots_of u key) c.channel ≡ some none)
      × (get_elem? u.futures c.future ≡ some (failed e))
      × (slots_of u k ≡ slots_of d k)
      × (get_elem? u.futures p ≡ get_elem? d.futures p)
unfolding conclude finish_create settle delete_session choose_channel
failed_login_frees F d key e k p login other old =
    let t = (choose_channel d key).0 in
    let c = (choose_channel d key).1 in
    let written = (choose_channel-Chosen d key).1 in
    let (at, grown) = choose_in-new d key (lookup key d.session_map) login in
    let s = settle t c.future (failed e) in
    let o = lookup key s.session_map in
    let size = length-append d.futures (pending ∷ []) in
    let inside : c.future < length t.futures = rw (at, grown) (omega (arith, size)) in
    let kept = clear_in-futures s key c.channel o in
    (
      clear_in-slot s key c.channel o (some c.future) refl written.at_channel,
      rw kept (get_elem?-set_self t.futures c.future (failed e) inside),
      clear_in-other s key k c.channel o other ∙ written.other_keys k other,
      rw kept (
          get_elem?-set_ne t.futures (failed e) (λ q. omega (arith, at, old, q))
          ∙ written.old_futures p old),
    )

-- The text that the key is made of: it does not say where the user name ends.
abbrev credentials : Headers → Str
credentials h = h.host ++ (if is_empty h.key then h.user ++ h.pass else h.key)

abbrev key_of : Headers → Str
key_of h = credentials h ++ bool_text (is_insecure h.allow_insecure)

abbrev pub session_key_of : Admission → Option Str
session_key_of (refused e) = none
session_key_of pong = none
session_key_of (admitted l) = some l.session_key

login_of-key :
    (h : Headers)
    → (session_key_of (login_of h) ≡ none) ⊎ (session_key_of (login_of h) ≡ some (key_of h))
unfolding login_of
login_of-key h = elim (Bool-cases (is_empty h.key)) [
  | inl k ↦ elim (Bool-cases (is_empty h.user || is_empty h.pass)) [
    | inl u ↦ inl (rw (k, u) refl)
    | inr u ↦ inr (simp (k, u, append_assoc))
  ]
  | inr k ↦ inr (rw k refl)
]

admit-key :
    (h : Headers) → (session_key_of (admit h) ≡ none) ⊎ (session_key_of (admit h) ≡ some (key_of h))
unfolding admit
admit-key h = ground (arith, login_of-key h)

-- The session key of an admitted request says nothing of where the user name ends: two requests
-- without an API key, to one host and with the same wish about TLS, whose user names and passwords
-- run together to one text have the same session key, whoever they log in as.
pub session_key_collides :
    (g h : Headers) (k : Str)
    → g.host ≡ h.host
    → g.allow_insecure ≡ h.allow_insecure
    → g.key ≡ []
    → h.key ≡ []
    → g.user ++ g.pass ≡ h.user ++ h.pass
    → session_key_of (admit g) ≡ some k
    → (session_key_of (admit h) ≡ none) ⊎ (session_key_of (admit h) ≡ some k)
session_key_collides g h k a b c d e f =
    let same : key_of g ≡ key_of h = rw (a, b, c, d, e) refl in
    elim (admit-key g) [
      | inl n ↦ absurd (cc)
      | inr n ↦ elim (admit-key h) [
        | inl m ↦ inl m
        | inr m ↦ inr (m ∙ ap some (sym same) ∙ sym n ∙ f)
      ]
    ]
