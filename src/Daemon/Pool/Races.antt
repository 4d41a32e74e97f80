-- ===== src/Daemon/Pool/Races.antt =====
-- core/daemon.go: no two channels share a future, and what the gap between choosing a session and
-- marking it as used lets through.
use truenas_incus_ctl.Base.{
  ℕ, suc, ◌≤◌, ◌<◌, ◌≡◌, refl, sym, ap, ◌∙◌, inl, inr, ◌⊎◌, Bool, false, List, [], ◌∷◌, ◌++◌,
  Option, none, some, arith, Str, str_eq, length, get_elem?, set, if◌then◌else◌, Bool-cases, ◌==◌,
  get_elem?-set_cases, get_elem?-append_cases, length-append, length-set,
}
use mathlib.Core.Option.{some-injective}
use mathlib.Core.Path.{subst}
use truenas_incus_ctl.Base.Dict.{lookup, insert, lookup-insert}
use truenas_incus_ctl.Daemon.Pool.{
  SessionFuture, pending, Daemon, Slot, free, usable, skipped, first_slot, take_slot, choose_in,
  choose_channel, clear_in, delete_session, settle, with_future,
}
use truenas_incus_ctl.Daemon.Pool.Channels.{slots_of, stored}

choose_in-same :
    (d : Daemon) (key : Str) (o : Option (List (Option ℕ)))
    → (choose_in d key o).1.should_create ≡ false
    → (choose_in d key o).0 ≡ d
unfolding choose_in take_slot
choose_in-same d key none e = absurd (cc)
choose_in-same d key (some slots) e = ground arith

-- The choice gives up its locks before `callJson` marks the session: a second request for the key,
-- chosen in between, gets the session that the first one was given.
choose_twice_shares :
    (d : Daemon) (key : Str)
    → (choose_channel d key).1.should_create ≡ false
    → choose_channel (choose_channel d key).0 key ≡ choose_channel d key
unfolding choose_channel
choose_twice_shares d key e =
    let same : (choose_channel d key).0 ≡ d = choose_in-same d key (lookup key d.session_map) e in
    ap (λ x. choose_channel x key) same

-- Every pointer leads to a future, and stands in one slot of one key.
pub record Inv (d : Daemon) : Type 0 where
  pub in_heap :
      (k : Str) (j p : ℕ) → get_elem? (slots_of d k) j ≡ some (some p) → p < length d.futures
  pub unshared :
      (k l : Str) (i j p : ℕ)
      → get_elem? (slots_of d k) i ≡ some (some p)
      → get_elem? (slots_of d l) j ≡ some (some p)
      → (k ≡ l) × (i ≡ j)

pub data Event : Type 0 where
  requests : Str → Event
  deletes : Str → ℕ → Event
  settles : ℕ → SessionFuture → Event
  marks : List Bool → Event

unfoldable pub step : Daemon → Event → Daemon
step d (requests key) = (choose_channel d key).0
step d (deletes key channel) = delete_session d key channel
step d (settles p f) = settle d p f
step d (marks flags) = record d { in_progress = flags }

unfoldable pub run : Daemon → List Event → Daemon
run d [] = d
run d (e ∷ es) = run (step d e) es

abbrev Holds : Daemon → Str → ℕ → ℕ → Type 0
Holds d k j p = get_elem? (slots_of d k) j ≡ some (some p)

-- A change that puts no pointer into a slot keeps the invariant.
Inv-shrink :
    (d d' : Daemon)
    → length d.futures ≤ length d'.futures
    → ((k : Str) (j p : ℕ) → Holds d' k j p → Holds d k j p)
    → Inv d
    → Inv d'
Inv-shrink d d' l h v = record {
  in_heap = λ k j p g. omega (arith, v.in_heap k j p (h k j p g));
  unshared = λ k m i j p g q. v.unshared k m i j p (h k i p g) (h m j p q);
}

-- A new pointer at place `i` of `key`, or an old one.
abbrev NewOrOld : Daemon → Str → ℕ → Str → ℕ → ℕ → Type 0
NewOrOld d key i k j p = ((k ≡ key) × (j ≡ i) × (p ≡ length d.futures)) ⊎ Holds d k j p

both-NewOrOld :
    (d : Daemon) (key : Str) (n : ℕ) (k l : Str) (i j p : ℕ)
    → Inv d
    → NewOrOld d key n k i p
    → NewOrOld d key n l j p
    → (k ≡ l) × (i ≡ j)
both-NewOrOld d key n k l i j p v (inl (a, b, c)) (inl (a', b', c')) = (a ∙ sym a', b ∙ sym b')
both-NewOrOld d key n k l i j p v (inl (a, b, c)) (inr g) =
    absurd (omega (arith, v.in_heap l j p g))
both-NewOrOld d key n k l i j p v (inr g) (inl (a, b, c)) =
    absurd (omega (arith, v.in_heap k i p g))
both-NewOrOld d key n k l i j p v (inr g) (inr h) = v.unshared k l i j p g h

Inv-extend :
    (d d' : Daemon) (key : Str) (n : ℕ)
    → length d'.futures ≡ suc (length d.futures)
    → ((k : Str) (j p : ℕ) → Holds d' k j p → NewOrOld d key n k j p)
    → Inv d
    → Inv d'
Inv-extend d d' key n l h v = record {
  in_heap = λ k j p g. elim (h k j p g) [
    | inl (a, b, c) ↦ omega arith
    | inr old ↦ omega (arith, v.in_heap k j p old)
  ];
  unshared = λ k m i j p g q. both-NewOrOld d key n k m i j p v (h k i p g) (h m j p q);
}

stored-insert :
    (d : Daemon) (key k : Str) (new : List (Option ℕ))
    → stored (lookup k (insert key new d.session_map)) ≡ (if key == k then new else slots_of d k)
stored-insert d key k new = ground (arith, lookup-insert key k new d.session_map)

-- A pointer in the map after a write stands in what was written, or stood there before.
insert_cases :
    (d : Daemon) (key : Str) (new : List (Option ℕ)) (k : Str) (j p : ℕ)
    → get_elem? (stored (lookup k (insert key new d.session_map))) j ≡ some (some p)
    → ((k ≡ key) × (get_elem? new j ≡ some (some p))) ⊎ Holds d k j p
insert_cases d key new k j p g = elim (Bool-cases (key == k)) [
  | inl e ↦ inl (
    sym ((str_eq.beq_iff key k).0 e),
    ap (λ s. get_elem? s j) (sym (stored-insert d key k new ∙ rw e)) ∙ g,
  )
  | inr e ↦ inr (ap (λ s. get_elem? s j) (sym (stored-insert d key k new ∙ rw e)) ∙ g)
]

moved : (d : Daemon) (key k : Str) (j p : ℕ) → k ≡ key → Holds d key j p → Holds d k j p
moved d key k j p e h = subst (λ x. Holds d x j p) (sym e) h

with_future-Inv :
    (d : Daemon) (key : Str) (new : List (Option ℕ)) (i : ℕ)
    → Inv d
    → ((j p : ℕ)
        → get_elem? new j ≡ some (some p)
        → ((j ≡ i) × (p ≡ length d.futures)) ⊎ Holds d key j p)
    → Inv (with_future d key new)
with_future-Inv d key new i v h =
    Inv-extend d _ key i (omega (arith, length-append {0} d.futures (pending ∷ []))) char v
  where
    char : (k : Str) (j p : ℕ) → Holds (with_future d key new) k j p → NewOrOld d key i k j p
    char k j p g = elim (insert_cases d key new k j p g) [
      | inl (e, q) ↦ elim (h j p q) [
        | inl (a, b) ↦ inl (e, a, b)
        | inr old ↦ inr (moved d key k j p e old)
      ]
      | inr old ↦ inr old
    ]

-- What stands in the slots of a key, read off the map.
read_off :
    (d : Daemon) (key : Str) (slots : List (Option ℕ)) (j p : ℕ)
    → slots_of d key ≡ slots
    → get_elem? slots j ≡ some (some p)
    → Holds d key j p
read_off d key slots j p e g = ap (λ s. get_elem? s j) e ∙ g

clear_in-Inv :
    (d : Daemon) (key : Str) (channel : ℕ) (o : Option (List (Option ℕ)))
    → slots_of d key ≡ stored o
    → Inv d
    → Inv (clear_in d key channel o)
unfolding clear_in
clear_in-Inv d key channel none e v = v
clear_in-Inv d key channel (some slots) e v = Inv-shrink d _ (omega arith) char v
  where
    char :
        (k : Str) (j p : ℕ)
        → Holds (record d { session_map = insert key (set slots channel none) d.session_map }) k j p
        → Holds d k j p
    char k j p g = elim (insert_cases d key (set slots channel none) k j p g) [
      | inl (same, q) ↦ elim (get_elem?-set_cases slots channel j none (some p) q) [
        | inl (a, b) ↦ absurd (cc)
        | inr old ↦ moved d key k j p same (read_off d key slots j p e old)
      ]
      | inr old ↦ old
    ]

appended-Inv :
    (d : Daemon) (key : Str) (slots : List (Option ℕ))
    → slots_of d key ≡ slots
    → Inv d
    → Inv (with_future d key (slots ++ some (length d.futures) ∷ []))
appended-Inv d key slots e v =
    with_future-Inv d key (slots ++ some (length d.futures) ∷ []) (length slots) v λ j p g.
      elim (get_elem?-append_cases slots j (some (length d.futures)) (some p) g) [
        | inl (a, b) ↦ inl (a, some-injective p (length d.futures) b)
        | inr old ↦ inr (read_off d key slots j p e old)
      ]

take_slot-Inv :
    (d : Daemon) (key : Str) (slots : List (Option ℕ)) (r : Option (ℕ × Slot))
    → slots_of d key ≡ slots
    → Inv d
    → Inv (take_slot d key slots r).0
unfolding take_slot
take_slot-Inv d key slots (some (i, usable q)) e v = v
take_slot-Inv d key slots (some (i, free)) e v =
    with_future-Inv d key (set slots i (some (length d.futures))) i v λ j p g.
      elim (get_elem?-set_cases slots i j (some (length d.futures)) (some p) g) [
        | inl (a, b) ↦ inl (a, some-injective p (length d.futures) b)
        | inr old ↦ inr (read_off d key slots j p e old)
      ]
take_slot-Inv d key slots (some (i, skipped)) e v = appended-Inv d key slots e v
take_slot-Inv d key slots none e v = appended-Inv d key slots e v

choose_in-Inv :
    (d : Daemon) (key : Str) (o : Option (List (Option ℕ)))
    → slots_of d key ≡ stored o
    → Inv d
    → Inv (choose_in d key o).0
unfolding choose_in
choose_in-Inv d key none e v = appended-Inv d key [] e v
choose_in-Inv d key (some slots) e v = take_slot-Inv d key slots (first_slot d slots 0) e v

length-settled :
    (d : Daemon) (p : ℕ) (f : SessionFuture) → length (settle d p f).futures ≡ length d.futures
unfolding settle
length-settled d p f = length-set d.futures p f

step-Inv : (d : Daemon) (ev : Event) → Inv d → Inv (step d ev)
unfolding step choose_channel delete_session
step-Inv d (requests key) v = choose_in-Inv d key (lookup key d.session_map) refl v
step-Inv d (deletes key channel) v = clear_in-Inv d key channel (lookup key d.session_map) refl v
step-Inv d (settles p f) v =
    Inv-shrink d _ (omega (arith, length-settled d p f)) (unfold settle in λ k j q g. g) v
step-Inv d (marks flags) v = Inv-shrink d _ (omega arith) (λ k j q g. g) v

run-Inv : (d : Daemon) (evs : List Event) → Inv d → Inv (run d evs)
unfolding run
run-Inv d [] v = v
run-Inv d (ev ∷ evs) v = run-Inv (step d ev) evs (step-Inv d ev v)

abbrev pub start : Daemon
start = record { session_map = []; futures = []; in_progress = [] }

start-Inv : Inv start
unfolding lookup
start-Inv = record { in_heap = λ k j p g. absurd (cc); unshared = λ k l i j p g h. absurd (cc) }

-- After any requests, deletions and settled futures of a new daemon, every pointer in the map leads
-- to a future, and no future stands in two channels, of one key or of two.
pub channels_unshared :
    (evs : List Event) (k l : Str) (i j p : ℕ)
    → get_elem? (slots_of (run start evs) k) i ≡ some (some p)
    → get_elem? (slots_of (run start evs) l) j ≡ some (some p)
    → (p < length (run start evs).futures) × (k ≡ l) × (i ≡ j)
channels_unshared evs k l i j p g h =
    let inv = run-Inv start evs start-Inv in
    let same = inv.unshared k l i j p g h in (inv.in_heap k i p g, same.0, same.1)
