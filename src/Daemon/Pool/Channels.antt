-- ===== src/Daemon/Pool/Channels.antt =====
-- core/daemon.go: which channel a request gets.
use truenas_incus_ctl.Base.{
  ℕ, zero, suc, ◌+◌, ◌<◌, ◌≡◌, ◌≢◌, refl, sym, ap, inl, inr, ◌⊎◌, true, false, List, [], ◌∷◌, ◌++◌,
  Option, none, some, arith, Str, str_eq, length, get_elem?, set, get_elem?-append_end,
  get_elem?-append_left, get_elem?-set_self, get_elem?-set_ne, get_elem?-lt,
}
use truenas_incus_ctl.Base.Dict.{lookup, lookup-insert_self, lookup-insert_ne}
use mathlib.Core.Path.{subst}
use truenas_incus_ctl.Daemon.Pool.{
  SessionFuture, pending, failed, ready, Daemon, Choice, Slot, free, usable, skipped, peek_session,
  look, first_slot, take_slot, choose_in, choose_channel, with_future,
}

-- The slots of a key; a key that is not there has none.
abbrev pub stored : Option (List (Option ℕ)) → List (Option ℕ)
stored none = []
stored (some slots) = slots

abbrev pub slots_of : Daemon → Str → List (Option ℕ)
slots_of d key = stored (lookup key d.session_map)

-- The future at `p` is a session that no call uses.
abbrev pub IsIdle : Daemon → ℕ → Type 0
IsIdle d p =
    (s : ℕ) × (get_elem? d.futures p ≡ some (ready s)) × (get_elem? d.in_progress s ≡ some false)

-- The slots before `j` are neither free nor idle.
abbrev pub Before : Daemon → List (Option ℕ) → ℕ → Type 0
Before d slots j = (k : ℕ) (o : Option ℕ) → k < j → get_elem? slots k ≡ some o → look d o ≡ skipped

-- What the loop finds, counted from `i`.
data Found (d : Daemon) (slots : List (Option ℕ)) (i : ℕ) : Option (ℕ × Slot) → Type 0 where
  found_free :
      (j k : ℕ)
      → k ≡ i + j
      → get_elem? slots j ≡ some none
      → Before d slots j
      → Found d slots i (some (k, free))
  found_usable :
      (j k p : ℕ)
      → k ≡ i + j
      → get_elem? slots j ≡ some (some p)
      → IsIdle d p
      → Before d slots j
      → Found d slots i (some (k, usable p))
  found_nothing : Before d slots (length slots) → Found d slots i none

Before-cons :
    (d : Daemon) (o : Option ℕ) (slots : List (Option ℕ)) (j : ℕ)
    → look d o ≡ skipped
    → Before d slots j
    → Before d (o ∷ slots) (suc j)
Before-cons d o slots j e b zero q h g = ground arith
Before-cons d o slots j e b (suc k) q h g = b k q (omega arith) g

Found-cons :
    (d : Daemon) (o : Option ℕ) (slots : List (Option ℕ)) (i : ℕ) (r : Option (ℕ × Slot))
    → look d o ≡ skipped
    → Found d slots (suc i) r
    → Found d (o ∷ slots) i r
Found-cons d o slots i _ e (found_free j k h g b) =
    found_free (suc j) k (omega arith) g (Before-cons d o slots j e b)
Found-cons d o slots i _ e (found_usable j k p h g t b) =
    found_usable (suc j) k p (omega arith) g t (Before-cons d o slots j e b)
Found-cons d o slots i _ e (found_nothing b) =
    found_nothing (Before-cons d o slots (length slots) e b)

peek_usable :
    (d : Daemon) (q p : ℕ) (f : Option SessionFuture)
    → get_elem? d.futures q ≡ f
    → peek_session d q f ≡ usable p
    → (q ≡ p) × IsIdle d p
unfolding peek_session
peek_usable d q p none h e = absurd (cc)
peek_usable d q p (some pending) h e = absurd (cc)
peek_usable d q p (some (failed m)) h e = absurd (cc)
peek_usable d q p (some (ready s)) h e = (ground arith, (s, ground arith, ground arith))

-- A slot is usable only for an idle session.
look_usable : (d : Daemon) (o : Option ℕ) (p : ℕ) → look d o ≡ usable p → (o ≡ some p) × IsIdle d p
unfolding look peek_session
look_usable d none p e = absurd (cc)
look_usable d (some q) p e =
    let (same, idle) = peek_usable d q p (get_elem? d.futures q) refl e in (ap some same, idle)

look_free : (d : Daemon) (o : Option ℕ) → look d o ≡ free → o ≡ none
unfolding look peek_session
look_free d none e = refl
look_free d (some q) e = absurd (ground arith)

Slot-cases : (t : Slot) → (t ≡ free) ⊎ ((p : ℕ) × (t ≡ usable p)) ⊎ (t ≡ skipped)
Slot-cases free = inl refl
Slot-cases (usable p) = inr (inl (p, refl))
Slot-cases skipped = inr (inr refl)

first_slot-Found :
    (d : Daemon) (slots : List (Option ℕ)) (i : ℕ) → Found d slots i (first_slot d slots i)
unfolding first_slot
first_slot-Found d [] i = found_nothing (λ k o h g. absurd (omega arith))
first_slot-Found d (o ∷ slots) i = elim (Slot-cases (look d o)) [
  | inl e ↦
      rw (e, first_slot)
        (found_free 0 i (omega arith) (ap some (look_free d o e)) (λ k q h g. absurd (omega arith)))
  | inr (inl (p, e)) ↦
      let (same, idle) = look_usable d o p e in
      rw (e, first_slot)
        (found_usable 0 i p (omega arith) (ap some same) idle (λ k q h g. absurd (omega arith)))
  | inr (inr e) ↦ rw (e, first_slot) (Found-cons d o slots i _ e (first_slot-Found d slots (suc i)))
]

-- The three ways in which a request gets a channel: an idle session, a free place for a new one, or
-- a new place at the end. No slot before the chosen one would have done.
abbrev pub Chosen : Daemon → List (Option ℕ) → Choice → Type 0
Chosen d slots c =
    ((c.should_create ≡ false)
      × (get_elem? slots c.channel ≡ some (some c.future))
      × IsIdle d c.future
      × Before d slots c.channel)
    ⊎ ((c.should_create ≡ true)
        × (c.future ≡ length d.futures)
        × (get_elem? slots c.channel ≡ some none)
        × Before d slots c.channel)
    ⊎ ((c.should_create ≡ true)
        × (c.future ≡ length d.futures)
        × (c.channel ≡ length slots)
        × Before d slots c.channel)

take_slot-Chosen :
    (d : Daemon) (key : Str) (slots : List (Option ℕ)) (r : Option (ℕ × Slot))
    → Found d slots 0 r
    → Chosen d slots (take_slot d key slots r).1
unfolding take_slot
take_slot-Chosen d key slots _ (found_free j k h g b) =
    let e : j ≡ k = omega arith in
    inr
      (inl (refl, refl, subst (λ i. get_elem? slots i ≡ some none) e g, subst (Before d slots) e b))
take_slot-Chosen d key slots _ (found_usable j k p h g t b) =
    let e : j ≡ k = omega arith in
    inl (refl, subst (λ i. get_elem? slots i ≡ some (some p)) e g, t, subst (Before d slots) e b)
take_slot-Chosen d key slots _ (found_nothing b) = inr (inr (refl, refl, refl, b))

-- What is in the map when the lock is given up.
pub record Written (d d' : Daemon) (key : Str) (slots : List (Option ℕ)) (c : Choice) : Type 0 where
  pub at_channel : get_elem? (slots_of d' key) c.channel ≡ some (some c.future)
  pub others :
      (j : ℕ) → j < length slots → j ≢ c.channel → get_elem? (slots_of d' key) j ≡ get_elem? slots j
  pub other_keys : (k : Str) → key ≢ k → slots_of d' k ≡ slots_of d k
  pub in_use : d'.in_progress ≡ d.in_progress
  pub old_futures : (p : ℕ) → p < length d.futures → get_elem? d'.futures p ≡ get_elem? d.futures p

stored-slots :
    (d : Daemon) (key : Str) (slots : List (Option ℕ))
    → slots_of (with_future d key slots) key ≡ slots
stored-slots d key slots = rw (lookup-insert_self key slots d.session_map)

other-slots :
    (d : Daemon) (key k : Str) (slots : List (Option ℕ))
    → key ≢ k
    → slots_of (with_future d key slots) k ≡ slots_of d k
other-slots d key k slots h = rw (lookup-insert_ne key k slots d.session_map h)

with_future-Written :
    (d : Daemon) (key : Str) (old new : List (Option ℕ)) (i : ℕ)
    → get_elem? new i ≡ some (some (length d.futures))
    → ((j : ℕ) → j < length old → j ≢ i → get_elem? new j ≡ get_elem? old j)
    → Written d
        (with_future d key new)
        key
        old
        (record { channel = i; future = length d.futures; should_create = true })
with_future-Written d key old new i g o = record {
  at_channel = rw (stored-slots d key new) g;
  others = λ j h n. rw (stored-slots d key new) (o j h n);
  other_keys = λ k h. other-slots d key k new h;
  in_use = refl;
  old_futures = λ p h. get_elem?-append_left d.futures (pending ∷ []) p h;
}

take_slot-Written :
    (d : Daemon) (key : Str) (slots : List (Option ℕ)) (r : Option (ℕ × Slot))
    → slots_of d key ≡ slots
    → Found d slots 0 r
    → Written d (take_slot d key slots r).0 key slots (take_slot d key slots r).1
unfolding take_slot
take_slot-Written d key slots _ same (found_free j k h g b) =
    with_future-Written d key slots (set slots k (some (length d.futures))) k
      (get_elem?-set_self slots k _ (omega (arith, get_elem?-lt slots j g)))
      (λ i l n. get_elem?-set_ne slots _ (λ e. n (sym e)))
take_slot-Written d key slots _ same (found_usable j k p h g t b) =
    let e : j ≡ k = omega arith in
    record {
      at_channel = rw same (subst (λ i. get_elem? slots i ≡ some (some p)) e g);
      others = λ i l n. rw same;
      other_keys = λ q n. refl;
      in_use = refl;
      old_futures = λ q l. refl;
    }
take_slot-Written d key slots _ same (found_nothing b) =
    with_future-Written d key slots (slots ++ some (length d.futures) ∷ []) (length slots)
      (get_elem?-append_end slots (some (length d.futures)) [])
      (λ j l n. get_elem?-append_left slots _ j l)

choose_in-Chosen :
    (d : Daemon) (key : Str) (o : Option (List (Option ℕ)))
    → slots_of d key ≡ stored o
    → Chosen d (stored o) (choose_in d key o).1
      × Written d (choose_in d key o).0 key (stored o) (choose_in d key o).1
unfolding choose_in
choose_in-Chosen d key none e = (
  inr (inr (refl, refl, refl, λ k o l g. absurd (cc))),
  with_future-Written d key [] (some (length d.futures) ∷ []) 0 refl
      (λ j l n. absurd (omega arith)),
)
choose_in-Chosen d key (some slots) e =
    let found = first_slot-Found d slots 0 in
    (take_slot-Chosen d key slots _ found, take_slot-Written d key slots _ e found)

pub choose_channel-Chosen :
    (d : Daemon) (key : Str)
    → Chosen d (slots_of d key) (choose_channel d key).1
      × Written d (choose_channel d key).0 key (slots_of d key) (choose_channel d key).1
unfolding choose_channel
choose_channel-Chosen d key = choose_in-Chosen d key (lookup key d.session_map) refl
