-- ===== src/Query/Groups.antt =====
-- cmd/util_common.go: the grouping of a query's entries by type, in `makeQueryFilter`.
use truenas_incus_ctl.Base.{
  ◌≡◌, ◌≢◌, refl, sym, ap, ◌∙◌, Bool, true, false, ◌&&◌, ◌||◌, List, [], ◌∷◌, ◌++◌, some, Str,
  str_eq, ◌==◌, if◌then◌else◌, contains, contains-append, eq_refl, arith, Bool-cases, inl, inr,
}
use truenas_incus_ctl.Base.Dict.{
  Dict, lookup, insert, has, lookup-insert, lookup-insert_self, lookup-insert_ne,
}
use truenas_incus_ctl.Query.Filter.{Groups, or_empty, open_type, add_entry, group}

abbrev pub any {ℓ} : {A : Type ℓ} → (A → Bool) → List A → Bool
any p [] = false
any p (x ∷ xs) = p x || any p xs

module _ {ℓ} {A : Type ℓ} where
  any-append : (p : A → Bool) (xs ys : List A) → any p (xs ++ ys) ≡ (any p xs || any p ys)
  any-append p [] ys = refl
  any-append p (x ∷ xs) ys = ground (arith, any-append p xs ys)

abbrev pub all {ℓ} : {A : Type ℓ} → (A → Bool) → List A → Bool
all p [] = true
all p (x ∷ xs) = p x && all p xs

abbrev pub is_none {ℓ} : {A : Type ℓ} → List A → Bool
is_none [] = true
is_none (_ ∷ _) = false

pub all_one : {a b : Bool} → a ≡ b → (a && true) ≡ b
all_one e = ground arith

pub or_right : (a : Bool) {b : Bool} → b ≡ true → (a || b) ≡ true
or_right a e = ground arith

pub any-same {ℓ} :
    {A : Type ℓ} {p q : A → Bool} → ((x : A) → p x ≡ q x) → (xs : List A) → any p xs ≡ any q xs
any-same h [] = refl
any-same h (x ∷ xs) = rw (h x, any-same h xs) refl

pub or_cong : (a : Bool) {b c : Bool} → b ≡ c → (a || b) ≡ (a || c)
or_cong a e = ap (λ b. a || b) e

pub or_assoc : (a b c : Bool) → ((a || b) || c) ≡ (a || (b || c))
or_assoc a b c = ground arith

or_swap : (a : Bool) {b c : Bool} → b ≡ c → (a || b) ≡ (c || a)
or_swap a e = ground arith

-- The groups know a type exactly if it is listed.
abbrev pub Listed : Groups → Type 0
Listed g = (t : Str) → has t g.entries_of ≡ contains g.uniq_types t

has-insert :
    (t u : Str) (v : List Str) (d : Dict Str (List Str))
    → has u (insert t v d) ≡ ((t == u) || has u d)
unfolding has
has-insert t u v d = ground (arith, lookup-insert t u v d)

open_type-Listed : (g : Groups) (t : Str) → Listed g → Listed (open_type g t)
unfolding open_type
open_type-Listed g t l u = elim (Bool-cases (has t g.entries_of)) [
  | inl h ↦ rw h (l u)
  | inr h ↦ rw h (
      has-insert t u [] g.entries_of
      ∙ or_swap (t == u) (l u)
      ∙ sym (contains-append g.uniq_types t u))
]

open_type-has : (g : Groups) (t : Str) → has t (open_type g t).entries_of ≡ true
unfolding open_type
open_type-has g t = elim (Bool-cases (has t g.entries_of)) [
  | inl h ↦ rw h h
  | inr h ↦ rw h (has-insert t t [] g.entries_of ∙ ap (λ b. b || has t g.entries_of) (eq_refl t))
]

open_type-entries :
    (g : Groups) (t u : Str)
    → or_empty (lookup u (open_type g t).entries_of) ≡ or_empty (lookup u g.entries_of)
unfolding open_type has
open_type-entries g t u = ground (arith, str_eq.beq_iff t u, lookup-insert t u [] g.entries_of)

add_entry-Listed : (g : Groups) (p : Str × Str) → Listed g → Listed (add_entry g p)
unfolding add_entry
add_entry-Listed g (e, t) l u =
    let o = open_type g t in
    let put = has-insert t u (or_empty (lookup t o.entries_of) ++ e ∷ []) o.entries_of in
    let opened = open_type-Listed g t l u in
    let known = open_type-has g t in ground (arith, put, opened, known, str_eq.beq_iff t u)

open_type-uniq :
    (g : Groups) (t : Str)
    → has t g.entries_of ≡ false
    → (open_type g t).uniq_types ≡ g.uniq_types ++ t ∷ []
unfolding open_type
open_type-uniq g t h = rw h refl

no_entries :
    (g : Groups) (t : Str) → has t g.entries_of ≡ false → or_empty (lookup t g.entries_of) ≡ []
unfolding has
no_entries g t h = ground arith

abbrev pub is_nil : List Str → Bool
is_nil [] = true
is_nil (_ ∷ _) = false

is_nil-append : (xs : List Str) (y : Str) → is_nil (xs ++ y ∷ []) ≡ false
is_nil-append [] y = refl
is_nil-append (x ∷ xs) y = refl

-- Every type that is listed has an entry.
abbrev pub Filled : Groups → Type 0
Filled g =
    (t : Str) → contains g.uniq_types t ≡ true → is_nil (or_empty (lookup t g.entries_of)) ≡ false

open_type-contains :
    (g : Groups) (t u : Str)
    → t ≢ u
    → contains (open_type g t).uniq_types u ≡ contains g.uniq_types u
unfolding open_type
open_type-contains g t u n = elim (Bool-cases (has t g.entries_of)) [
  | inl h ↦ rw h refl
  | inr h ↦ rw h (ground (arith, contains-append g.uniq_types t u, str_eq.beq_iff t u))
]

add_entry-Filled : (g : Groups) (p : Str × Str) → Filled g → Filled (add_entry g p)
unfolding add_entry
add_entry-Filled g (e, t) f u c =
    let o = open_type g t in
    let new = or_empty (lookup t o.entries_of) ++ e ∷ [] in
    elim (Bool-cases (t == u)) [
      | inl h ↦
          let found : lookup u (insert t new o.entries_of) ≡ some new =
            lookup-insert t u new o.entries_of
            ∙ ap (λ b. if b then some new else lookup u o.entries_of) h in
          ap (λ l. is_nil (or_empty l)) found ∙ is_nil-append (or_empty (lookup t o.entries_of)) e
      | inr h ↦
          let n : t ≢ u = λ r. absurd (ground (arith, str_eq.beq_iff t u)) in
          ap (λ l. is_nil (or_empty l)) (lookup-insert_ne t u new o.entries_of n)
          ∙ ap is_nil (open_type-entries g t u)
          ∙ f u (sym (open_type-contains g t u n) ∙ c)
    ]

pub group-Filled : (g : Groups) (ps : List (Str × Str)) → Filled g → Filled (group g ps)
unfolding group
group-Filled g [] f = f
group-Filled g (p ∷ ps) f = group-Filled (add_entry g p) ps (add_entry-Filled g p f)

open_type-keeps :
    (g : Groups) (t u : Str)
    → contains g.uniq_types u ≡ true
    → contains (open_type g t).uniq_types u ≡ true
unfolding open_type
open_type-keeps g t u c = elim (Bool-cases (has t g.entries_of)) [
  | inl h ↦ rw h c
  | inr h ↦ rw h (ground (arith, contains-append g.uniq_types t u, c))
]

group-keeps :
    (g : Groups) (ps : List (Str × Str)) (u : Str)
    → contains g.uniq_types u ≡ true
    → contains (group g ps).uniq_types u ≡ true
unfolding group add_entry
group-keeps g [] u c = c
group-keeps g ((e, t) ∷ ps) u c = group-keeps (add_entry g (e, t)) ps u (open_type-keeps g t u c)

-- The type of the first entry is listed.
pub group-first :
    (g : Groups) (e t : Str) (ps : List (Str × Str))
    → Listed g
    → contains (group g ((e, t) ∷ ps)).uniq_types t ≡ true
unfolding group add_entry
group-first g e t ps l =
    group-keeps (add_entry g (e, t)) ps t (sym (open_type-Listed g t l t) ∙ open_type-has g t)

module _ (accepts : Str → Str → Bool) where
  abbrev pub accepted : Groups → List Str → Bool
  accepted g ts = any (λ t. any (accepts t) (or_empty (lookup t g.entries_of))) ts

  accepted-open_type :
      (g : Groups) (t : Str) (ts : List Str) → accepted (open_type g t) ts ≡ accepted g ts
  accepted-open_type g t [] = refl
  accepted-open_type g t (u ∷ ts) = rw (open_type-entries g t u, accepted-open_type g t ts) refl

  unfoldable pub total : Groups → Bool
  total g = accepted g g.uniq_types

  total-open_type : (g : Groups) (t : Str) → total (open_type g t) ≡ total g
  unfolding total open_type
  total-open_type g t = elim (Bool-cases (has t g.entries_of)) [
    | inl h ↦ rw h refl
    | inr h ↦
        ap (accepted (open_type g t)) (open_type-uniq g t h)
        ∙ accepted-open_type g t (g.uniq_types ++ t ∷ [])
        ∙ any-append _ g.uniq_types (t ∷ [])
        ∙ rw (no_entries g t h) (ground arith)
  ]

  accepted-cell :
      (d : Dict Str (List Str)) (e t u : Str)
      → any (accepts u) (or_empty (lookup u (insert t (or_empty (lookup t d) ++ e ∷ []) d)))
        ≡ (any (accepts u) (or_empty (lookup u d)) || ((u == t) && accepts t e))
  accepted-cell d e t u = elim (Bool-cases (u == t)) [
    | inl h ↦
        let q : u ≡ t = (str_eq.beq_iff u t).0 h in
        rw (h, q, lookup-insert_self t (or_empty (lookup t d) ++ e ∷ []) d)
          (any-append (accepts t) (or_empty (lookup t d)) (e ∷ []) ∙ ground arith)
    | inr h ↦
        let q : t ≢ u = λ r. absurd (ground (arith, str_eq.beq_iff u t)) in
        rw (h, lookup-insert_ne t u (or_empty (lookup t d) ++ e ∷ []) d q) (ground arith)
  ]

  accepted-put :
      (d : Dict Str (List Str)) (e t : Str) (us ts : List Str)
      → accepted
          (record { entries_of = insert t (or_empty (lookup t d) ++ e ∷ []) d; uniq_types = us })
          ts
        ≡ (accepted (record { entries_of = d; uniq_types = us }) ts
            || (contains ts t && accepts t e))
  accepted-put d e t us [] = refl
  accepted-put d e t us (u ∷ ts) =
      let here = accepted-cell d e t u in
      let rest = accepted-put d e t us ts in ground (arith, here, rest)

  total-add_entry :
      (g : Groups) (e t : Str) → Listed g → total (add_entry g (e, t)) ≡ (total g || accepts t e)
  unfolding total add_entry
  total-add_entry g e t l =
      let o = open_type g t in
      let put = accepted-put o.entries_of e t o.uniq_types o.uniq_types in
      let known = sym (open_type-Listed g t l t) ∙ open_type-has g t in
      let same : accepted o o.uniq_types ≡ accepted g g.uniq_types = total-open_type g t in
      put ∙ rw (known, same) refl

  pub total-group :
      (g : Groups) (ps : List (Str × Str))
      → Listed g
      → total (group g ps) ≡ (total g || any (λ p. accepts p.1 p.0) ps)
  unfolding group
  total-group g [] l = ground arith
  total-group g ((e, t) ∷ ps) l =
      let rest = total-group (add_entry g (e, t)) ps (add_entry-Listed g (e, t) l) in
      let here = total-add_entry g e t l in
      rest ∙ rw here (or_assoc (total g) (accepts t e) (any (λ p. accepts p.1 p.0) ps))
