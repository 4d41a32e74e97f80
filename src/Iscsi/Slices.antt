-- ===== src/Iscsi/Slices.antt =====
-- The positions and slices of cmd/iscsi_util.go, in texts made of known parts.
use truenas_incus_ctl.Base.{
  ℕ, suc, ◌+◌, ◌-◌, ◌<◌, ◌≡◌, refl, ap, ◌∙◌, true, ◌&&◌, [], ◌∷◌, ◌++◌, none, some, Str, index_of,
  last_index_of, length, length-append, take, drop, eqb, leb, arith, str_eq, take-length-append,
}
use truenas_incus_ctl.Options.Splitting.{Lacks}
use truenas_incus_ctl.Iscsi.Listings.{slice, slice_from}

eqb_self : (c : ℕ) → eqb c c ≡ true
eqb_self c = ground arith

pub index_of-append : (c : ℕ) (s t : Str) → Lacks c s → index_of c (s ++ c ∷ t) ≡ some (length s)
unfolding index_of
index_of-append c [] t h = ground arith
index_of-append c (x ∷ s) t (h, l) = rw (index_of, h, index_of-append c s t l) refl

last_index_of-Lacks : (c : ℕ) (s : Str) → Lacks c s → last_index_of c s ≡ none
unfolding last_index_of
last_index_of-Lacks c [] h = refl
last_index_of-Lacks c (x ∷ s) (h, l) = rw (last_index_of, last_index_of-Lacks c s l, h) refl

pub last_index_of-append :
    (c : ℕ) (s t : Str) → Lacks c t → last_index_of c (s ++ c ∷ t) ≡ some (length s)
unfolding last_index_of
last_index_of-append c [] t h = rw (last_index_of, last_index_of-Lacks c t h, eqb_self c) refl
last_index_of-append c (x ∷ s) t h = rw (last_index_of, last_index_of-append c s t h) refl

drop-length : (p t : Str) → drop (length p) (p ++ t) ≡ t
drop-length [] t = refl
drop-length (x ∷ p) t = drop-length p t

pub drop-past : (p : Str) (c : ℕ) (t : Str) → drop (suc (length p)) (p ++ c ∷ t) ≡ t
drop-past [] c t = refl
drop-past (x ∷ p) c t = drop-past p c t

-- A slice that stands in the middle.
pub slice-middle :
    (p m q : Str) (a b : ℕ)
    → a ≡ length p
    → b ≡ length p + length m
    → slice a b (p ++ (m ++ q)) ≡ some m
unfolding slice
slice-middle p m q a b e f =
    let guard : (leb a b && leb b (length (p ++ (m ++ q)))) ≡ true =
      ground (arith, e, f, length-append p (m ++ q), length-append m q) in
    let size : b - a ≡ length m = omega (arith, e, f) in
    let cut : take (b - a) (drop a (p ++ (m ++ q))) ≡ m =
      ap (λ (n : ℕ). take (b - a) (drop n (p ++ (m ++ q)))) e
      ∙ ap (take (b - a)) (drop-length p (m ++ q))
      ∙ ap (λ (n : ℕ). take n (m ++ q)) size
      ∙ take-length-append m q in
    rw (slice, guard) (ap (λ (t : Str). some t) cut)

pub slice-out : (s : Str) (a b : ℕ) → b < a → slice a b s ≡ none
unfolding slice
slice-out s a b h = ground (arith, h)

pub slice_from-middle : (p t : Str) (a : ℕ) → a ≡ length p → slice_from a (p ++ t) ≡ some t
unfolding slice_from
slice_from-middle p t a e =
    let guard : leb a (length (p ++ t)) ≡ true = ground (arith, e, length-append p t) in
    rw (slice_from, guard)
      (ap (λ (u : Str). some u) (ap (λ (n : ℕ). drop n (p ++ t)) e ∙ drop-length p t))
