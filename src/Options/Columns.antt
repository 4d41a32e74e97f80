-- ===== src/Options/Columns.antt =====
-- cmd/util_common.go: EnumerateOutputProperties, MakePropertyColumns, GetUsedPropertyColumns and
-- GetTableFormat.
use truenas_incus_ctl.Base.{
  ◌≡◌, inl, inr, refl, ap, ◌∙◌, Bool, true, false, ◌||◌, ◌&&◌, not, List, [], ◌∷◌, ◌++◌, none, some,
  Str, str_eq, ◌==◌, codes, split, is_empty, contains, if◌then◌else◌, arith, ltb, eqb, Bool-cases,
  eq_refl,
}
use truenas_incus_ctl.Base.Dict.{Dict, lookup, keys}
use truenas_incus_ctl.Api.{is_string_true}

-- Go's order on strings.
unfoldable pub str_leb : Str → Str → Bool
str_leb [] t = true
str_leb (a ∷ s) [] = false
str_leb (a ∷ s) (b ∷ t) = ltb a b || (eqb a b && str_leb s t)

-- `slices.Sort` on strings.
unfoldable pub insert_sorted : Str → List Str → List Str
insert_sorted s [] = s ∷ []
insert_sorted s (t ∷ ts) = if str_leb s t then s ∷ t ∷ ts else t ∷ insert_sorted s ts

unfoldable pub sort_strs : List Str → List Str
unfolding insert_sorted
sort_strs [] = []
sort_strs (s ∷ ss) = insert_sorted s (sort_strs ss)

unfoldable pub enumerate_output_properties : Dict Str Str → List Str
enumerate_output_properties properties = elim (lookup (codes "output") properties) [
  | none ↦ []
  | some props_str ↦ if is_empty props_str then [] else split b',' props_str
]

-- The loop over `additional`, with the columns that were seen before.
unfoldable pub uniq_additional : List Str → List Str → List Str
uniq_additional seen [] = []
uniq_additional seen (c ∷ additional) =
    let rest = uniq_additional (c ∷ seen) additional in if contains seen c then rest else c ∷ rest

unfoldable pub make_property_columns : List Str → List Str → List Str
unfolding uniq_additional sort_strs
make_property_columns required additional =
    required ++ sort_strs (uniq_additional required additional)

-- The loop over the keys of all rows.
unfoldable pub row_keys : {V : Type 0} → List (Dict Str V) → List Str
row_keys [] = []
row_keys (row ∷ rows) = keys row ++ row_keys rows

unfoldable pub get_used_property_columns : {V : Type 0} → List (Dict Str V) → List Str → List Str
unfolding row_keys uniq_additional sort_strs
get_used_property_columns rows required =
    required ++ sort_strs (uniq_additional required (row_keys rows))

-- A format or the text of an error.
pub data Format : Type 0 where
  format : Str → Format
  conflict : Str → Format

unfoldable pub get_table_format : Dict Str Str → Format
get_table_format properties =
    let is_json = is_string_true properties (codes "json") in
    let is_compact = is_string_true properties (codes "no_headers") in
    if is_json && is_compact
    then conflict (codes "--json and --no_headers cannot be used together")
    else if is_json
    then format (codes "json")
    else if is_compact
    then format (codes "compact")
    else elim (lookup (codes "format") properties) [ none ↦ format [] | some f ↦ format f ]

-- Each entry is not above the next.
abbrev pub LeadsTo : Str → List Str → Type 0
LeadsTo s [] = Unit
LeadsTo s (t ∷ ts) = str_leb s t ≡ true

unfoldable pub IsSorted : List Str → Type 0
IsSorted [] = Unit
IsSorted (s ∷ ss) = LeadsTo s ss × IsSorted ss

-- No entry stands twice.
unfoldable pub IsDistinct : List Str → Type 0
IsDistinct [] = Unit
IsDistinct (s ∷ ss) = (contains ss s ≡ false) × IsDistinct ss

str_leb-total : (s t : Str) → str_leb s t ≡ false → str_leb t s ≡ true
unfolding str_leb
str_leb-total [] t h = absurd (cc)
str_leb-total (a ∷ s) [] h = refl
str_leb-total (a ∷ s) (b ∷ t) h = ground (arith, str_leb-total s t)

contains-insert_sorted :
    (s : Str) (ts : List Str) (u : Str)
    → contains (insert_sorted s ts) u ≡ ((s == u) || contains ts u)
unfolding insert_sorted
contains-insert_sorted s [] u = refl
contains-insert_sorted s (t ∷ ts) u = ground (arith, contains-insert_sorted s ts u)

contains-sort_strs : (ss : List Str) (u : Str) → contains (sort_strs ss) u ≡ contains ss u
unfolding sort_strs
contains-sort_strs [] u = refl
contains-sort_strs (s ∷ ss) u =
    contains-insert_sorted s (sort_strs ss) u
    ∙ ap (λ (b : Bool). (s == u) || b) (contains-sort_strs ss u)

choose_lists :
    (P : List Str → Type 0) (b : Bool) (xs ys : List Str)
    → (b ≡ true → P xs)
    → (b ≡ false → P ys)
    → P (if b then xs else ys)
choose_lists P true xs ys h k = h refl
choose_lists P false xs ys h k = k refl

insert_sorted-LeadsTo :
    (t s : Str) (ts : List Str) → str_leb t s ≡ true → LeadsTo t ts → LeadsTo t (insert_sorted s ts)
unfolding insert_sorted
insert_sorted-LeadsTo t s [] h l = h
insert_sorted-LeadsTo t s (u ∷ ts) h l =
    choose_lists (LeadsTo t) (str_leb s u) _ _ (λ _. h) (λ _. l)

insert_sorted-IsSorted : (s : Str) (ts : List Str) → IsSorted ts → IsSorted (insert_sorted s ts)
unfolding insert_sorted IsSorted
insert_sorted-IsSorted s [] h = (tt, tt)
insert_sorted-IsSorted s (t ∷ ts) (l, h) =
    choose_lists IsSorted (str_leb s t) _ _ (λ e. (e, (l, h)))
      (λ e. (insert_sorted-LeadsTo t s ts (str_leb-total s t e) l, insert_sorted-IsSorted s ts h))

sort_strs-IsSorted : (ss : List Str) → IsSorted (sort_strs ss)
unfolding sort_strs IsSorted
sort_strs-IsSorted [] = tt
sort_strs-IsSorted (s ∷ ss) = insert_sorted-IsSorted s (sort_strs ss) (sort_strs-IsSorted ss)

insert_sorted-IsDistinct :
    (s : Str) (ts : List Str)
    → contains ts s ≡ false
    → IsDistinct ts
    → IsDistinct (insert_sorted s ts)
unfolding insert_sorted IsDistinct
insert_sorted-IsDistinct s [] c h = (refl, tt)
insert_sorted-IsDistinct s (t ∷ ts) c (d, h) =
    let (n, m) : ((t == s) ≡ false) × (contains ts s ≡ false) = ground (arith, c) in
    choose_lists IsDistinct (str_leb s t) _ _ (λ e. (c, (d, h)))
      (λ e. (
        contains-insert_sorted s ts t
            ∙ ground (arith, n, d, str_eq.beq_iff s t, str_eq.beq_iff t s),
        insert_sorted-IsDistinct s ts m h,
      ))

sort_strs-IsDistinct : (ss : List Str) → IsDistinct ss → IsDistinct (sort_strs ss)
unfolding sort_strs IsDistinct
sort_strs-IsDistinct [] h = tt
sort_strs-IsDistinct (s ∷ ss) (c, h) =
    insert_sorted-IsDistinct s (sort_strs ss) (contains-sort_strs ss s ∙ c)
      (sort_strs-IsDistinct ss h)

-- What the loop keeps: the columns of `additional` that were not seen before, each once.
contains-uniq_additional :
    (seen additional : List Str) (u : Str)
    → contains (uniq_additional seen additional) u
      ≡ (not (contains seen u) && contains additional u)
unfolding uniq_additional
contains-uniq_additional seen [] u = ground arith
contains-uniq_additional seen (c ∷ additional) u =
    let rest = contains-uniq_additional (c ∷ seen) additional u in
    elim (Bool-cases (c == u)) [
      | inl t ↦ ground (arith, rest, t, ap (contains seen) ((str_eq.beq_iff c u).0 t))
      | inr f ↦ ground (arith, rest, f)
    ]

uniq_additional-IsDistinct :
    (seen additional : List Str) → IsDistinct (uniq_additional seen additional)
unfolding uniq_additional IsDistinct
uniq_additional-IsDistinct seen [] = tt
uniq_additional-IsDistinct seen (c ∷ additional) =
    choose_lists IsDistinct (contains seen c) _ _
      (λ e. uniq_additional-IsDistinct (c ∷ seen) additional)
      (λ e. (
        contains-uniq_additional (c ∷ seen) additional c ∙ ground (arith, eq_refl c),
        uniq_additional-IsDistinct (c ∷ seen) additional,
      ))

-- The columns of `make_property_columns` are those that are required, as they stand, and then the
-- others of the list, each once and sorted.
pub make_property_columns_lem :
    (required additional : List Str)
    → (rest : List Str) × (make_property_columns required additional ≡ required ++ rest)
      × IsSorted rest
      × IsDistinct rest
      × ((u : Str) → contains rest u ≡ (not (contains required u) && contains additional u))
unfolding make_property_columns
make_property_columns_lem required additional = (
  sort_strs (uniq_additional required additional),
  refl,
  sort_strs-IsSorted (uniq_additional required additional),
  sort_strs-IsDistinct _ (uniq_additional-IsDistinct required additional),
  λ u.
      contains-sort_strs (uniq_additional required additional) u
      ∙ contains-uniq_additional required additional u,
)
