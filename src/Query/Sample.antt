-- ===== src/Query/Sample.antt =====
-- A server that filters objects by their name, for runs of the query of cmd/util_common.go.
use truenas_incus_ctl.Base.{
  ℕ, ◌≡◌, refl, Bool, false, ◌&&◌, ◌||◌, List, [], ◌∷◌, Str, str_eq, codes, ◌==◌, ap, has_prefix,
  str_eqb,
}
use truenas_incus_ctl.Json.{Json, str, arr, Items, nil, cons}
use truenas_incus_ctl.Query.Filter.{to_items}
use truenas_incus_ctl.Query.Groups.{any}
use truenas_incus_ctl.Query.Denotation.{FilterLaws}

-- What the server documents, for objects that are the text of their name: "=" and "in" compare, and
-- "^" is a prefix.
abbrev values_of : Items ℕ → List (Json ℕ)
values_of nil = []
values_of (cons j js) = j ∷ values_of js

values_of-to_items : (js : List (Json ℕ)) → values_of (to_items js) ≡ js
values_of-to_items [] = refl
values_of-to_items (j ∷ js) = ap (λ (l : List (Json ℕ)). j ∷ l) (values_of-to_items js)

abbrev pub named : Str
named = codes "tank/a"

abbrev pub is_named : Str → Json ℕ → Bool
is_named key (str s) = s == named
is_named key _ = false

unfoldable pub passes : Json ℕ → Bool
passes (arr (cons (str op) (cons (arr (cons a (cons b nil))) nil))) =
    let left = passes a in let right = passes b in (op == codes "OR") && (left || right)
passes (arr (cons (str key) (cons (str op) (cons (arr values) nil)))) =
    (op == codes "in") && any (is_named key) (values_of values)
passes (arr (cons (str key) (cons (str op) (cons (str s) nil)))) =
    ((op == codes "=") && (s == named)) || ((op == codes "^") && has_prefix named s)
passes _ = false

pub passes-FilterLaws : FilterLaws ℕ passes is_named
unfolding passes str_eqb
passes-FilterLaws = record {
  or_law = λ a b. refl;
  in_law = λ key values. ap (any (is_named key)) (values_of-to_items values);
}
