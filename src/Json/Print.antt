-- ===== src/Json/Print.antt =====
-- Go's `fmt.Sprint` of such a value. A map is printed with its keys in byte order.
use truenas_incus_ctl.Base.{
  Bool, true, false, List, [], ◌∷◌, ◌++◌, Str, codes, ltb, eqb, if◌then◌else◌, join,
}
use truenas_incus_ctl.Base.Decimal.{itoa}
use truenas_incus_ctl.Json.Data.{
  Json, null, bool, str, float, int64, int, arr, obj, Items, nil, cons, Fields, end, field,
  FloatOps,
}

-- `a < b` on Go strings.
unfoldable pub str_ltb : Str → Str → Bool
str_ltb s [] = false
str_ltb [] (b ∷ t) = true
str_ltb (a ∷ s) (b ∷ t) = if ltb a b then true else if eqb a b then str_ltb s t else false

abbrev pub Printed : Type 0
Printed = Str × Str

unfoldable pub insert_printed : Printed → List Printed → List Printed
unfolding str_ltb
insert_printed p [] = p ∷ []
insert_printed p (q ∷ qs) = if str_ltb p.0 q.0 then p ∷ q ∷ qs else q ∷ insert_printed p qs

unfoldable pub pair_texts : List Printed → List Str
pair_texts [] = []
pair_texts ((k, v) ∷ ps) = (k ++ b':' ∷ v) ∷ pair_texts ps

unfoldable mutual
  unfolding itoa join insert_printed pair_texts

  pub sprint : {F : Type 0} → FloatOps F → Json F → Str
  sprint ops null = codes "<nil>"
  sprint ops (bool true) = codes "true"
  sprint ops (bool false) = codes "false"
  sprint ops (str s) = s
  sprint ops (float f) = ops.print f
  sprint ops (int64 n) = itoa n
  sprint ops (int n) = itoa n
  sprint ops (arr js) = b'[' ∷ join (codes " ") (sprint_items ops js) ++ codes "]"
  sprint ops (obj fs) =
      codes "map[" ++ join (codes " ") (pair_texts (sprint_fields ops fs)) ++ codes "]"

  pub sprint_items : {F : Type 0} → FloatOps F → Items F → List Str
  sprint_items ops nil = []
  sprint_items ops (cons j js) = sprint ops j ∷ sprint_items ops js

  pub sprint_fields : {F : Type 0} → FloatOps F → Fields F → List Printed
  sprint_fields ops end = []
  sprint_fields ops (field k v fs) = insert_printed (k, sprint ops v) (sprint_fields ops fs)
