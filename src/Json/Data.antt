-- ===== src/Json/Data.antt =====
-- Values, and Go's map and slice operations on them.
use truenas_incus_ctl.Base.{
  ℕ, suc, ◌+◌, ◌≤◌, ◌≡◌, refl, Bool, List, [], ◌∷◌, Option, none, some, arith, ℤ, Str, str_eq, ◌==◌,
  if◌then◌else◌,
}

mutual
  -- `float` is a float64; `int64` and `int` are Go's types of those names.
  pub data Json (F : Type 0) : Type 0 where
    null : Json F
    bool : Bool → Json F
    str : Str → Json F
    float : F → Json F
    int64 : ℤ → Json F
    int : ℤ → Json F
    arr : Items F → Json F
    obj : Fields F → Json F

  pub data Items (F : Type 0) : Type 0 where
    nil : Items F
    cons : Json F → Items F → Items F

  -- A map[string]interface{}, in the order of one iteration over it.
  pub data Fields (F : Type 0) : Type 0 where
    end : Fields F
    field : Str → Json F → Fields F → Fields F

-- What the program needs of a float64: `int64(f)`, `fmt.Sprint(f)`, `float64(n)` and the test
-- `f == math.Floor(f)`.
pub record FloatOps (F : Type 0) : Type 0 where
  pub to_int64 : F → ℤ
  pub print : F → Str
  pub of_int : ℤ → F
  pub is_whole : F → Bool

module _ {F : Type 0} where
  abbrev pub items : Items F → List (Json F)
  items nil = []
  items (cons j js) = j ∷ items js

  -- `v, exists := m[key]`
  unfoldable pub get_field : Str → Fields F → Option (Json F)
  get_field k end = none
  get_field k (field j v fs) = if j == k then some v else get_field k fs

  -- `m[key] = v`
  unfoldable pub set_field : Str → Json F → Fields F → Fields F
  set_field k v end = field k v end
  set_field k v (field j w fs) = if j == k then field k v fs else field j w (set_field k v fs)

  -- `delete(m, key)`
  unfoldable pub delete_field : Str → Fields F → Fields F
  delete_field k end = end
  delete_field k (field j w fs) =
      let rest = delete_field k fs in if j == k then rest else field j w rest

  -- The key-value pairs of a map, in the order of the iteration.
  abbrev pub entries : Fields F → List (Str × Json F)
  entries end = []
  entries (field k v fs) = (k, v) ∷ entries fs

  -- `s, _ := v.(string)`
  abbrev pub as_str : Option (Json F) → Str
  as_str (some (str s)) = s
  as_str _ = []

  pub get-set_field :
      (k j : Str) (v : Json F) (fs : Fields F)
      → get_field j (set_field k v fs) ≡ (if k == j then some v else get_field j fs)
  unfolding get_field set_field
  get-set_field k j v end = refl
  get-set_field k j v (field i w fs) =
      ground
        (arith, str_eq.beq_iff k j, str_eq.beq_iff i k, str_eq.beq_iff i j, get-set_field k j v fs)

-- The nesting of a value: the fuel of a recursion over parts that a lookup finds.
unfoldable mutual
  pub depth : {F : Type 0} → Json F → ℕ
  depth null = 0
  depth (bool b) = 0
  depth (str s) = 0
  depth (float f) = 0
  depth (int64 n) = 0
  depth (int n) = 0
  depth (arr js) = suc (depth_items js)
  depth (obj fs) = suc (depth_fields fs)

  pub depth_items : {F : Type 0} → Items F → ℕ
  depth_items nil = 0
  depth_items (cons j js) = depth j + depth_items js

  pub depth_fields : {F : Type 0} → Fields F → ℕ
  depth_fields end = 0
  depth_fields (field k v fs) = depth v + depth_fields fs

pub depth-get_field :
    {F : Type 0} (k : Str) (fs : Fields F) (v : Json F)
    → get_field k fs ≡ some v
    → depth v ≤ depth_fields fs
unfolding get_field depth
depth-get_field k end v e = absurd (cc)
depth-get_field k (field j w fs) v e = ground (arith, depth-get_field k fs v)
