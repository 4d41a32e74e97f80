-- ===== src/Table/Write.antt =====
-- core/print_data.go: `WriteListCsv`, `WriteListTable`, `writeTable`. A builder is the text that is
-- written to it. A slice `buf[0:n]` past the end of the buffer is `none`, as is an index out of range.
use truenas_incus_ctl.Base.{
  ℕ, zero, suc, ◌+◌, ◌-◌, ◌/◌, ◌%◌, Bool, true, false, ◌||◌, not, List, [], ◌∷◌, ◌++◌, Option, none,
  some, map, Str, codes, is_empty, length, replicate, take, leb, ltb, if◌then◌else◌, join, ◌>>=◌,
  get_elem?, String,
}
use truenas_incus_ctl.Json.{Json, str, Fields, FloatOps, get_field, sprint}

module _ {F : Type 0} (ops : FloatOps F) where
  -- A value that is a string is written as it is, another one by `fmt.Sprint`.
  unfoldable pub cell_text : Json F → Str
  cell_text (str s) = s
  cell_text v = sprint ops v

  unfoldable pub csv_cell : Fields F → Str → Str
  unfolding cell_text
  csv_cell props c = elim (get_field c props) [ none ↦ codes "-" | some v ↦ cell_text v ]

  unfoldable pub is_hit : Fields F → Str → Bool
  is_hit props c = elim (get_field c props) [ none ↦ false | some _ ↦ true ]

  unfoldable pub any_hit : Fields F → List Str → Bool
  unfolding is_hit
  any_hit props [] = false
  any_hit props (c ∷ cs) = is_hit props c || any_hit props cs

  -- The loop of `WriteListCsv` over the rows: one without a column that is asked for is left out.
  unfoldable pub csv_rows : List (Fields F) → List Str → Str
  unfolding csv_cell any_hit
  csv_rows [] columns = []
  csv_rows (props ∷ rest) columns =
      let later = csv_rows rest columns in
      if any_hit props columns
      then join (codes "\t") (map (csv_cell props) columns) ++ codes "\n" ++ later
      else later

  unfoldable pub write_list_csv : List (Fields F) → List Str → Bool → Str
  unfolding csv_rows
  write_list_csv [] columns use_headers = []
  write_list_csv (p ∷ ps) [] use_headers = []
  write_list_csv (p ∷ ps) (c ∷ cs) use_headers =
      (if use_headers then join (codes "\t") (c ∷ cs) ++ codes "\n" else [])
      ++ csv_rows (p ∷ ps) (c ∷ cs)

  unfoldable pub table_cell : Fields F → Str → Str
  unfolding cell_text
  table_cell props c = elim (get_field c props) [ none ↦ [] | some v ↦ cell_text v ]

  -- The `allStrings` of `WriteListTable`, row after row.
  unfoldable pub row_strings : List (Fields F) → List Str → List Str
  unfolding table_cell
  row_strings [] columns = []
  row_strings (props ∷ rest) columns = map (table_cell props) columns ++ row_strings rest columns

-- `buf[0:n]`
unfoldable pub slice_to : ℕ → Str → Option Str
slice_to n buf = if leb n (length buf) then some (take n buf) else none

abbrev pub max_of : ℕ → ℕ → ℕ
max_of a b = if ltb a b then b else a

-- One row of the loop that sets `columnWidths`: `idx` is `i*nCols+j`.
unfoldable pub widen_row : List Str → ℕ → List ℕ → Option (List ℕ)
widen_row all idx [] = some []
widen_row all idx (w ∷ ws) = do
  s ← get_elem? all idx
  rest ← widen_row all (suc idx) ws
  some (max_of w (length s) ∷ rest)

unfoldable pub widen : List Str → ℕ → ℕ → ℕ → List ℕ → Option (List ℕ)
unfolding widen_row
widen all n zero idx ws = some ws
widen all n (suc rows) idx ws = do vs ← widen_row all idx ws; widen all n rows (idx + n) vs

unfoldable pub widest_from : ℕ → List ℕ → ℕ
widest_from m [] = m
widest_from m (w ∷ ws) = widest_from (max_of m w) ws

unfoldable pub widest : List ℕ → Option ℕ
unfolding widest_from
widest [] = none
widest (w ∷ ws) = some (widest_from w ws)

-- The text of a cell and its padding, between the two spaces.
unfoldable pub padded : Bool → Str → ℕ → Str → Option Str
unfolding slice_to
padded header spaces w s =
    let sp = w - length s in
    if ltb w (length s)
    then none
    else if header
    then (do
      left ← slice_to (sp / 2) spaces
      right ← slice_to (sp / 2 + sp % 2) spaces
      some (left ++ s ++ right))
    else (do right ← slice_to sp spaces; some (s ++ right))

abbrev pub bar : Bool → String → Str
bar first c = if first then [] else codes c

-- The cells of one row.
unfoldable pub row_text : Bool → Str → List Str → Bool → ℕ → List ℕ → Option Str
unfolding padded
row_text header spaces all first idx [] = some []
row_text header spaces all first idx (w ∷ ws) = do
  s ← get_elem? all idx
  cell ← padded header spaces w s
  rest ← row_text header spaces all false (suc idx) ws
  some (bar first "|" ++ b' ' ∷ cell ++ b' ' ∷ rest)

-- Whether `hits` is above zero after the cells of a row that is not the header.
unfoldable pub row_hits : List Str → ℕ → ℕ → Bool
row_hits all idx zero = false
row_hits all idx (suc n) =
    elim (get_elem? all idx) [ none ↦ false | some s ↦ not (is_empty s) ]
    || row_hits all (suc idx) n

-- The line under the header.
unfoldable pub rule_text : Str → Bool → List ℕ → Option Str
unfolding slice_to
rule_text hyphens first [] = some []
rule_text hyphens first (w ∷ ws) = do
  dashes ← slice_to (w + 2) hyphens
  rest ← rule_text hyphens false ws
  some (bar first "+" ++ dashes ++ rest)

-- The lines of the rows that are not the header.
unfoldable pub body_lines : Str → List Str → List ℕ → ℕ → ℕ → Option (List Str)
unfolding row_text row_hits
body_lines spaces all ws zero idx = some []
body_lines spaces all ws (suc rows) idx = do
  line ← row_text false spaces all true idx ws
  rest ← body_lines spaces all ws rows (idx + length ws)
  some (if row_hits all idx (length ws) then line ∷ rest else rest)

unfoldable pub all_lines : Bool → Str → Str → List Str → List ℕ → ℕ → Option (List Str)
unfolding body_lines row_text rule_text
all_lines true spaces hyphens all ws (suc rows) = do
  line ← row_text true spaces all true 0 ws
  under ← rule_text hyphens true ws
  rest ← body_lines spaces all ws rows (0 + length ws)
  some (line ∷ under ∷ rest)
all_lines _ spaces hyphens all ws rows = body_lines spaces all ws rows 0

-- The lines that `writeTable` writes, each without its newline.
unfoldable pub table_lines : List Str → ℕ → ℕ → Bool → Option (List Str)
unfolding widen widest all_lines
table_lines all n_rows n_cols use_headers = do
  ws ← widen all n_cols n_rows 0 (replicate n_cols 0)
  m ← widest ws
  all_lines use_headers (replicate (m + 2) b' ') (replicate (m + 2) b'-') all ws n_rows

abbrev pub lines_text : List Str → Str
lines_text [] = []
lines_text (l ∷ ls) = l ++ codes "\n" ++ lines_text ls

unfoldable pub write_table : List Str → ℕ → ℕ → Bool → Option Str
unfolding table_lines
write_table all n_rows n_cols use_headers =
    table_lines all n_rows n_cols use_headers >>= λ ls. some (lines_text ls)

module _ {F : Type 0} (ops : FloatOps F) where
  unfoldable pub header_strings : Bool → List Str → List Str
  header_strings use_headers columns = if use_headers then columns else []

  unfoldable pub write_list_table : List (Fields F) → List Str → Bool → Option Str
  unfolding row_strings write_table header_strings
  write_list_table [] columns use_headers = some []
  write_list_table (p ∷ ps) [] use_headers = some []
  write_list_table (p ∷ ps) (c ∷ cs) use_headers =
      write_table (header_strings use_headers (c ∷ cs) ++ row_strings ops (p ∷ ps) (c ∷ cs))
        ((if use_headers then 1 else 0) + length (p ∷ ps)) (length (c ∷ cs)) use_headers
