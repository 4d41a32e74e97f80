-- ===== src/Table/Layout.antt =====
-- Every line that `writeTable` of core/print_data.go prints has one width.
use truenas_incus_ctl.Base.{
  ℕ, zero, suc, ◌+◌, ◌-◌, ◌*◌, ◌/◌, ◌%◌, ◌≤◌, ◌≡◌, refl, ap, ◌∙◌, Bool, true, false, List, [], ◌∷◌,
  ◌++◌, Option, some, arith, Str, length, replicate, take, leb, ltb, if◌then◌else◌, All,
  length-append, map, length-map, ◌>>=◌, length-replicate, length-take, Bool-cases, inl, inr,
}
use truenas_incus_ctl.Json.{Fields, FloatOps}
use truenas_incus_ctl.Table.Widths.{Fits, RowsFit, Wider-length, max_of-le, widen-AllWidened}
use truenas_incus_ctl.Table.Write.{
  lines_text, write_table, write_list_table, row_strings, table_cell, header_strings, slice_to,
  max_of, widest_from, widest, padded, bar, row_text, row_hits, rule_text, body_lines, all_lines,
  table_lines,
}

-- The width of a line: each cell with its two spaces, and the bars between.
abbrev pub line_width : Bool → List ℕ → ℕ
line_width first [] = 0
line_width first (w ∷ ws) = (if first then 0 else 1) + (w + 2) + line_width false ws

widest_from-le : (m : ℕ) (ws : List ℕ) → m ≤ widest_from m ws
unfolding widest_from
widest_from-le m [] = omega arith
widest_from-le m (w ∷ ws) = omega (arith, widest_from-le (max_of m w) ws, (max_of-le m w).0)

widest_from-All : (m : ℕ) (ws : List ℕ) → All (λ w. w ≤ widest_from m ws) ws
unfolding widest_from
widest_from-All m [] = tt
widest_from-All m (w ∷ ws) = (
  omega (arith, widest_from-le (max_of m w) ws, (max_of-le m w).1),
  widest_from-All (max_of m w) ws,
)

record Sliced (n : ℕ) (buf : Str) : Type 0 where
  part : Str
  given : slice_to n buf ≡ some part
  size : length part ≡ n

slice_to-Sliced : (n : ℕ) (buf : Str) → n ≤ length buf → Sliced n buf
unfolding slice_to
slice_to-Sliced n buf h =
    let fits : leb n (length buf) ≡ true = ground arith in
    record { part = take n buf; given = rw fits refl; size = length-take n buf ∙ omega (arith, h) }

halves :
    (s w : ℕ) {a b n : ℕ}
    → s ≤ w
    → a ≡ (w - s) / 2
    → n ≡ a + s
    → b ≡ (w - s) / 2 + (w - s) % 2
    → n + b ≡ w
halves s w h i j k = omega arith

record Padded (header : Bool) (spaces : Str) (w : ℕ) (s : Str) : Type 0 where
  text : Str
  given : padded header spaces w s ≡ some text
  size : length text ≡ w

padded_lem :
    (header : Bool) (spaces : Str) (w : ℕ) (s : Str)
    → length s ≤ w
    → w ≤ length spaces
    → Padded header spaces w s
unfolding padded
padded_lem true spaces w s h k =
    let sp = w - length s in
    let left = slice_to-Sliced (sp / 2) spaces (omega arith) in
    let right = slice_to-Sliced (sp / 2 + sp % 2) spaces (omega arith) in
    let fits : ltb w (length s) ≡ false = ground arith in
    record {
      text = left.part ++ s ++ right.part;
      given = rw (fits, left.given, right.given) refl;
      size =
          length-append (left.part ++ s) right.part
          ∙ halves (length s) w h left.size (length-append left.part s) right.size;
    }
padded_lem false spaces w s h k =
    let right = slice_to-Sliced (w - length s) spaces (omega arith) in
    let fits : ltb w (length s) ≡ false = ground arith in
    record {
      text = s ++ right.part;
      given = rw (fits, right.given) refl;
      size = omega (arith, length-append s right.part, right.size);
    }

record RowText (header : Bool) (spaces : Str) (all : List Str) (first : Bool) (idx : ℕ)
    (ws : List ℕ) : Type 0 where
  text : Str
  given : row_text header spaces all first idx ws ≡ some text
  size : length text ≡ line_width first ws

length-bar :
    (first : Bool) (c : ℕ) → length (if first then [] else c ∷ []) ≡ (if first then 0 else 1)
length-bar true c = refl
length-bar false c = refl

row_text_lem :
    (header : Bool) (spaces : Str) (all : List Str) (first : Bool) (idx : ℕ) (ws : List ℕ)
    → Fits all idx ws
    → All (λ w. w ≤ length spaces) ws
    → RowText header spaces all first idx ws
unfolding row_text
row_text_lem header spaces all first idx [] f a = record { text = []; given = refl; size = refl }
row_text_lem header spaces all first idx (w ∷ ws) f a =
    let (s, at, le) = f.0 in
    let cell = padded_lem header spaces w s le a.0 in
    let rest = row_text_lem header spaces all false (suc idx) ws f.1 a.1 in
    record {
      text = bar first "|" ++ b' ' ∷ cell.text ++ b' ' ∷ rest.text;
      given = rw (at, cell.given, rest.given) refl;
      size = omega (
        arith,
        length-append (bar first "|" ++ b' ' ∷ cell.text) (b' ' ∷ rest.text),
        length-append (bar first "|") (b' ' ∷ cell.text),
        length-bar first b'|',
        cell.size,
        rest.size,
      );
    }

record RuleText (hyphens : Str) (first : Bool) (ws : List ℕ) : Type 0 where
  text : Str
  given : rule_text hyphens first ws ≡ some text
  size : length text ≡ line_width first ws

rule_text_lem :
    (hyphens : Str) (first : Bool) (ws : List ℕ)
    → All (λ w. w + 2 ≤ length hyphens) ws
    → RuleText hyphens first ws
unfolding rule_text
rule_text_lem hyphens first [] a = record { text = []; given = refl; size = refl }
rule_text_lem hyphens first (w ∷ ws) a =
    let dashes = slice_to-Sliced (w + 2) hyphens a.0 in
    let rest = rule_text_lem hyphens false ws a.1 in
    record {
      text = bar first "+" ++ dashes.part ++ rest.text;
      given = rw (dashes.given, rest.given) refl;
      size = omega (
        arith,
        length-append (bar first "+" ++ dashes.part) rest.text,
        length-append (bar first "+") dashes.part,
        length-bar first b'+',
        dashes.size,
        rest.size,
      );
    }

-- The lines that a writer gives, all of one width.
pub record Aligned (written : Option (List Str)) (width : ℕ) : Type 0 where
  pub lines : List Str
  pub given : written ≡ some lines
  pub even : All (λ l. length l ≡ width) lines

body_lines-Aligned :
    (spaces : Str) (all : List Str) (ws : List ℕ) (rows idx : ℕ)
    → RowsFit all rows idx ws
    → All (λ w. w ≤ length spaces) ws
    → Aligned (body_lines spaces all ws rows idx) (line_width true ws)
unfolding body_lines
body_lines-Aligned spaces all ws zero idx f a = record { lines = []; given = refl; even = tt }
body_lines-Aligned spaces all ws (suc rows) idx f a =
    let line = row_text_lem false spaces all true idx ws f.0 a in
    let rest = body_lines-Aligned spaces all ws rows (idx + length ws) f.1 a in
    elim (Bool-cases (row_hits all idx (length ws))) [
      | inl h ↦ record {
        lines = line.text ∷ rest.lines;
        given = rw (line.given, rest.given, h) refl;
        even = (line.size, rest.even);
      }
      | inr h ↦ record {
        lines = rest.lines;
        given = rw (line.given, rest.given, h) refl;
        even = rest.even;
      }
    ]

fit_buffer :
    (m : ℕ) (c : ℕ) (ws : List ℕ)
    → All (λ w. w ≤ m) ws
    → All (λ w. w ≤ length (replicate (m + 2) c)) ws
      × All (λ w. w + 2 ≤ length (replicate (m + 2) c)) ws
fit_buffer m c [] a = (tt, tt)
fit_buffer m c (w ∷ ws) a =
    let rest = fit_buffer m c ws a.1 in
    let size = length-replicate (m + 2) c in
    ((omega (arith, size, a.0), rest.0), (omega (arith, size, a.0), rest.1))

all_lines-Aligned :
    (header : Bool) (m : ℕ) (all : List Str) (ws : List ℕ) (rows : ℕ)
    → RowsFit all rows 0 ws
    → All (λ w. w ≤ m) ws
    → Aligned
        (all_lines header (replicate (m + 2) b' ') (replicate (m + 2) b'-') all ws rows)
        (line_width true ws)
unfolding all_lines
all_lines-Aligned true m all ws (suc rows) f a =
    let roomy = (fit_buffer m b' ' ws a).0 in
    let line = row_text_lem true (replicate (m + 2) b' ') all true 0 ws f.0 roomy in
    let under = rule_text_lem (replicate (m + 2) b'-') true ws (fit_buffer m b'-' ws a).1 in
    let rest = body_lines-Aligned (replicate (m + 2) b' ') all ws rows (0 + length ws) f.1 roomy in
    record {
      lines = line.text ∷ under.text ∷ rest.lines;
      given = rw (line.given, under.given, rest.given) refl;
      even = (line.size, (under.size, rest.even));
    }
all_lines-Aligned true m all ws zero f a =
    body_lines-Aligned (replicate (m + 2) b' ') all ws 0 0 f (fit_buffer m b' ' ws a).0
all_lines-Aligned false m all ws rows f a =
    body_lines-Aligned (replicate (m + 2) b' ') all ws rows 0 f (fit_buffer m b' ' ws a).0

widened_lines-Aligned :
    (all : List Str) (n_rows : ℕ) (header : Bool) (ws : List ℕ)
    → 1 ≤ length ws
    → RowsFit all n_rows 0 ws
    → Aligned
        (widest ws >>= λ m.
          all_lines header (replicate (m + 2) b' ') (replicate (m + 2) b'-') all ws n_rows)
        (line_width true ws)
unfolding widest
widened_lines-Aligned all n_rows header [] h f = absurd (omega (arith, h))
widened_lines-Aligned all n_rows header (w ∷ ws) h f =
    all_lines-Aligned header (widest_from w ws) all (w ∷ ws) n_rows f
      (widest_from-le w ws, widest_from-All w ws)

-- Where the strings are as many as the rows and columns say, and there is a column, `writeTable`
-- reads and slices nothing out of range, and the lines that it writes, the header and the rule under
-- it included, have all the same width.
pub table_lines-Aligned :
    (all : List Str) (n_rows n_cols : ℕ) (use_headers : Bool)
    → length all ≡ n_rows * n_cols
    → 1 ≤ n_cols
    → (width : ℕ) × Aligned (table_lines all n_rows n_cols use_headers) width
unfolding table_lines
table_lines-Aligned all n_rows n_cols use_headers e h =
    let w =
      widen-AllWidened all n_cols n_rows 0 (replicate n_cols 0) (length-replicate n_cols 0)
        (omega (arith, e)) in
    let size = Wider-length (replicate n_cols 0) w.widths w.wider in
    let done =
      widened_lines-Aligned all n_rows use_headers w.widths
        (omega (arith, size, length-replicate {A = ℕ} n_cols 0, h)) w.fit in
    (line_width true w.widths, rw w.given done)

module _ {F : Type 0} (ops : FloatOps F) where
  length-row_strings :
      (rows : List (Fields F)) (columns : List Str)
      → length (row_strings ops rows columns) ≡ length rows * length columns
  unfolding row_strings
  length-row_strings [] columns = omega arith
  length-row_strings (p ∷ ps) columns = omega (
    arith,
    length-append (map (table_cell ops p) columns) (row_strings ops ps columns),
    length-map columns (table_cell ops p),
    length-row_strings ps columns,
  )

  length-all_strings :
      (use_headers : Bool) (rows : List (Fields F)) (columns : List Str)
      → length (header_strings ops use_headers columns ++ row_strings ops rows columns)
        ≡ ((if use_headers then 1 else 0) + length rows) * length columns
  unfolding header_strings
  length-all_strings true rows columns =
      omega (
        arith,
        length-append columns (row_strings ops rows columns),
        length-row_strings rows columns,
      )
  length-all_strings false rows columns = omega (arith, length-row_strings rows columns)

  -- `WriteListTable` reads and slices nothing out of range, and the lines that it writes one after the
  -- other, those of the header, of the rule under it and of the rows, have all the same width.
  pub write_list_table-Aligned :
      (p : Fields F) (ps : List (Fields F)) (c : Str) (cs : List Str) (use_headers : Bool)
      → (width : ℕ) × (ls : List Str) × (table_lines
            (header_strings ops use_headers (c ∷ cs) ++ row_strings ops (p ∷ ps) (c ∷ cs))
            ((if use_headers then 1 else 0) + length (p ∷ ps))
            (length (c ∷ cs))
            use_headers
          ≡ some ls)
        × (write_list_table ops (p ∷ ps) (c ∷ cs) use_headers ≡ some (lines_text ls))
        × All (λ l. length l ≡ width) ls
  unfolding write_list_table write_table
  write_list_table-Aligned p ps c cs use_headers =
      let (width, written) =
        table_lines-Aligned
          (header_strings ops use_headers (c ∷ cs) ++ row_strings ops (p ∷ ps) (c ∷ cs))
          ((if use_headers then 1 else 0) + length (p ∷ ps)) (length (c ∷ cs)) use_headers
          (length-all_strings use_headers (p ∷ ps) (c ∷ cs)) (omega arith) in
      (
        width,
        written.lines,
        written.given,
        ap (λ o. o >>= λ ls. some (lines_text ls)) written.given,
        written.even,
      )
