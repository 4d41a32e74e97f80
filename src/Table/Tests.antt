-- ===== src/Table/Tests.antt =====
-- Runs of the writers of core/print_data.go.
use truenas_incus_ctl.Base.{
  ℕ, ◌≡◌, refl, true, List, [], ◌∷◌, ◌++◌, some, Str, codes, All, length, pos, str_eqb,
}
use truenas_incus_ctl.Json.{Fields, field, end, str, int64, get_field, sprint}
use truenas_incus_ctl.Json.Sample.{nat_ops}
use truenas_incus_ctl.Table.Write.{
  write_list_table, lines_text, table_lines, header_strings, row_strings,
}
use truenas_incus_ctl.Table.Layout.{write_list_table-Aligned}

abbrev two_columns : List Str
two_columns = codes "id" ∷ codes "name" ∷ []

-- The second row has no name.
abbrev two_rows : List (Fields ℕ)
two_rows =
    field (codes "id") (int64 (pos 12)) (field (codes "name") (str (codes "tank")) end)
    ∷ field (codes "id") (str (codes "x")) end
    ∷ []

two_rows-text :
    write_list_table nat_ops two_rows two_columns true
    ≡ some (
        lines_text (
          codes " id | name "
          ∷ codes "----+------"
          ∷ codes " 12 | tank "
          ∷ codes " x  |      "
          ∷ []))
unfolding write_list_table get_field str_eqb sprint
two_rows-text = refl

write_list_table-Aligned_example :
    (width : ℕ) × (ls : List Str) × (table_lines
        (header_strings nat_ops true two_columns ++ row_strings nat_ops two_rows two_columns)
        3
        2
        true
      ≡ some ls)
    × (write_list_table nat_ops two_rows two_columns true ≡ some (lines_text ls))
    × All (λ l. length l ≡ width) ls
write_list_table-Aligned_example =
    write_list_table-Aligned nat_ops
      (field (codes "id") (int64 (pos 12)) (field (codes "name") (str (codes "tank")) end))
      (field (codes "id") (str (codes "x")) end ∷ []) (codes "id") (codes "name" ∷ []) true
