-- ===== src/Command/Crud/Delete.antt =====
-- cmd/iscsi_crud.go: iscsiCrudDelete.
use truenas_incus_ctl.Base.{ℕ, true, false, List, [], ◌∷◌, ◌++◌, pos, Str, str_eq, codes, length}
use truenas_incus_ctl.Base.Decimal.{itoa}
use truenas_incus_ctl.Base.Dict.{Dict}
use truenas_incus_ctl.Json.{Json, arr, nil, cons, Fields}
use truenas_incus_ctl.Command.Steps.{Outside, ends, M, pure, ◌>>=◌, query_params, bulk}
use truenas_incus_ctl.Command.Crud.{iscsi_crud_query}
use truenas_incus_ctl.Command.Delete.{timeout_for}
use truenas_incus_ctl.Command.Crud.Change.{id_value}

module _ {S F : Type 0} (w : Outside S F) (category : Str) where
  abbrev pub id_params : Dict Str (Fields F) → List (Json F)
  id_params [] = []
  id_params ((k, _) ∷ rows) = arr (cons (id_value k) nil) ∷ id_params rows

  abbrev deleted_line : ℕ → Str
  deleted_line n = codes "Deleted " ++ (itoa (pos n) ++ (b' ' ∷ category ++ codes "s"))

  unfoldable pub delete_ids : List (Json F) → M S (List Str)
  unfolding bulk
  delete_ids [] = pure (ends (deleted_line 0 ∷ []))
  delete_ids (id ∷ ids) =
      bulk w (codes "iscsi." ++ (category ++ codes ".delete")) (timeout_for (id ∷ ids)) (id ∷ ids)
        true
      >>= λ _. pure (ends (deleted_line (length (id ∷ ids)) ∷ []))

  unfoldable pub iscsi_crud_delete : List Str → M S (List Str)
  unfolding iscsi_crud_query delete_ids
  iscsi_crud_delete args = do
    response ← iscsi_crud_query w category args [] (query_params false false)
    delete_ids (id_params response.results_map)
