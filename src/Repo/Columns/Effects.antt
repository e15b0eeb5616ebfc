-- ===== src/Repo/Columns/Effects.antt =====
-- What the methods of the column repository tell and do.
use docflow_core.Prelude.{ℕ, ◌≡◌, refl, String, Option, some, get_or, List}
use docflow_core.Position.{Position, of_ℕ}
use docflow_core.Position.Rows.{highest}
use docflow_core.Model.Store.{Store, BoardEvent, ok}
use docflow_core.Exec.{found}
use docflow_core.Exec.Reads.{Reads, Reads-query, Reads-weaken}
use docflow_core.Exec.Ensures.{Ensures, Outcome, Outcome-affected, Wrote}
use docflow_core.Repo.Boards.Lookups.{found_ok}
use docflow_core.Repo.Cascade
use docflow_core.Repo.Columns
use docflow_core.Repo.Columns.{
  find_column, has_column_id, column_positions, with_column, update_column_row, insert_column,
  column_row, with_new_column,
}
use docflow_core.Repo.Statement.Effects.{affected-Wrote, returning-Wrote}

pub find_by_id-Reads : (id : ℕ) → Reads (λ s k. find_column id s ≡ some k) (Columns.find_by_id id)
unfolding Columns.find_by_id
find_by_id-Reads id =
    Reads-weaken _ _ _ (λ s k e. found_ok (find_column id s) k e)
      (Reads-query (λ s. found (find_column id s)))

pub get_max_position-Reads :
    (board : ℕ)
    → Reads
        (λ s p. p ≡ get_or (highest (column_positions board s)) (of_ℕ 0))
        (Columns.get_max_position board)
unfolding Columns.get_max_position
get_max_position-Reads board =
    Reads-weaken _ _ _ (λ s p e. cc)
      (Reads-query (λ s. ok (get_or (highest (column_positions board s)) (of_ℕ 0))))

module _ (s : Store) (es : List BoardEvent) where
  pub create-Wrote :
      (board : ℕ) (title : String) (position : Position)
      → Ensures
          (Outcome s es (
            Wrote
              (with_new_column (column_row board title position s) s)
              (λ k. k ≡ column_row board title position s)
              es))
          s
          es
          (Columns.create board title position)
  unfolding Columns.create insert_column
  create-Wrote board title position = Outcome-affected _ s es _ (refl, refl, refl)

  pub update-Wrote :
      (id : ℕ) (title : Option String) (position : Option Position)
      → Ensures
          (Outcome s es (Wrote (with_column id title position s) (λ _. Unit {0}) es))
          s
          es
          (Columns.update id title position)
  unfolding Columns.update
  update-Wrote id title position = Outcome-affected _ s es _ (
      returning-Wrote s es (find_column id s) (update_column_row title position s.now)
        (with_column id title position s))

  pub delete-Wrote :
      (id : ℕ)
      → Ensures
          (Outcome s es (Wrote (Cascade.delete_columns (has_column_id id) s) (λ _. Unit {0}) es))
          s
          es
          (Columns.delete id)
  unfolding Columns.delete
  delete-Wrote id =
      Outcome-affected _ s es _
        (affected-Wrote s es _ (Cascade.delete_columns (has_column_id id) s))
