-- ===== src/Tests/FileLists.antt =====
-- Files that the server lists and files that are being uploaded.
use smart_copilot.Common.{
  ℕ, String, ◌≡◌, refl, true, false, none, some, List, [], ◌∷◌, any, distinct, arith, includes,
}
use smart_copilot.Upload.Queue.{UploadStatus, uploading, completed, pending, new_task}
use smart_copilot.Files.{Row, is_md5, get_list, table_tasks, page_of}
use smart_copilot.Files.Lists.{md5s, get_list-tasks, table_tasks-rows}
use smart_copilot.Files.Deletes.{Deletes, handle_delete, handle_delete-Deletes, delete_answered}
use smart_copilot.Files.Races.{delete_answered-handle_delete}

abbrev row : String → UploadStatus → Row
row md5 status = record {
  task =
      record (new_task
        (record { name = "f"; size = 1; org_tag = none; org_tag_name = none; is_public = false })
        md5) { status = status; uploaded_chunks = 0 ∷ [] };
  has_file = true;
  has_chunks = true;
  user_id = none;
  public_ = false;
  created_at = none;
  merged_at = none;
}

abbrev local_tasks : List Row
local_tasks = row "a" pending ∷ row "b" completed ∷ []

abbrev listed : List Row
listed = row "b" completed ∷ row "c" uploading ∷ []

got : md5s (get_list listed local_tasks) ≡ "a" ∷ "b" ∷ "c" ∷ []
unfolding get_list
got = refl

get_list-tasks_example :
    (distinct (md5s (get_list listed local_tasks)) ≡ true)
    × (any (is_md5 "c") (get_list listed local_tasks) ≡ true)
get_list-tasks_example = get_list-tasks listed local_tasks "c" refl

table_tasks-rows_example :
    (distinct (md5s (table_tasks listed local_tasks)) ≡ true)
    × (md5s (table_tasks listed local_tasks) ≡ "a" ∷ "b" ∷ "c" ∷ [])
table_tasks-rows_example = table_tasks-rows listed local_tasks refl refl

handle_delete-Deletes_example : Deletes "b" local_tasks (handle_delete "b" local_tasks)
handle_delete-Deletes_example = handle_delete-Deletes "b" local_tasks refl

abbrev three : List Row
three = row "a" completed ∷ row "b" completed ∷ row "c" completed ∷ []

wrong_one_deleted : md5s (delete_answered false 1 (delete_answered false 0 three)) ≡ "b" ∷ []
wrong_one_deleted = refl

delete_answered-handle_delete_example :
    (md5s (delete_answered false 1 (delete_answered false 0 three)) ≡ "b" ∷ [])
    × (includes (md5s (delete_answered false 1 (delete_answered false 0 three))) "b" ≡ true)
unfolding handle_delete
delete_answered-handle_delete_example =
    delete_answered-handle_delete "a" "b" 0 1 three refl refl refl (omega arith)

second_page : (page_of {A = ℕ} (some 2) (some 2) (1 ∷ 2 ∷ 3 ∷ [])).rows ≡ 3 ∷ []
unfolding page_of
second_page = refl
