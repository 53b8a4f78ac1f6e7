-- ===== src/Files/Deletes.antt =====
-- Deleting and resuming files: frontend/src/views/knowledge-base/index.vue.
use smart_copilot.Common.{
  ℕ, zero, suc, String, ◌≡◌, refl, ap, Bool, true, false, not, ◌&&◌, Option, none, some, List, [],
  ◌∷◌, map, ◌==◌, if◌then◌else◌, filter, find_idx?, includes, distinct, erase_idx, arith, eq_iff,
  get_elem?,
}
use smart_copilot.Files.{Row, md5_of, is_md5}
use smart_copilot.Upload.Queue.{
  UploadTask, KnowledgeBaseStore, change_first, has_md5, set_status, pending, start_upload,
}

abbrev no_chunks : List ℕ → Bool
no_chunks [] = true
no_chunks (n ∷ ns) = false

-- `handleDelete` up to its request: it throws where there is no task for the file, and needs no
-- request where no chunk was uploaded; else it keeps the position of the task.
pub data Deleting : Type 0 where
  threw : Deleting
  deleted : List Row → Deleting
  asked : ℕ → Deleting

abbrev pub has_no_chunks : Option Row → Bool
has_no_chunks none = false
has_no_chunks (some row) = row.has_chunks && no_chunks row.task.uploaded_chunks

abbrev pub delete_at : Option ℕ → List Row → Deleting
delete_at none tasks = threw
delete_at (some i) tasks =
    if has_no_chunks (get_elem? tasks i) then deleted (erase_idx tasks i) else asked i

unfoldable pub handle_delete : String → List Row → Deleting
handle_delete file_md5 tasks = delete_at (find_idx? (is_md5 file_md5) tasks) tasks

-- The rest of it, with whether the request failed and the tasks that there are then.
abbrev pub delete_answered : Bool → ℕ → List Row → List Row
delete_answered error index tasks = if error then tasks else erase_idx tasks index

-- `resumeUpload`, for a task with its file.
unfoldable pub resume_upload : String → KnowledgeBaseStore → KnowledgeBaseStore
resume_upload file_md5 s =
    start_upload (record s { tasks = change_first (has_md5 file_md5) (set_status pending) s.tasks })

-- The progress of a file, as the server tells it.
pub record Progress : Type 0 where
  pub uploaded : List ℕ
  pub progress : ℕ

abbrev pub resumed : Progress → UploadTask → UploadTask
resumed p t = record t { status = pending; progress = p.progress; uploaded_chunks = p.uploaded }

-- `onBeforeUpload` with the digest of the chosen file and the answer to its request, an error or the
-- progress: whether the upload goes on, and the store.
unfoldable pub on_before_upload :
    String → String → Option Progress → KnowledgeBaseStore → Bool × KnowledgeBaseStore
on_before_upload md5 row_md5 none s = (false, s)
on_before_upload md5 row_md5 (some p) s = if not (md5 == row_md5) then (false, s) else (
  true,
  start_upload (record s { tasks = change_first (has_md5 row_md5) (resumed p) s.tasks }),
)

abbrev pub md5s : List Row → List String
md5s rows = map md5_of rows

abbrev pub others : String → List String → List String
others md5 = filter (λ m. not (m == md5))

pub filter_absent : (md5 : String) (ms : List String) → includes ms md5 ≡ false → others md5 ms ≡ ms
filter_absent md5 [] h = refl
filter_absent md5 (m ∷ ms) h = ground (arith, filter_absent md5 ms)

pub includes-eq :
    (m n : String) (ms : List String) → (m == n) ≡ true → includes ms m ≡ includes ms n
includes-eq m n ms h = ap (includes ms) ((eq_iff m n).0 h)

included :
    (md5 : String) (tasks : List Row) (i : ℕ)
    → find_idx? (is_md5 md5) tasks ≡ some i
    → includes (md5s tasks) md5 ≡ true
included md5 [] i e = cc
included md5 (row ∷ tasks) zero e = ground arith
included md5 (row ∷ tasks) (suc i) e = ground (arith, included md5 tasks i)

absent :
    (md5 : String) (tasks : List Row)
    → find_idx? (is_md5 md5) tasks ≡ none
    → includes (md5s tasks) md5 ≡ false
absent md5 [] e = refl
absent md5 (row ∷ tasks) e = ground (arith, absent md5 tasks)

erase-find_idx :
    (md5 : String) (tasks : List Row) (i : ℕ)
    → distinct (md5s tasks) ≡ true
    → find_idx? (is_md5 md5) tasks ≡ some i
    → md5s (erase_idx tasks i) ≡ others md5 (md5s tasks)
erase-find_idx md5 [] i h e = cc
erase-find_idx md5 (row ∷ tasks) zero h e =
    ground (arith, includes-eq (md5_of row) md5 (md5s tasks), filter_absent md5 (md5s tasks))
erase-find_idx md5 (row ∷ tasks) (suc i) h e = ground (
  arith,
  erase-find_idx md5 tasks i,
  included md5 tasks i,
  includes-eq (md5_of row) md5 (md5s tasks),
)

-- What a deletion leaves, where the tasks are the same when the answer to its request comes.
abbrev pub Deletes : String → List Row → Deleting → Type 0
Deletes md5 tasks threw = includes (md5s tasks) md5 ≡ false
Deletes md5 tasks (deleted rows) = md5s rows ≡ others md5 (md5s tasks)
Deletes md5 tasks (asked i) =
    (md5s (delete_answered false i tasks) ≡ others md5 (md5s tasks))
    × (delete_answered true i tasks ≡ tasks)

Deletes-if :
    (md5 : String) (tasks : List Row) (i : ℕ) (b : Bool)
    → md5s (erase_idx tasks i) ≡ others md5 (md5s tasks)
    → Deletes md5 tasks (if b then deleted (erase_idx tasks i) else asked i)
Deletes-if md5 tasks i true h = h
Deletes-if md5 tasks i false h = (h, refl)

Deletes-delete_at :
    (md5 : String) (tasks : List Row) (o : Option ℕ)
    → distinct (md5s tasks) ≡ true
    → find_idx? (is_md5 md5) tasks ≡ o
    → Deletes md5 tasks (delete_at o tasks)
Deletes-delete_at md5 tasks none h e = absent md5 tasks e
Deletes-delete_at md5 tasks (some i) h e =
    Deletes-if md5 tasks i (has_no_chunks (get_elem? tasks i)) (erase-find_idx md5 tasks i h e)

-- Where no two tasks are for one file, a deletion removes the task for the file and no other, at once
-- or with the answer to its request, and none if that is an error; it throws only where there is no
-- task for the file. The tasks are those of its start when the answer comes.
pub handle_delete-Deletes :
    (md5 : String) (tasks : List Row)
    → distinct (md5s tasks) ≡ true
    → Deletes md5 tasks (handle_delete md5 tasks)
unfolding handle_delete
handle_delete-Deletes md5 tasks h =
    Deletes-delete_at md5 tasks (find_idx? (is_md5 md5) tasks) h refl
