-- ===== src/Files.antt =====
-- The list of files of frontend/src/views/knowledge-base/index.vue, over the tasks of the knowledge
-- base store.
pub mod Lists
pub mod Deletes
pub mod Races
pub mod Resumes
use smart_copilot.Common.{
  ℕ, zero, suc, ◌+◌, ◌-◌, ◌*◌, String, Bool, true, false, not, ◌&&◌, ◌||◌, Option, none, some, List,
  [], ◌∷◌, ◌++◌, map, ◌==◌, if◌then◌else◌, filter, find?, find_idx?, any, includes, take, drop,
  length, get_elem?, erase_idx, get_or, ltb, eqb,
}
use smart_copilot.Upload.Queue.{
  UploadStatus, uploading, completed, pending, paused, interrupted, VectorizationStatus, waiting,
  processing, done, UploadTask, KnowledgeBaseStore, start_upload,
}
use smart_copilot.Upload.Queue.VectorizationStatus.{failed}

-- A task with the fields that only this page reads. `has_file` and `has_chunks` are whether there is
-- a file and a list of uploaded chunks.
pub record Row : Type 0 where
  pub task : UploadTask
  pub has_file : Bool
  pub has_chunks : Bool
  pub user_id : Option String
  pub public_ : Bool
  pub created_at : Option String
  pub merged_at : Option String

abbrev pub md5_of : Row → String
md5_of row = row.task.file_md5

abbrev pub is_md5 : String → Row → Bool
is_md5 md5 row = md5_of row == md5

abbrev positive_or : Option ℕ → ℕ → ℕ
positive_or none d = d
positive_or (some n) d = if ltb 0 n then n else d

pub record Page (A : Type 0) : Type 0 where
  pub rows : List A
  pub number : ℕ
  pub size : ℕ
  pub total_elements : ℕ

-- `apiFn`, for an answer that is the array of all files.
unfoldable pub page_of : {A : Type 0} → Option ℕ → Option ℕ → List A → Page A
page_of page size payload =
    let number = positive_or page 1 in
    let per_page = positive_or size 10 in
    record {
      rows = take per_page (drop ((number - 1) * per_page) payload);
      number = number;
      size = per_page;
      total_elements = length payload;
    }

abbrev pub is_completed : UploadStatus → Bool
is_completed completed = true
is_completed uploading = false
is_completed pending = false
is_completed paused = false
is_completed interrupted = false

abbrev is_uploading : UploadStatus → Bool
is_uploading uploading = true
is_uploading completed = false
is_uploading pending = false
is_uploading paused = false
is_uploading interrupted = false

abbrev pub or_row : Option Row → Row → Row
or_row none item = item
or_row (some task) item = task

abbrev pub remote_rows : List Row → List Row → List Row
remote_rows data_ tasks = map (λ item. or_row (find? (is_md5 (md5_of item)) tasks) item) data_

abbrev pub is_local : List Row → Row → Bool
is_local remote task =
    task.has_file && not (is_completed task.task.status) && not (any (is_md5 (md5_of task)) remote)

-- `tableTasks`
unfoldable pub table_tasks : List Row → List Row → List Row
table_tasks data_ tasks =
    let remote = remote_rows data_ tasks in filter (is_local remote) tasks ++ remote

abbrev is_pending_or_uploading : UploadStatus → Bool
is_pending_or_uploading pending = true
is_pending_or_uploading uploading = true
is_pending_or_uploading completed = false
is_pending_or_uploading paused = false
is_pending_or_uploading interrupted = false

abbrev pub is_local_uploading : Row → Bool
is_local_uploading target = target.has_file && is_pending_or_uploading target.task.status

abbrev synced_status : Row → Row → UploadStatus
synced_status target source =
    if is_uploading source.task.status && not (is_local_uploading target)
    then interrupted
    else source.task.status

unfoldable pub sync_task_from_server : Row → Row → Row
sync_task_from_server source target = record {
  task = record target.task {
    file_name = source.task.file_name;
    total_size = source.task.total_size;
    status = synced_status target source;
    org_tag = source.task.org_tag;
    org_tag_name = source.task.org_tag_name;
    is_public = source.task.is_public;
    estimated_embedding_tokens = source.task.estimated_embedding_tokens;
    estimated_chunk_count = source.task.estimated_chunk_count;
    actual_embedding_tokens = source.task.actual_embedding_tokens;
    actual_chunk_count = source.task.actual_chunk_count;
    vectorization_status = source.task.vectorization_status;
    vectorization_error_message = source.task.vectorization_error_message;
  };
  has_file = target.has_file;
  has_chunks = target.has_chunks;
  user_id = source.user_id;
  public_ = source.public_;
  created_at = source.created_at;
  merged_at = source.merged_at;
}

-- A write to the first row with a digest.
unfoldable pub change_row : String → (Row → Row) → List Row → List Row
change_row md5 f [] = []
change_row md5 f (row ∷ rows) =
    let rest = change_row md5 f rows in if is_md5 md5 row then f row ∷ rows else row ∷ rest

abbrev pub interrupt : Row → Row
interrupt row = record row { task = record row.task { status = interrupted } }

-- The loop of `getList`, on the rows of the server.
unfoldable pub take_item : Row → List Row → List Row
unfolding change_row sync_task_from_server
take_item item tasks =
    if any (is_md5 (md5_of item)) tasks
    then change_row (md5_of item) (sync_task_from_server item) tasks
    else if is_completed item.task.status
    then tasks ++ item ∷ []
    else tasks ++ interrupt item ∷ []

unfoldable pub get_list : List Row → List Row → List Row
unfolding take_item
get_list [] tasks = tasks
get_list (item ∷ data_) tasks = get_list data_ (take_item item tasks)

abbrev pub is_waiting : Option VectorizationStatus → Bool
is_waiting none = false
is_waiting (some waiting) = true
is_waiting (some processing) = true
is_waiting (some done) = false
is_waiting (some failed) = false

abbrev pub is_vectorization_processing : Row → Bool
is_vectorization_processing row =
    is_completed row.task.status && is_waiting row.task.vectorization_status

abbrev is_given : Option ℕ → Bool
is_given none = false
is_given (some n) = true

abbrev pub has_actual_vectorization_usage : Row → Bool
has_actual_vectorization_usage row = is_given row.task.actual_embedding_tokens

abbrev is_failed : Option VectorizationStatus → Bool
is_failed none = false
is_failed (some waiting) = false
is_failed (some processing) = false
is_failed (some done) = false
is_failed (some failed) = true

abbrev is_done : Option VectorizationStatus → Bool
is_done none = false
is_done (some waiting) = false
is_done (some processing) = false
is_done (some done) = true
is_done (some failed) = false

-- `can_manage_file` is whether the user is an administrator or the owner of the file.
unfoldable pub can_retry_vectorization : Bool → Row → Bool
can_retry_vectorization can_manage_file row =
    if not can_manage_file
    then false
    else if is_failed row.task.vectorization_status
    then true
    else if is_done row.task.vectorization_status && not (has_actual_vectorization_usage row)
    then true
    else not (has_actual_vectorization_usage row)
      && ltb 0 (get_or row.task.estimated_embedding_tokens 0)

unfoldable pub retry_vectorization : Row → Row
retry_vectorization row = record row {
  task = record row.task {
    vectorization_status = some processing;
    vectorization_error_message = none;
    actual_embedding_tokens = none;
    actual_chunk_count = none;
  };
}

-- Whether the list is asked for again in three seconds.
unfoldable pub schedule_vectorization_polling : List Row → Bool
schedule_vectorization_polling tasks = any is_vectorization_processing tasks
