-- ===== src/Upload/Queue.antt =====
-- The upload queue of frontend/src/store/modules/knowledge-base/index.ts: `enqueueUpload`,
-- `startUpload`, `uploadChunk` and `mergeFile`, with the task type of frontend/src/typings/api.d.ts
-- and the states of frontend/src/enum/index.ts. An async function is cut at its awaits: each piece
-- is an operation on the store.
pub mod Room
pub mod Deletes
pub mod Events
use smart_copilot.Common.{
  ℕ, zero, suc, ◌+◌, String, Bool, true, false, not, ◌&&◌, ◌||◌, Option, none, some, List, [], ◌∷◌,
  ◌++◌, map, ◌==◌, if◌then◌else◌, filter, find?, any, includes, leb, length, get_or,
}
use smart_copilot.Upload.Progress.{merge_uploaded_chunks, has}

pub data UploadStatus : Type 0 where
  uploading completed pending paused interrupted : UploadStatus

pub data VectorizationStatus : Type 0 where
  waiting processing done failed : VectorizationStatus

-- `progress` is in hundredths of a percent, as `toFixed(2)` leaves it.
pub record UploadTask : Type 0 where
  pub file_md5 : String
  pub file_name : String
  pub total_size : ℕ
  pub org_tag : Option String
  pub org_tag_name : Option String
  pub is_public : Bool
  pub chunk_index : ℕ
  pub uploaded_chunks : List ℕ
  pub progress : ℕ
  pub status : UploadStatus
  pub estimated_embedding_tokens : Option ℕ
  pub estimated_chunk_count : Option ℕ
  pub actual_embedding_tokens : Option ℕ
  pub actual_chunk_count : Option ℕ
  pub vectorization_status : Option VectorizationStatus
  pub vectorization_error_message : Option String
  pub request_ids : List String

-- `active_uploads` is a set: no text stands in it twice.
pub record KnowledgeBaseStore : Type 0 where
  pub tasks : List UploadTask
  pub active_uploads : List String

abbrev pub is_pending : UploadStatus → Bool
is_pending pending = true
is_pending _ = false

-- `activeUploads.value.add(md5)` and `.delete(md5)`
abbrev pub add : String → List String → List String
add md5 active = if includes active md5 then active else active ++ md5 ∷ []

abbrev pub delete : String → List String → List String
delete md5 active = filter (λ m. not (m == md5)) active

-- A write to the first task that passes a test.
unfoldable pub change_first :
    (UploadTask → Bool) → (UploadTask → UploadTask) → List UploadTask → List UploadTask
change_first p f [] = []
change_first p f (t ∷ ts) = let rest = change_first p f ts in if p t then f t ∷ ts else t ∷ rest

abbrev pub set_status : UploadStatus → UploadTask → UploadTask
set_status st t = record t { status = st }

-- `t.status === UploadStatus.Pending && !activeUploads.value.has(t.fileMd5)`
abbrev pub can_start : List String → UploadTask → Bool
can_start active t = is_pending t.status && not (includes active t.file_md5)

abbrev pub max_active : ℕ
max_active = 3

start_first : Option UploadTask → KnowledgeBaseStore → KnowledgeBaseStore
unfolding change_first
start_first none s = s
start_first (some task) s = record {
  tasks = change_first (can_start s.active_uploads) (set_status uploading) s.tasks;
  active_uploads = add task.file_md5 s.active_uploads;
}

-- `startUpload` up to its first await.
unfoldable pub start_upload : KnowledgeBaseStore → KnowledgeBaseStore
unfolding start_first
start_upload s =
    if leb max_active (length s.active_uploads)
    then s
    else start_first (find? (can_start s.active_uploads) s.tasks) s

abbrev pub has_md5 : String → UploadTask → Bool
has_md5 md5 t = t.file_md5 == md5

pub record NewFile : Type 0 where
  pub name : String
  pub size : ℕ
  pub org_tag : Option String
  pub org_tag_name : Option String
  pub is_public : Bool

abbrev pub new_task : NewFile → String → UploadTask
new_task file md5 = record {
  file_md5 = md5;
  file_name = file.name;
  total_size = file.size;
  org_tag = file.org_tag;
  org_tag_name = file.org_tag_name;
  is_public = file.is_public;
  chunk_index = 0;
  uploaded_chunks = [];
  progress = 0;
  status = pending;
  estimated_embedding_tokens = none;
  estimated_chunk_count = none;
  actual_embedding_tokens = none;
  actual_chunk_count = none;
  vectorization_status = none;
  vectorization_error_message = none;
  request_ids = [];
}

append_task : NewFile → String → KnowledgeBaseStore → KnowledgeBaseStore
append_task file md5 s = start_upload (record s { tasks = s.tasks ++ new_task file md5 ∷ [] })

-- The four tests on an existing task. A paused one falls through, and a second task is made.
enqueue_existing : UploadStatus → NewFile → String → KnowledgeBaseStore → KnowledgeBaseStore
unfolding append_task change_first
enqueue_existing completed file md5 s = s
enqueue_existing pending file md5 s = s
enqueue_existing uploading file md5 s = s
enqueue_existing interrupted file md5 s =
    start_upload (record s { tasks = change_first (has_md5 md5) (set_status pending) s.tasks })
enqueue_existing paused file md5 s = append_task file md5 s

enqueue_by : Option UploadTask → NewFile → String → KnowledgeBaseStore → KnowledgeBaseStore
unfolding append_task enqueue_existing
enqueue_by none file md5 s = append_task file md5 s
enqueue_by (some t) file md5 s = enqueue_existing t.status file md5 s

-- `enqueueUpload` after the await of the digest `md5`.
unfoldable pub enqueue_upload : NewFile → String → KnowledgeBaseStore → KnowledgeBaseStore
unfolding enqueue_by
enqueue_upload file md5 s = enqueue_by (find? (has_md5 md5) s.tasks) file md5 s

-- `uploadChunk` after a good answer with the uploaded chunks; `percent` rounds the share of all
-- chunks to hundredths of a percent, a floating-point computation.
unfoldable pub chunk_uploaded :
    (ℕ → ℕ → ℕ) → ℕ → String → ℕ → List ℕ → KnowledgeBaseStore → KnowledgeBaseStore
unfolding change_first
chunk_uploaded percent total md5 chunk_index latest s =
    let f = λ (t : UploadTask).
      let merged = merge_uploaded_chunks t.uploaded_chunks latest in
      record t {
        chunk_index = chunk_index;
        uploaded_chunks = merged;
        progress = percent (length merged) total;
      } in
    record s { tasks = change_first (has_md5 md5) f s.tasks }

-- `mergeFile` after a good answer.
unfoldable pub merge_file : String → Option ℕ → Option ℕ → KnowledgeBaseStore → KnowledgeBaseStore
unfolding change_first
merge_file md5 tokens chunks s =
    let f = λ (t : UploadTask). record t {
      status = completed;
      progress = 10000;
      estimated_embedding_tokens = tokens;
      estimated_chunk_count = chunks;
      vectorization_status = some processing;
      vectorization_error_message = none;
      actual_embedding_tokens = none;
      actual_chunk_count = none;
    } in
    record s { tasks = change_first (has_md5 md5) f s.tasks }

-- The `catch` and `finally` of `startUpload`, or `finally` alone.
pub data Ending : Type 0 where
  ended broken : Ending

catch_error : Ending → String → KnowledgeBaseStore → KnowledgeBaseStore
unfolding change_first
catch_error ended md5 s = s
catch_error broken md5 s = record s {
  tasks = change_first (has_md5 md5) (set_status interrupted) s.tasks;
}

unfoldable pub finish_upload : Ending → String → KnowledgeBaseStore → KnowledgeBaseStore
unfolding catch_error
finish_upload how md5 s =
    let caught = catch_error how md5 s in
    start_upload (record caught { active_uploads = delete md5 caught.active_uploads })
