-- ===== src/Upload/Queue/Events.antt =====
-- The events of the upload queue, and the room invariant:
-- frontend/src/store/modules/knowledge-base/index.ts.
use smart_copilot.Common.{
  ℕ, ◌+◌, ◌≤◌, String, ◌≡◌, refl, ap, ◌∙◌, Bool, true, false, not, Option, none, some, List, [],
  ◌∷◌, ◌++◌, ◌==◌, find?, all, includes, distinct, length, arith, inl, inr, ◌⊎◌, distinct-concat,
  map-append, all-append, includes-filter,
}
use smart_copilot.Upload.Queue.{
  UploadStatus, uploading, completed, pending, paused, interrupted, UploadTask, KnowledgeBaseStore,
  is_pending, delete, change_first, set_status, enqueue_upload, enqueue_by, enqueue_existing,
  append_task, start_upload, chunk_uploaded, merge_file, Ending, ended, broken, catch_error,
  finish_upload, NewFile, has_md5, new_task,
}
use smart_copilot.Upload.Queue.Room.{
  md5s, waiting, not_paused, is_paused, IsTidy, NoneWaits, Inv, IsReady, start_upload-Inv,
  all-change_first, md5s-change_first, waiting-change_first, waiting-change_first_le,
}
use smart_copilot.Upload.Queue.Deletes.{waiting-append, waiting-delete, length-delete}

absent :
    (md5 : String) (ts : List UploadTask)
    → find? (has_md5 md5) ts ≡ none
    → includes (md5s ts) md5 ≡ false
absent md5 [] h = refl
absent md5 (t ∷ ts) h = ground (arith, absent md5 ts)

running_at :
    (md5 : String) (ts : List UploadTask) (t : UploadTask)
    → find? (has_md5 md5) ts ≡ some t
    → all not_paused ts ≡ true
    → not_paused t ≡ true
running_at md5 [] t h k = cc
running_at md5 (u ∷ ts) t h k = ground (arith, running_at md5 ts t)

-- A write to one task that leaves its file and does not pause it.
IsTidy-change_first :
    (active : List String) (p : UploadTask → Bool) (f : UploadTask → UploadTask)
    (ts : List UploadTask)
    → ((t : UploadTask) → (f t).file_md5 ≡ t.file_md5)
    → ((t : UploadTask) → not_paused t ≡ true → not_paused (f t) ≡ true)
    → IsTidy active ts
    → IsTidy active (change_first p f ts)
IsTidy-change_first active p f ts same run v = record {
  few = v.few;
  different = v.different;
  files = ap distinct (md5s-change_first p f ts same) ∙ v.files;
  running = all-change_first not_paused p f ts run v.running;
}

-- One more task that waits is one that a start can take.
ready_of :
    (active : List String) (ts us : List UploadTask)
    → NoneWaits active ts
    → waiting active us ≤ waiting active ts + 1
    → (2 ≤ length active) ⊎ (waiting active us ≤ 1)
ready_of active ts us (inl full) h = inl (omega arith)
ready_of active ts us (inr idle) h = inr (omega arith)

NoneWaits-of :
    (active : List String) (ts us : List UploadTask)
    → NoneWaits active ts
    → waiting active us ≤ waiting active ts
    → NoneWaits active us
NoneWaits-of active ts us (inl full) h = inl full
NoneWaits-of active ts us (inr idle) h = inr (omega arith)

waiting_one : (active : List String) (t : UploadTask) → waiting active (t ∷ []) ≤ 1
waiting_one active t = ground arith

append_task-Inv :
    (file : NewFile) (md5 : String) (s : KnowledgeBaseStore)
    → Inv s
    → includes (md5s s.tasks) md5 ≡ false
    → Inv (append_task file md5 s)
unfolding append_task
append_task-Inv file md5 s v new =
    let more = s.tasks ++ new_task file md5 ∷ [] in
    start_upload-Inv (record s { tasks = more })
      (record {
        tidy = record {
          few = v.tidy.few;
          different = v.tidy.different;
          files =
              ap distinct
                (map-append (λ (t : UploadTask). t.file_md5) s.tasks (new_task file md5 ∷ []))
              ∙ distinct-concat (md5s s.tasks) md5 v.tidy.files new;
          running = all-append not_paused s.tasks (new_task file md5 ∷ []) ∙ rw v.tidy.running refl;
        };
        ready = ready_of s.active_uploads s.tasks more v.none_waits (
            omega (
              arith,
              waiting-append s.active_uploads s.tasks (new_task file md5 ∷ []),
              waiting_one s.active_uploads (new_task file md5),
            ));
      })

-- A write to one task that leaves its file and does not pause it, and a start after it.
pub restart-Inv :
    (p : UploadTask → Bool) (f : UploadTask → UploadTask) (s : KnowledgeBaseStore)
    → ((t : UploadTask) → (f t).file_md5 ≡ t.file_md5)
    → ((t : UploadTask) → not_paused t ≡ true → not_paused (f t) ≡ true)
    → Inv s
    → Inv (start_upload (record s { tasks = change_first p f s.tasks }))
restart-Inv p f s same run v =
    let changed = change_first p f s.tasks in
    start_upload-Inv (record s { tasks = changed })
      (record {
        tidy = IsTidy-change_first s.active_uploads p f s.tasks same run v.tidy;
        ready =
            ready_of s.active_uploads s.tasks changed v.none_waits
              (waiting-change_first s.active_uploads p f same s.tasks);
      })

enqueue_existing-Inv :
    (st : UploadStatus) (file : NewFile) (md5 : String) (s : KnowledgeBaseStore)
    → not (is_paused st) ≡ true
    → Inv s
    → Inv (enqueue_existing st file md5 s)
unfolding enqueue_existing
enqueue_existing-Inv completed file md5 s r v = v
enqueue_existing-Inv pending file md5 s r v = v
enqueue_existing-Inv uploading file md5 s r v = v
enqueue_existing-Inv interrupted file md5 s r v =
    restart-Inv (has_md5 md5) (set_status pending) s (λ t. refl) (λ t k. refl) v
enqueue_existing-Inv paused file md5 s r v = cc

enqueue_by-Inv :
    (o : Option UploadTask) (file : NewFile) (md5 : String) (s : KnowledgeBaseStore)
    → find? (has_md5 md5) s.tasks ≡ o
    → Inv s
    → Inv (enqueue_by o file md5 s)
unfolding enqueue_by
enqueue_by-Inv none file md5 s h v = append_task-Inv file md5 s v (absent md5 s.tasks h)
enqueue_by-Inv (some t) file md5 s h v =
    enqueue_existing-Inv t.status file md5 s (running_at md5 s.tasks t h v.tidy.running) v

distinct-delete :
    (m : String) (active : List String) → distinct active ≡ true → distinct (delete m active) ≡ true
distinct-delete m [] h = refl
distinct-delete m (a ∷ active) h =
    ground (arith, distinct-delete m active, includes-filter (λ y. not (y == m)) active a)

-- A change of one task that leaves its file, and makes it neither pending nor paused.
settle-Inv :
    (md5 : String) (f : UploadTask → UploadTask) (s : KnowledgeBaseStore)
    → ((t : UploadTask) → (f t).file_md5 ≡ t.file_md5)
    → ((t : UploadTask) → not_paused t ≡ true → not_paused (f t) ≡ true)
    → ((t : UploadTask) → is_pending (f t).status ≡ true → is_pending t.status ≡ true)
    → Inv s
    → Inv (record s { tasks = change_first (has_md5 md5) f s.tasks })
settle-Inv md5 f s same run pend v = record {
  tidy = IsTidy-change_first s.active_uploads (has_md5 md5) f s.tasks same run v.tidy;
  none_waits =
      NoneWaits-of s.active_uploads s.tasks (change_first (has_md5 md5) f s.tasks) v.none_waits
        (waiting-change_first_le s.active_uploads (has_md5 md5) f same pend s.tasks);
}

catch_error-Inv :
    (how : Ending) (md5 : String) (s : KnowledgeBaseStore) → Inv s → Inv (catch_error how md5 s)
unfolding catch_error
catch_error-Inv ended md5 s v = v
catch_error-Inv broken md5 s v =
    settle-Inv md5 (set_status interrupted) s (λ t. refl) (λ t k. refl) (λ t k. cc) v

finally-IsReady :
    (md5 : String) (s : KnowledgeBaseStore)
    → Inv s
    → IsReady (record s { active_uploads = delete md5 s.active_uploads })
finally-IsReady md5 s v =
    let shorter = length-delete md5 s.active_uploads v.tidy.different in
    record {
      tidy = record {
        few = omega (arith, v.tidy.few, shorter.0);
        different = distinct-delete md5 s.active_uploads v.tidy.different;
        files = v.tidy.files;
        running = v.tidy.running;
      };
      ready = elim (v.none_waits) [
        | inl full ↦ inl (omega (arith, shorter.1))
        | inr idle ↦ inr (omega (arith, waiting-delete md5 s.active_uploads s.tasks v.tidy.files))
      ];
    }

-- The events of the queue: a file is chosen, a chunk or a merge is answered, an upload ends.
pub data Event : Type 0 where
  enqueue : NewFile → (md5 : String) → Event
  chunk_done : (total : ℕ) (md5 : String) (chunk_index : ℕ) (latest : List ℕ) → Event
  merged : (md5 : String) (tokens chunks : Option ℕ) → Event
  finished : Ending → (md5 : String) → Event

module _ (percent : ℕ → ℕ → ℕ) where
  unfoldable pub handle : KnowledgeBaseStore → Event → KnowledgeBaseStore
  unfolding enqueue_upload chunk_uploaded merge_file finish_upload
  handle s (enqueue file md5) = enqueue_upload file md5 s
  handle s (chunk_done total md5 i latest) = chunk_uploaded percent total md5 i latest s
  handle s (merged md5 tokens chunks) = merge_file md5 tokens chunks s
  handle s (finished how md5) = finish_upload how md5 s

  unfoldable pub run : KnowledgeBaseStore → List Event → KnowledgeBaseStore
  unfolding handle
  run s [] = s
  run s (e ∷ es) = run (handle s e) es

  -- Every event keeps the invariant: at most three uploads run, each once, no two tasks are for one
  -- file, and either three uploads run or no pending task could start.
  pub handle-Inv : (s : KnowledgeBaseStore) (e : Event) → Inv s → Inv (handle s e)
  unfolding handle
  handle-Inv s (enqueue file md5) v = enqueue_by-Inv (find? (has_md5 md5) s.tasks) file md5 s refl v
  handle-Inv s (chunk_done total md5 i latest) v =
      settle-Inv md5 _ s (λ t. refl) (λ t k. k) (λ t k. k) v
  handle-Inv s (merged md5 tokens chunks) v =
      settle-Inv md5 _ s (λ t. refl) (λ t k. refl) (λ t k. cc) v
  handle-Inv s (finished how md5) v =
      let caught = catch_error how md5 s in
      start_upload-Inv (record caught { active_uploads = delete md5 caught.active_uploads })
        (finally-IsReady md5 caught (catch_error-Inv how md5 s v))

  -- So does every sequence of events.
  pub run-Inv : (s : KnowledgeBaseStore) (es : List Event) → Inv s → Inv (run s es)
  unfolding run
  run-Inv s [] v = v
  run-Inv s (e ∷ es) v = run-Inv (handle s e) es (handle-Inv s e v)
