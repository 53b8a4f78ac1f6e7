-- ===== src/Tests/Uploads.antt =====
-- A small file in chunks, four workers on six chunks, and the queue with four files.
use smart_copilot.Common.{
  ℕ, zero, suc, ◌+◌, ◌≤◌, ◌<◌, String, ◌≡◌, refl, Bool, true, false, ◌||◌, Option, none, some, List,
  [], ◌∷◌, ◌++◌, All, length, arith, inl, inr, map,
}
use smart_copilot.Upload.Chunks.{
  chunk, first_chunks, total_chunks, chunk_start, chunk_end, first_chunks-total,
}
use smart_copilot.Upload.Md5.{Spark}
use smart_copilot.Upload.Progress.{
  has, merge_uploaded_chunks, IsIncreasing, has-merge_uploaded_chunks,
  merge_uploaded_chunks-IsIncreasing, merge_uploaded_chunks_full,
}
use smart_copilot.Upload.Workers.Runs.{Reach-bounds, Reach-complete, count}
use smart_copilot.Upload.Workers.{Pool, start_workers, finish, Reach, start, step, succeeds}
use smart_copilot.Upload.Queue.{
  KnowledgeBaseStore, NewFile, finish_upload, enqueue_upload, broken, ended,
}
use smart_copilot.Upload.Queue.Room.{Inv}
use smart_copilot.Files.Deletes.{Progress, resume_upload, on_before_upload}
use smart_copilot.Files.Resumes.{resume-Inv}
use smart_copilot.Upload.Queue.Events.{Event, enqueue, finished, run, run-Inv}

abbrev bytes : List ℕ
bytes = 1 ∷ 2 ∷ 3 ∷ 4 ∷ 5 ∷ []

first_chunks-total_example : first_chunks 2 bytes (total_chunks 2 5) ≡ bytes
first_chunks-total_example = first_chunks-total 2 bytes (omega arith)

last_chunk : chunk 2 bytes 2 ≡ 5 ∷ []
unfolding chunk chunk_start chunk_end
last_chunk = refl

abbrev text_of : List ℕ → String
text_of [] = ""
text_of (x ∷ xs) = "x"

append_nil : (s : List ℕ) → s ++ [] ≡ s
append_nil s = mathlib.Core.List.append-nil s

append_append : (s xs ys : List ℕ) → (s ++ xs) ++ ys ≡ s ++ (xs ++ ys)
append_append s xs ys = mathlib.Core.List.append_assoc s xs ys

-- A digest that keeps all bytes.
abbrev keeping : Spark
keeping = record {
  State = List ℕ;
  fresh = [];
  append = λ s xs. s ++ xs;
  digest = text_of;
  append_nil = append_nil;
  append_append = append_append;
}

merged_small : merge_uploaded_chunks (2 ∷ 0 ∷ []) (1 ∷ 2 ∷ []) ≡ 0 ∷ 1 ∷ 2 ∷ []
unfolding merge_uploaded_chunks smart_copilot.Upload.Progress.unique smart_copilot.Common.Sort.sort
merged_small = refl

abbrev first_pool : Pool
first_pool = start_workers (0 ∷ 1 ∷ [])

abbrev second_pool : Pool
second_pool = finish (0 ∷ []) 1 [] first_pool

abbrev last_pool : Pool
last_pool = finish [] 0 [] second_pool

out_of_order : Reach (0 ∷ 1 ∷ []) 2 last_pool
unfolding start_workers finish
out_of_order = step (step start (succeeds (0 ∷ []) 1 [] refl)) (succeeds [] 0 [] refl)

Reach-bounds_example : (length last_pool.in_flight ≤ 4) × (2 ≤ 2)
Reach-bounds_example = Reach-bounds (0 ∷ 1 ∷ []) 2 last_pool out_of_order

Reach-complete_example :
    (last_pool.failed ≡ []) × ((a : ℕ) → count last_pool.uploaded a ≡ count (0 ∷ 1 ∷ []) a)
unfolding start_workers finish
Reach-complete_example = Reach-complete (0 ∷ 1 ∷ []) 2 last_pool out_of_order refl refl

abbrev file : NewFile
file = record { name = "f"; size = 5; org_tag = none; org_tag_name = none; is_public = false }

abbrev events : List Event
events =
    enqueue file "a"
    ∷ enqueue file "b"
    ∷ enqueue file "c"
    ∷ enqueue file "d"
    ∷ finished broken "b"
    ∷ []

abbrev no_tasks : KnowledgeBaseStore
no_tasks = record { tasks = []; active_uploads = [] }

active_after : (run (λ n total. n) no_tasks events).active_uploads ≡ "a" ∷ "c" ∷ "d" ∷ []
unfolding run smart_copilot.Upload.Queue.start_upload
active_after = refl

no_tasks-Inv : Inv no_tasks
no_tasks-Inv = record {
  tidy = record { few = omega arith; different = refl; files = refl; running = refl };
  none_waits = inr refl;
}

run-Inv_example : Inv (run (λ n total. n) no_tasks events)
run-Inv_example = run-Inv (λ n total. n) no_tasks events no_tasks-Inv

abbrev told : Progress
told = record { uploaded = 0 ∷ []; progress = 5000 }

resume-Inv_example :
    Inv (resume_upload "b" (run (λ n total. n) no_tasks events))
    × Inv (on_before_upload "b" "b" (some told) (run (λ n total. n) no_tasks events)).1
resume-Inv_example =
    resume-Inv "b" "b" (some told) (run (λ n total. n) no_tasks events)
      (run-Inv (λ n total. n) no_tasks events no_tasks-Inv)
