-- ===== src/Upload/Workers.antt =====
-- `uploadChunksInParallel` of frontend/src/store/modules/knowledge-base/index.ts: workers that
-- share one array of chunk indexes. A worker runs without interruption up to the await of its
-- upload, so the state changes at the end of an upload only; which one ends next is not determined.
pub mod Runs
use smart_copilot.Common.{
  ℕ, zero, suc, ◌+◌, ◌≤◌, ◌<◌, min, ◌≡◌, refl, sym, ap, ◌∙◌, List, [], ◌∷◌, ◌++◌, arith, length,
  length-append, Bool, true, false, take, drop, if◌then◌else◌, take-append-drop, eqb,
}

abbrev pub max_concurrent_chunks_per_file : ℕ
max_concurrent_chunks_per_file = 4

-- `queue` is the shared array, `in_flight` the chunks that are being uploaded, `uploaded` those
-- whose upload succeeded and `failed` those whose upload failed; `upload_error` is set or null.
pub record Pool : Type 0 where
  pub queue : List ℕ
  pub in_flight : List ℕ
  pub uploaded : List ℕ
  pub failed : List ℕ
  pub upload_error : Bool

-- The calls of `runWorker` in `Array.from`, each of which takes one chunk off the array.
unfoldable pub start_workers : List ℕ → Pool
start_workers chunk_indexes =
    let worker_count = min max_concurrent_chunks_per_file (length chunk_indexes) in
    record {
      queue = drop worker_count chunk_indexes;
      in_flight = take worker_count chunk_indexes;
      uploaded = [];
      failed = [];
      upload_error = false;
    }

-- The rest of `runWorker` after a successful upload, and its next call up to the await: nothing
-- after an error or with an empty array, otherwise the next chunk.
take_next : Bool → List ℕ → Pool → Pool
take_next true queue p = p
take_next false [] p = p
take_next false (i ∷ queue) p = record p { queue = queue; in_flight = p.in_flight ++ i ∷ [] }

-- The upload of the chunk between `before` and `after` ends well.
unfoldable pub finish : List ℕ → ℕ → List ℕ → Pool → Pool
unfolding take_next
finish before i after p =
    take_next p.upload_error p.queue
      (record p { in_flight = before ++ after; uploaded = p.uploaded ++ i ∷ [] })

-- It fails.
unfoldable pub fail : List ℕ → ℕ → List ℕ → Pool → Pool
fail before i after p = record p {
  in_flight = before ++ after;
  failed = p.failed ++ i ∷ [];
  upload_error = true;
}

pub data Step (p : Pool) : Pool → Type 0 where
  succeeds :
      (before : List ℕ) (i : ℕ) (after : List ℕ)
      → p.in_flight ≡ before ++ i ∷ after
      → Step p (finish before i after p)
  fails :
      (before : List ℕ) (i : ℕ) (after : List ℕ)
      → p.in_flight ≡ before ++ i ∷ after
      → Step p (fail before i after p)

-- What a run reaches, with the number of its steps.
pub data Reach (chunk_indexes : List ℕ) : ℕ → Pool → Type 0 where
  start : Reach chunk_indexes 0 (start_workers chunk_indexes)
  step : {n : ℕ} {p q : Pool} → Reach chunk_indexes n p → Step p q → Reach chunk_indexes (suc n) q
