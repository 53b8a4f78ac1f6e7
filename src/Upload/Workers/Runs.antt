-- ===== src/Upload/Workers/Runs.antt =====
-- What holds in every run of the workers of `uploadChunksInParallel` in
-- frontend/src/store/modules/knowledge-base/index.ts.
use smart_copilot.Common.{
  ℕ, zero, suc, ◌+◌, ◌≤◌, ◌<◌, min, ◌≡◌, refl, sym, ap, ◌∙◌, List, [], ◌∷◌, ◌++◌, arith, length,
  length-append, Bool, true, false, take, drop, if◌then◌else◌, take-append-drop, eqb,
}
use smart_copilot.Upload.Workers.{
  max_concurrent_chunks_per_file, Pool, start_workers, take_next, finish, fail, succeeds, fails,
  Reach, start, step,
}

-- How often a number stands in a list.
abbrev pub count : List ℕ → ℕ → ℕ
count [] a = 0
count (x ∷ xs) a = (if eqb x a then 1 else 0) + count xs a

count-append : (xs ys : List ℕ) (a : ℕ) → count (xs ++ ys) a ≡ count xs a + count ys a
count-append [] ys a = omega arith
count-append (x ∷ xs) ys a = omega (arith, count-append xs ys a)

-- What holds of a pool after `n` uploads have ended.
pub record Inv (chunk_indexes : List ℕ) (n : ℕ) (p : Pool) : Type 0 where
  pub same :
      (a : ℕ)
      → count p.uploaded a + count p.failed a + count p.in_flight a + count p.queue a
        ≡ count chunk_indexes a
  pub few : length p.in_flight ≤ max_concurrent_chunks_per_file
  pub steps : length p.in_flight + length p.queue + n ≡ length chunk_indexes
  pub no_error : p.upload_error ≡ false → p.failed ≡ []
  pub busy : p.upload_error ≡ false → length p.in_flight ≡ 0 → length p.queue ≡ 0
  pub after_error : p.upload_error ≡ true → 0 < length p.failed

length-take_of_le : (n : ℕ) (xs : List ℕ) → n ≤ length xs → length (take n xs) ≡ n
length-take_of_le zero xs h = refl
length-take_of_le (suc n) [] h = absurd (omega arith)
length-take_of_le (suc n) (x ∷ xs) h = ap suc (length-take_of_le n xs (omega arith))

length-take-drop :
    (n : ℕ) (xs : List ℕ)
    → n ≤ length xs
    → (length (take n xs) ≡ n) × (length (take n xs) + length (drop n xs) ≡ length xs)
length-take-drop n xs h =
    let cut : length (take n xs) + length (drop n xs) ≡ length xs =
      sym (length-append (take n xs) (drop n xs)) ∙ ap length (take-append-drop n xs) in
    (length-take_of_le n xs h, cut)

nil_of_length : (xs : List ℕ) → length xs ≡ 0 → xs ≡ []
nil_of_length [] h = refl
nil_of_length (x ∷ xs) h = absurd (omega arith)

start_workers-Inv : (chunk_indexes : List ℕ) → Inv chunk_indexes 0 (start_workers chunk_indexes)
unfolding start_workers
start_workers-Inv xs =
    let n = min max_concurrent_chunks_per_file (length xs) in
    let (taken, cut) = length-take-drop n xs (omega arith) in
    record {
      same = λ a. omega (
        arith,
        count-append (take n xs) (drop n xs) a,
        ap (λ ys. count ys a) (take-append-drop n xs),
      );
      few = omega arith;
      steps = omega arith;
      no_error = λ e. refl;
      busy = λ e z. omega arith;
      after_error = λ e. cc;
    }

module _ (chunk_indexes : List ℕ) (n : ℕ) (p : Pool) (inv : Inv chunk_indexes n p) (before : List ℕ)
    (i : ℕ) (after : List ℕ) (flying : p.in_flight ≡ before ++ i ∷ after) where
  flying_count : (a : ℕ) → count p.in_flight a ≡ count before a + count (i ∷ after) a
  flying_count a = ap (λ xs. count xs a) flying ∙ count-append before (i ∷ after) a

  flying_length : length p.in_flight ≡ length before + suc (length after)
  flying_length = ap length flying ∙ length-append before (i ∷ after)

  -- The upload has ended; the worker has not gone on yet.
  abbrev ended : Pool
  ended = record p { in_flight = before ++ after; uploaded = p.uploaded ++ i ∷ [] }

  ended_count :
      (a : ℕ)
      → count ended.uploaded a + count p.failed a + count ended.in_flight a + count p.queue a
        ≡ count chunk_indexes a
  ended_count a = omega (
    arith,
    inv.same a,
    flying_count a,
    count-append before after a,
    count-append p.uploaded (i ∷ []) a,
  )

  ended_length : suc (length ended.in_flight) ≡ length p.in_flight
  ended_length = omega (arith, flying_length, length-append before after)

  take_next-Inv :
      (b : Bool) (queue : List ℕ)
      → p.upload_error ≡ b
      → p.queue ≡ queue
      → Inv chunk_indexes (suc n) (take_next b queue ended)
  unfolding take_next
  take_next-Inv true queue e f = record {
    same = ended_count;
    few = omega (arith, inv.few, ended_length);
    steps = omega (arith, inv.steps, ended_length);
    no_error = inv.no_error;
    busy = λ e'. cc (sym e ∙ e');
    after_error = inv.after_error;
  }
  take_next-Inv false [] e f = record {
    same = ended_count;
    few = omega (arith, inv.few, ended_length);
    steps = omega (arith, inv.steps, ended_length);
    no_error = inv.no_error;
    busy = λ e' z. ap length f;
    after_error = inv.after_error;
  }
  take_next-Inv false (j ∷ queue) e f = record {
    same = λ a.
        omega (
          arith,
          ended_count a,
          ap (λ xs. count xs a) f,
          count-append (before ++ after) (j ∷ []) a,
        );
    few = omega (arith, inv.few, ended_length, length-append (before ++ after) (j ∷ []));
    steps =
        omega
          (arith, inv.steps, ended_length, ap length f, length-append (before ++ after) (j ∷ []));
    no_error = inv.no_error;
    busy = λ e' z. absurd (omega (arith, length-append (before ++ after) (j ∷ [])));
    after_error = inv.after_error;
  }

  finish-Inv : Inv chunk_indexes (suc n) (finish before i after p)
  unfolding finish
  finish-Inv = take_next-Inv p.upload_error p.queue refl refl

  fail-Inv : Inv chunk_indexes (suc n) (fail before i after p)
  unfolding fail
  fail-Inv = record {
    same = λ a. omega (
      arith,
      inv.same a,
      flying_count a,
      count-append before after a,
      count-append p.failed (i ∷ []) a,
    );
    few = omega (arith, inv.few, flying_length, length-append before after);
    steps = omega (arith, inv.steps, flying_length, length-append before after);
    no_error = λ e. cc;
    busy = λ e. cc;
    after_error = λ e. omega (arith, length-append p.failed (i ∷ []));
  }

Reach-Inv :
    {chunk_indexes : List ℕ} {n : ℕ} {p : Pool} → Reach chunk_indexes n p → Inv chunk_indexes n p
Reach-Inv {chunk_indexes} start = start_workers-Inv chunk_indexes
Reach-Inv {chunk_indexes} (step {n} {p} r (succeeds before i after e)) =
    finish-Inv chunk_indexes n p (Reach-Inv r) before i after e
Reach-Inv {chunk_indexes} (step {n} {p} r (fails before i after e)) =
    fail-Inv chunk_indexes n p (Reach-Inv r) before i after e

-- However the uploads interleave, at most four chunks are in flight, and no run has more steps
-- than there are chunks: the workers end.
pub Reach-bounds :
    (chunk_indexes : List ℕ) (n : ℕ) (p : Pool)
    → Reach chunk_indexes n p
    → (length p.in_flight ≤ max_concurrent_chunks_per_file) × (n ≤ length chunk_indexes)
Reach-bounds chunk_indexes n p r = let inv = Reach-Inv r in (inv.few, omega (arith, inv.steps))

-- When all workers have ended without an error, every chunk was uploaded as often as the array
-- named it, and none failed.
pub Reach-complete :
    (chunk_indexes : List ℕ) (n : ℕ) (p : Pool)
    → Reach chunk_indexes n p
    → p.in_flight ≡ []
    → p.upload_error ≡ false
    → (p.failed ≡ []) × ((a : ℕ) → count p.uploaded a ≡ count chunk_indexes a)
Reach-complete chunk_indexes n p r idle good =
    let inv = Reach-Inv r in
    let empty : p.queue ≡ [] = nil_of_length p.queue (inv.busy good (ap length idle)) in
    (
      inv.no_error good,
      λ a. omega (
        arith,
        inv.same a,
        ap (λ xs. count xs a) (inv.no_error good),
        ap (λ xs. count xs a) idle,
        ap (λ xs. count xs a) empty,
      ),
    )
