-- ===== src/Upload/Md5.antt =====
-- `calculateMD5` of frontend/src/utils/common.ts. The digest of the package spark-md5 is a
-- parameter; a file is the list of its bytes.
use native.Mathlib.Decide.{dec_lt}
use smart_copilot.Common.{
  subst, leb→le, not-leb→lt, ℕ, zero, suc, ◌+◌, ◌≤◌, ◌<◌, ◌≡◌, sym, ap, ◌∙◌, List, [], ◌++◌, arith,
  length, Option, none, some, leb, Bool-cases, inl, inr, String, if◌then◌else◌,
}
use smart_copilot.Upload.Chunks.{
  total_chunks, chunk_start, chunk, first_chunks, first_chunks-total, chunk_starts,
}

-- `SparkMD5.ArrayBuffer`: a state that takes the bytes that are appended, and its digest. What was
-- appended in two pieces was appended as one.
pub record Spark : Type 1 where
  pub State : Type 0
  pub fresh : State
  pub append : State → List ℕ → State
  pub digest : State → String
  pub append_nil : (s : State) → append s [] ≡ s
  pub append_append : (s : State) (xs ys : List ℕ) → append (append s xs) ys ≡ append s (xs ++ ys)

module _ {size : ℕ} (n : ℕ) (file : List ℕ) (h : 0 < size)
    (k : n ≤ total_chunks size (length file)) where
  -- The test of the loop tells whether every chunk was read.
  read_all : length file ≤ chunk_start size n → first_chunks size file n ≡ file
  read_all l = elim (dec_lt n (total_chunks size (length file))) [
    | yes p ↦ absurd (omega (arith, (chunk_starts size file n h).0 p))
    | no p ↦
        let all_read : n ≡ total_chunks size (length file) = omega arith in
        rw all_read (first_chunks-total size file h)
  ]

  unread : chunk_start size n < length file → suc n ≤ total_chunks size (length file)
  unread l = elim (dec_lt n (total_chunks size (length file))) [
    | yes p ↦ p
    | no p ↦
        let all_read : total_chunks size (length file) ≡ n = omega arith in
        let behind : length file ≤ chunk_start size n =
          subst (λ t. length file ≤ chunk_start size t) all_read (chunk_starts size file n h).1 in
        absurd (omega arith)
  ]

module _ (spark : Spark) (size : ℕ) where
  -- `loadNext` and `onload` in turn, with the number of chunks that were read; the fuel bounds the
  -- rounds, and `none` means that it ran out.
  pub load_next : ℕ → List ℕ → ℕ → spark.State → Option String
  load_next zero file current_chunk s = none
  load_next (suc fuel) file current_chunk s =
      let rest =
        load_next fuel file (suc current_chunk) (spark.append s (chunk size file current_chunk)) in
      if leb (length file) (chunk_start size current_chunk) then some (spark.digest s) else rest

  pub calculate_md5 : ℕ → List ℕ → Option String
  calculate_md5 fuel file = load_next fuel file 0 spark.fresh

  -- From the chunk after the first `n`, what is appended is what the first `n` lack.
  load_next_lem :
      (fuel n : ℕ) (file : List ℕ)
      → 0 < size
      → n ≤ total_chunks size (length file)
      → total_chunks size (length file) < n + fuel
      → load_next fuel file n (spark.append spark.fresh (first_chunks size file n))
        ≡ some (spark.digest (spark.append spark.fresh file))
  unfolding load_next first_chunks
  load_next_lem zero n file h k l = absurd (omega arith)
  load_next_lem (suc fuel) n file h k l =
      elim (Bool-cases (leb (length file) (chunk_start size n))) [
        | inl done ↦ rw done (
            ap (λ f. some (spark.digest (spark.append spark.fresh f)))
              (read_all n file h k (leb→le _ _ done)))
        | inr more ↦ rw more (
            ap (load_next fuel file (suc n))
              (spark.append_append spark.fresh (first_chunks size file n) (chunk size file n))
            ∙ load_next_lem fuel (suc n) file h (unread n file h k (not-leb→lt _ _ more))
                (omega arith))
      ]

  -- For a positive chunk size and more fuel than there are chunks the loop ends, and its digest is
  -- that of the whole file appended at once.
  pub calculate_md5_lem :
      (fuel : ℕ) (file : List ℕ)
      → 0 < size
      → total_chunks size (length file) < fuel
      → calculate_md5 fuel file ≡ some (spark.digest (spark.append spark.fresh file))
  unfolding calculate_md5 first_chunks
  calculate_md5_lem fuel file h l =
      ap (load_next fuel file 0) (sym (spark.append_nil spark.fresh))
      ∙ load_next_lem fuel 0 file h (omega arith) (omega arith)
