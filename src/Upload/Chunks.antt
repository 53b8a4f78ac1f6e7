-- ===== src/Upload/Chunks.antt =====
-- How a file is cut into chunks: `uploadChunk` of frontend/src/store/modules/knowledge-base/index.ts.
use native.Mathlib.Nat.{
  zero-add, suc-add, zero-min, min-zero, suc-min-suc, zero-mul, suc-mul, div-add-mod, mod-lt,
}
use smart_copilot.Common.{
  sym, ℕ, zero, suc, ◌+◌, ◌-◌, ◌*◌, ◌/◌, ◌≤◌, ◌<◌, min, ◌≡◌, refl, ap, ap₂, ◌∙◌, List, [], ◌∷◌,
  ◌++◌, arith, length, take, drop,
}

abbrev pub chunk_size : ℕ
chunk_size = 5 * 1024 * 1024

module _ (size : ℕ) where
  -- `Math.ceil(totalSize / chunkSize)`
  unfoldable pub total_chunks : ℕ → ℕ
  total_chunks total_size = (total_size + size - 1) / size

  unfoldable pub chunk_start : ℕ → ℕ
  chunk_start chunk_index = chunk_index * size

  unfoldable pub chunk_end : ℕ → ℕ → ℕ
  unfolding chunk_start
  chunk_end total_size chunk_index = min (chunk_start chunk_index + size) total_size

-- `file.slice(start, end)`
abbrev pub slice {ℓ} : {A : Type ℓ} → List A → ℕ → ℕ → List A
slice file start end = take (end - start) (drop start file)

module _ {ℓ} {A : Type ℓ} (size : ℕ) (file : List A) where
  unfoldable pub chunk : ℕ → List A
  chunk i = slice file (chunk_start size i) (chunk_end size (length file) i)

  -- The first chunks, one behind the other.
  unfoldable pub first_chunks : ℕ → List A
  unfolding chunk
  first_chunks zero = []
  first_chunks (suc n) = first_chunks n ++ chunk n

module _ {ℓ} {A : Type ℓ} where
  take-nil : (n : ℕ) → take {A = A} n [] ≡ []
  take-nil zero = refl
  take-nil (suc n) = refl

  take-add : (a b : ℕ) (xs : List A) → take (a + b) xs ≡ take a xs ++ take b (drop a xs)
  take-add zero b xs = rw (zero-add b)
  take-add (suc a) b [] = rw (suc-add a b) (sym (take-nil b))
  take-add (suc a) b (x ∷ xs) = rw (suc-add a b) (ap (◌∷◌ x) (take-add a b xs))

  length-drop : (n : ℕ) (xs : List A) → length (drop n xs) ≡ length xs - n
  length-drop zero xs = omega arith
  length-drop (suc n) [] = omega arith
  length-drop (suc n) (x ∷ xs) = omega (arith, length-drop n xs)

  -- Beyond the end of the list there is nothing more to take.
  take-clip : (n : ℕ) (xs : List A) → take (min n (length xs)) xs ≡ take n xs
  take-clip zero xs = rw (zero-min (length xs))
  take-clip (suc n) [] = rw (min-zero (suc n))
  take-clip (suc n) (x ∷ xs) = rw (suc-min-suc n (length xs)) (ap (◌∷◌ x) (take-clip n xs))

  take_all : (n : ℕ) (xs : List A) → length xs ≤ n → take n xs ≡ xs
  take_all zero [] h = refl
  take_all zero (x ∷ xs) h = absurd (omega arith)
  take_all (suc n) [] h = refl
  take_all (suc n) (x ∷ xs) h = ap (◌∷◌ x) (take_all n xs (omega arith))

module _ {ℓ} {A : Type ℓ} (size : ℕ) (file : List A) where
  chunk_length :
      (n : ℕ)
      → min (n * size + size) (length file) - n * size ≡ min size (length (drop (n * size) file))
  chunk_length n = omega (arith, length-drop (n * size) file)

  chunk-take : (n : ℕ) → chunk size file n ≡ take size (drop (n * size) file)
  unfolding chunk chunk_start chunk_end
  chunk-take n =
      ap (λ k. take k (drop (n * size) file)) (chunk_length n)
      ∙ take-clip size (drop (n * size) file)

  first_chunks-take : (n : ℕ) → first_chunks size file n ≡ take (n * size) file
  unfolding first_chunks
  first_chunks-take zero = rw (zero-mul size)
  first_chunks-take (suc n) =
      ap₂ ◌++◌ (first_chunks-take n) (chunk-take n)
      ∙ sym (take-add (n * size) size file)
      ∙ rw (suc-mul n size)

  total_chunks-enough : 0 < size → length file ≤ total_chunks size (length file) * size
  unfolding total_chunks
  total_chunks-enough h =
      omega (arith, div-add-mod (length file + size - 1) size, mod-lt (length file + size - 1) h)

  mul_mono : (i q : ℕ) → suc i ≤ q → i * size + size ≤ q * size
  mul_mono i q h = grind arith

  started : (i : ℕ) → 0 < size → i < total_chunks size (length file) → i * size < length file
  unfolding total_chunks
  started i h k = omega (
    arith,
    mul_mono i ((length file + size - 1) / size) k,
    div-add-mod (length file + size - 1) size,
  )

  -- For a positive chunk size, the chunks one behind the other are the file.
  pub first_chunks-total :
      0 < size → first_chunks size file (total_chunks size (length file)) ≡ file
  first_chunks-total h =
      first_chunks-take (total_chunks size (length file))
      ∙ take_all (total_chunks size (length file) * size) file (total_chunks-enough h)

  pub chunk_starts :
      (i : ℕ)
      → 0 < size
      → (i < total_chunks size (length file) → chunk_start size i < length file)
        × (length file ≤ chunk_start size (total_chunks size (length file)))
  unfolding chunk_start
  chunk_starts i h = (started i h, total_chunks-enough h)

  -- For a positive chunk size, a chunk that is counted starts inside the file, ends behind its
  -- start, inside the file, and is at most a chunk size long.
  pub chunk_bounds :
      (i : ℕ)
      → 0 < size
      → i < total_chunks size (length file)
      → (chunk_start size i < chunk_end size (length file) i)
        × (chunk_end size (length file) i ≤ chunk_start size i + size)
        × (chunk_end size (length file) i ≤ length file)
  unfolding chunk_start chunk_end
  chunk_bounds i h k = (omega (arith, started i h k), omega arith, omega arith)
