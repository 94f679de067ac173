-- ===== src/PipelineCache/Examples.antt =====
-- Runs of the pipeline cache and of its header check.
use soteria.Prelude.{
  ℕ, ◌+◌, ◌%◌, ◌^◌, ◌≤◌, ◌<◌, ◌≡◌, ◌↔◌, refl, Bool, true, false, ◌&&◌, ltb, some, List, [], ◌∷◌,
  ◌++◌, replicate, arith, All,
}
use soteria.Result.{k_ok, is_ok}
use soteria.Vulkan.Info.{Kind}
use soteria.Vulkan.Live.{Object}
use soteria.Vulkan.Simulated.{driver}
use soteria.PipelineCache.{
  Versions, fresh, init, read_le32, read_le64, validate_pipeline_cache_header,
}
use soteria.PipelineCache.Bytes.{IsByte}
use soteria.PipelineCache.Encode.{le_bytes, read_le-le_bytes}
use soteria.PipelineCache.Header.{HasHeader, true_index_end, validate_iff, validate_overflow}
use soteria.PipelineCache.Life.{init_rejects}

abbrev versions : Versions
versions = record { header_version = 1000298001; validation_version = 1 }

-- A header with its counts: `count` entries of 56 bytes at the offset of the eight bytes.
abbrev header : (count : ℕ) → List ℕ → List ℕ
header count offset =
    56 ∷ 0 ∷ 0 ∷ 0 ∷ 17 ∷ 86 ∷ 159 ∷ 59 ∷ replicate 24 0
    ++ (1 ∷ 0 ∷ 0 ∷ 0 ∷ 0 ∷ 0 ∷ 0 ∷ 0 ∷ count ∷ 0 ∷ 0 ∷ 0 ∷ 56 ∷ 0 ∷ 0 ∷ 0 ∷ offset)

-- Its index has one entry, 56 bytes before 2^64.
abbrev wrapping : List ℕ
wrapping = header 1 (200 ∷ 255 ∷ 255 ∷ 255 ∷ 255 ∷ 255 ∷ 255 ∷ 255 ∷ [])

abbrev plain : List ℕ
plain = header 0 (56 ∷ 0 ∷ 0 ∷ 0 ∷ 0 ∷ 0 ∷ 0 ∷ 0 ∷ [])

abbrev are_bytes : List ℕ → Bool
are_bytes [] = true
are_bytes (b ∷ p) = ltb b 256 && are_bytes p

are_bytes_sound : (p : List ℕ) → are_bytes p ≡ true → All IsByte p
are_bytes_sound [] h = tt
are_bytes_sound (b ∷ p) h = (ground (arith, h), are_bytes_sound p (ground (arith, h)))

wrapping-IsByte : All IsByte wrapping
wrapping-IsByte = are_bytes_sound wrapping refl

plain-IsByte : All IsByte plain
plain-IsByte = are_bytes_sound plain refl

wrapping-HasHeader : HasHeader versions wrapping 56
wrapping-HasHeader = record {
  long_enough = omega arith;
  header_size = refl;
  header_version = refl;
  validation_version = refl;
  stride = omega arith;
}

validate_iff_example :
    (validate_pipeline_cache_header versions (some plain) 56 0 0 ≡ k_ok)
    ↔ (HasHeader versions plain 56 × (true_index_end plain % 2 ^ 64 ≤ 56))
validate_iff_example = validate_iff versions plain 56 0 0 plain-IsByte

validate_overflow_example :
    (validate_pipeline_cache_header versions (some wrapping) 56 0 0 ≡ k_ok)
    × (56 < true_index_end wrapping)
validate_overflow_example =
    validate_overflow versions wrapping 56 0 0 wrapping-IsByte (omega arith) wrapping-HasHeader
      (omega arith) (omega arith)

abbrev cache : Object
cache = record { kind = Kind.vk_pipeline_cache; handle = 6 }

init_rejects_example :
    (is_ok (init driver versions 7 11 (some (1 ∷ [])) 1 fresh []).0.0 ≡ false)
    × ((init driver versions 7 11 (some (1 ∷ [])) 1 fresh []).0.1 ≡ fresh)
    × ((init driver versions 7 11 (some (1 ∷ [])) 1 fresh []).1 ≡ [])
unfolding validate_pipeline_cache_header
init_rejects_example = init_rejects driver versions 7 11 (some (1 ∷ [])) 1 fresh [] refl

read_le-le_bytes_example :
    (read_le32 ((7 ∷ 8 ∷ []) ++ (le_bytes 4 305419896 ++ 9 ∷ [])) 2 ≡ 305419896)
    × (read_le64 ((7 ∷ 8 ∷ []) ++ (le_bytes 8 (2 ^ 63 + 1) ++ 9 ∷ [])) 2 ≡ 2 ^ 63 + 1)
read_le-le_bytes_example =
    read_le-le_bytes (7 ∷ 8 ∷ []) (9 ∷ []) 305419896 (2 ^ 63 + 1)
      (are_bytes_sound (7 ∷ 8 ∷ []) refl) (are_bytes_sound (9 ∷ []) refl) (omega arith)
      (omega arith)
