-- ===== src/PipelineCache/Header.antt =====
-- engine/rendering/pipeline_cache.cpp: which blobs `ValidatePipelineCacheHeader` accepts.
use soteria.Prelude.{ℕ, ◌+◌, ◌*◌, ◌%◌, ◌^◌, ◌≤◌, ◌<◌, ◌≡◌, ◌↔◌, some, List, arith, All}
use soteria.Result.{k_ok}
use soteria.PipelineCache.{
  Versions, sc_header_bytes, min_index_stride, read_le32, read_le64, index_end,
  validate_pipeline_cache_header,
}
use soteria.PipelineCache.Bytes.{IsByte, field, read_le-field}

-- The header of a Vulkan SC cache, by the byte positions of its fields, apart from the place of the index.
pub record HasHeader (v : Versions) (bytes : List ℕ) (data_size : ℕ) : Type 0 where
  pub long_enough : sc_header_bytes ≤ data_size
  pub header_size : field bytes 0 4 ≡ sc_header_bytes
  pub header_version : field bytes 4 4 ≡ v.header_version
  pub validation_version : field bytes 32 4 ≡ v.validation_version
  pub stride : min_index_stride ≤ field bytes 44 4

-- Where the index ends, as a number.
abbrev pub true_index_end : List ℕ → ℕ
true_index_end bytes = field bytes 48 8 + field bytes 40 4 * field bytes 44 4

validate_by_reads :
    (v : Versions) (bytes : List ℕ) (data_size vendor device : ℕ)
    → (validate_pipeline_cache_header v (some bytes) data_size vendor device ≡ k_ok) ↔ (
        (sc_header_bytes ≤ data_size)
        × (read_le32 bytes 0 ≡ sc_header_bytes)
        × (read_le32 bytes 4 ≡ v.header_version)
        × (read_le32 bytes 32 ≡ v.validation_version)
        × (min_index_stride ≤ read_le32 bytes 44)
        × (index_end (read_le64 bytes 48) (read_le32 bytes 40) (read_le32 bytes 44) ≤ data_size))
unfolding validate_pipeline_cache_header
validate_by_reads v bytes data_size vendor device = (λ e. ground arith, λ h. ground arith)

-- A blob of bytes is accepted exactly when it has a Vulkan SC header and the end of its index,
-- modulo 2^64, lies inside it, whatever vendor and device are expected.
pub validate_iff :
    (v : Versions) (bytes : List ℕ) (data_size vendor device : ℕ)
    → All IsByte bytes
    → (validate_pipeline_cache_header v (some bytes) data_size vendor device ≡ k_ok)
      ↔ (HasHeader v bytes data_size × (true_index_end bytes % 2 ^ 64 ≤ data_size))
validate_iff v bytes data_size vendor device h =
    let le32 = λ (off : ℕ). (read_le-field bytes off h).0 in
    let reads =
      rw (le32 0, le32 4, le32 32, le32 44, le32 40, (read_le-field bytes 48 h).1) at
        (validate_by_reads v bytes data_size vendor device) in
    (
      λ e.
          let p = reads.0 e in
          (
            record {
              long_enough = p.0;
              header_size = p.1;
              header_version = p.2;
              validation_version = p.3;
              stride = p.4;
            },
            p.5,
          ),
      λ (w, inside).
          reads.1 (
            w.long_enough, w.header_size, w.header_version, w.validation_version, w.stride, inside,
          ),
    )

-- A blob of bytes with a Vulkan SC header and a 32-bit size, whose index ends at or after 2^64 by
-- at most the size of the blob, is accepted although its index lies outside it.
pub validate_overflow :
    (v : Versions) (bytes : List ℕ) (data_size vendor device : ℕ)
    → All IsByte bytes
    → data_size < 2 ^ 32
    → HasHeader v bytes data_size
    → 2 ^ 64 ≤ true_index_end bytes
    → true_index_end bytes ≤ 2 ^ 64 + data_size
    → (validate_pipeline_cache_header v (some bytes) data_size vendor device ≡ k_ok)
      × (data_size < true_index_end bytes)
validate_overflow v bytes data_size vendor device h small w low high =
    ((validate_iff v bytes data_size vendor device h).1 (w, omega arith), omega arith)
