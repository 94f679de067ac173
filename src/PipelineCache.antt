-- ===== src/PipelineCache.antt =====
-- engine/rendering/pipeline_cache.hpp and pipeline_cache.cpp: the validation of a pipeline cache header
-- and the `PipelineCacheSc` that owns the cache made from a valid blob.
-- PipelineCache/Bytes relates the little-endian reads to the bytes, PipelineCache/Header says which
-- blobs pass, PipelineCache/Life accounts for the cache object.
pub mod Bytes
pub mod Encode
pub mod Header
pub mod Life
mod Examples
use Prim.Native.Nat.{bit_or}
use soteria.Prelude.{
  ℕ, ◌+◌, ◌*◌, ◌%◌, ◌^◌, Bool, true, false, not, ◌&&◌, ◌||◌, Option, none, some, List, ltb, ◌==◌,
  if◌then◌else◌, get_or,
}
use soteria.Result.{
  Result, k_ok, k_invalid_argument, k_vksc_cache_failed, k_already_initialised,
  k_vksc_cache_invalid, is_ok,
}
use soteria.Vulkan.Info.{Kind, DeviceProperties, pipeline_cache_info}
use soteria.Vulkan.{Driver, is_success, M, pure, ◌>>=◌, ◌>>◌, History, create, destroy_if_set}

-- `kScHeaderBytes` and `kMinIndexStride`
abbrev pub sc_header_bytes : ℕ
sc_header_bytes = 56

abbrev pub min_index_stride : ℕ
min_index_stride = 56

-- The two enumerators of the Vulkan SC headers that the check compares with.
pub record Versions : Type 0 where
  pub header_version : ℕ
  pub validation_version : ℕ

-- `p[off]`; a read past the end, which the source's check of the size excludes, gives 0 here.
abbrev pub byte_at : List ℕ → ℕ → ℕ
byte_at p off = get_or p off 0

-- `ReadLe32`
unfoldable pub read_le32 : List ℕ → ℕ → ℕ
read_le32 p off =
    bit_or
      (bit_or (bit_or (byte_at p off) (byte_at p (off + 1) * 2 ^ 8)) (byte_at p (off + 2) * 2 ^ 16))
      (byte_at p (off + 3) * 2 ^ 24)

-- `ReadLe64`
unfoldable pub read_le64 : List ℕ → ℕ → ℕ
read_le64 p off = bit_or (read_le32 p off) (read_le32 p (off + 4) * 2 ^ 32)

-- `indexEnd`, in 64-bit arithmetic: `off` is below 2^64 and the product of two 32-bit numbers too, but
-- the sum wraps.
abbrev pub index_end : (offset count stride : ℕ) → ℕ
index_end offset count stride = (offset + count * stride) % 2 ^ 64

-- `ValidatePipelineCacheHeader`; `none` is the null pointer. A vendor or device that is not the expected
-- one is only logged, so the last two arguments do not count.
unfoldable pub validate_pipeline_cache_header :
    Versions → Option (List ℕ) → (data_size expected_vendor_id expected_device_id : ℕ) → Result
validate_pipeline_cache_header v none data_size vendor device = k_vksc_cache_invalid
validate_pipeline_cache_header v (some bytes) data_size vendor device =
    if ltb data_size sc_header_bytes
    then k_vksc_cache_invalid
    else if not (read_le32 bytes 0 == sc_header_bytes)
        || not (read_le32 bytes 4 == v.header_version)
    then k_vksc_cache_invalid
    else if not (read_le32 bytes 32 == v.validation_version)
    then k_vksc_cache_invalid
    else if ltb (read_le32 bytes 44) min_index_stride
    then k_vksc_cache_invalid
    else if ltb data_size (index_end (read_le64 bytes 48) (read_le32 bytes 40) (read_le32 bytes 44))
    then k_vksc_cache_invalid
    else k_ok

pub record PipelineCacheSc : Type 0 where
  pub cache : ℕ
  pub initialised : Bool

-- A new object.
abbrev pub fresh : PipelineCacheSc
fresh = record { cache = 0; initialised = false }

abbrev pub is_null : {A : Type 0} → Option A → Bool
is_null none = true
is_null (some a) = false

-- The bytes behind a pointer.
abbrev pub bytes_of : Option (List ℕ) → List ℕ
bytes_of none = List.[]
bytes_of (some bytes) = bytes

-- `Shutdown`
unfoldable pub shutdown : ℕ → PipelineCacheSc → M PipelineCacheSc
shutdown device c =
    if not c.initialised
    then pure c
    else do destroy_if_set device Kind.vk_pipeline_cache c.cache; pure fresh

module _ (d : Driver) (v : Versions) where
  -- `Init`
  unfoldable pub init :
      (device phys_device : ℕ)
      → Option (List ℕ)
      → ℕ
      → PipelineCacheSc
      → M (Result × PipelineCacheSc)
  init device phys_device data_ptr data_size c h =
      let props = d.device_properties h phys_device in
      let valid =
        validate_pipeline_cache_header v data_ptr data_size props.vendor_id props.device_id in
      (if c.initialised
          then pure (k_already_initialised, c)
          else if device == 0 || phys_device == 0 || is_null data_ptr || data_size == 0
          then pure (k_invalid_argument, c)
          else if not (is_ok valid)
          then pure (valid, c)
          else do
            r ← create d device (pipeline_cache_info data_size (bytes_of data_ptr))
            if not (is_success r.result)
                then pure (k_vksc_cache_failed, record c { cache = r.handle })
                else pure (k_ok, record { cache = r.handle; initialised = true }))
        h
