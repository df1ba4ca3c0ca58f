-- ===== src/Ipp/Buffer.antt =====
-- The growing output buffer of main/ipp_codec.c (`byte_buffer_t`, `append`, `append_*`).
-- The heap is not part of the source: `heap n size` says whether the n-th request of a message,
-- for `size` bytes, is granted, and the buffer counts the requests. `bytes` is what the C array
-- holds below `length`. size_t has 32 bits, as on the ESP32.
pub mod Laws
use espresso.Prelude.{
  ℕ, zero, suc, ◌+◌, ◌-◌, ◌*◌, ◌/◌, ◌%◌, ◌^◌, Bool, Option, none, some, List, [], ◌∷◌, ◌++◌, length,
  ltb, ◌==◌, if◌then◌else◌, Bytes, ◌>>=◌,
}

abbrev pub size_max : ℕ
size_max = 2 ^ 32 - 1

abbrev pub Heap : Type 0
Heap = ℕ → ℕ → Bool

pub record Buffer : Type 0 where
  pub bytes : Bytes
  pub capacity : ℕ
  pub requests : ℕ

abbrev pub empty : Buffer
empty = record { bytes = []; capacity = 0; requests = 0 }

-- Big-endian words.
unfoldable pub be16 : ℕ → Bytes
be16 n = n / 256 % 256 ∷ n % 256 ∷ []

unfoldable pub be32 : ℕ → Bytes
be32 n = n / 2 ^ 24 % 256 ∷ n / 2 ^ 16 % 256 ∷ n / 2 ^ 8 % 256 ∷ n % 256 ∷ []

-- The bytes of one attribute: tag, name with its length, value with its length.
abbrev pub attribute_bytes : ℕ → Bytes → Bytes → Bytes
attribute_bytes tag name value =
    (tag ∷ []) ++ (be16 (length name) ++ (name ++ (be16 (length value) ++ value)))

-- `while (capacity < required)`: 32 rounds are enough for a size_t, by `grow-le`.
unfoldable pub grow : ℕ → ℕ → ℕ → ℕ
grow zero capacity required = capacity
grow (suc fuel) capacity required =
    let doubled = grow fuel (capacity * 2) required in
    if ltb capacity required
    then if ltb (size_max / 2) capacity then required else doubled
    else capacity

unfoldable pub new_capacity : Buffer → ℕ → ℕ
new_capacity buffer required =
    grow 32 (if buffer.capacity == 0 then 256 else buffer.capacity) required

module _ (heap : Heap) where
  -- `malloc`, where only its success matters.
  unfoldable pub allocate : ℕ → Buffer → Option Buffer
  allocate size buffer =
      if heap buffer.requests size
      then some (record buffer { requests = buffer.requests + 1 })
      else none

  -- `realloc` to a capacity, and the copy behind it.
  unfoldable pub extend : ℕ → Bytes → Buffer → Option Buffer
  extend capacity bytes buffer =
      if heap buffer.requests capacity
      then some (record {
        bytes = buffer.bytes ++ bytes;
        capacity = capacity;
        requests = buffer.requests + 1;
      })
      else none

  unfoldable pub append : Bytes → Buffer → Option Buffer
  unfolding extend
  append bytes buffer =
      if length bytes == 0
      then some buffer
      else if ltb (size_max - length buffer.bytes) (length bytes)
      then none
      else if ltb buffer.capacity (length buffer.bytes + length bytes)
      then extend (new_capacity buffer (length buffer.bytes + length bytes)) bytes buffer
      else some (record buffer { bytes = buffer.bytes ++ bytes })

  unfoldable pub append_u16 : ℕ → Buffer → Option Buffer
  append_u16 value buffer = if ltb 65535 value then none else append (be16 value) buffer

  -- A NULL name is the empty one.
  unfoldable pub append_attribute : ℕ → Bytes → Bytes → Buffer → Option Buffer
  append_attribute tag name value buffer = do
    b ← append (tag ∷ []) buffer
    c ← append_u16 (length name) b
    d ← append name c
    e ← append_u16 (length value) d
    append value e

-- `read_u16` and `read_u32` read the first bytes; every caller has checked that they are there.
unfoldable pub read_u16 : Bytes → ℕ
read_u16 (a ∷ b ∷ _) = a * 256 + b
read_u16 _ = 0

unfoldable pub read_u32 : Bytes → ℕ
read_u32 (a ∷ b ∷ c ∷ d ∷ _) = a * 2 ^ 24 + b * 2 ^ 16 + c * 2 ^ 8 + d
read_u32 _ = 0

-- Operations that append to a buffer.
module _ (heap : Heap) where
  abbrev pub append_string : ℕ → Bytes → Bytes → Buffer → Option Buffer
  append_string tag name value = append_attribute heap tag name value

  unfoldable pub append_i32 : ℕ → Bytes → ℕ → Buffer → Option Buffer
  append_i32 tag name value = append_attribute heap tag name (be32 value)
