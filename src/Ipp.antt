-- ===== src/Ipp.antt =====
-- main/ipp_codec.h and the constants of main/ipp_codec.c.
mod Tests
pub mod Buffer
pub mod Csv
pub mod Walk
pub mod Rewrite
pub mod Select
pub mod Filter
pub mod Target
pub mod Inspect
pub mod JobDefaults
pub mod Build
pub mod Synthesize
pub mod Profile
use espresso.Prelude.{ℕ, ◌+◌, ◌*◌, ◌^◌, Bytes, codes}

pub data Code : Type 0 where
  incomplete malformed no_memory unsupported : Code

-- `IPP_CODEC_OK` with what the out-parameters hold, or the other code.
pub data Result {ℓ} (A : Type ℓ) : Type ℓ where
  ok : A → Result A
  err : Code → Result A
