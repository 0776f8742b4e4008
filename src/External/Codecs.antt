-- ===== src/External/Codecs.antt =====
-- `bincode::serde::encode_to_vec` and `decode_from_slice` at the standard configuration.
use sirr.Prelude.{◌≡◌, ◌<◌, length}
use sirr.Text.{Bytes}
use sirr.Result.{Result, ok}

-- What is encoded is decoded again, and a struct with fields takes at least one byte.
pub record Codec (A : Type 0) : Type 0 where
  pub encode : A → Result Bytes
  pub decode : Bytes → Result A
  pub round_trip : (a : A) → (b : Bytes) × (encode a ≡ ok b) × (decode b ≡ ok a) × (0 < length b)
