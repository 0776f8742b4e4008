-- ===== src/External/Ciphers.antt =====
-- `ChaCha20Poly1305`: `encrypt` and `decrypt` under a key and a nonce, `none` where they refuse.
use sirr.Prelude.{◌≡◌, Option, some}
use sirr.Text.{Bytes}

-- What is encrypted decrypts under the same key and nonce. (The crate refuses to encrypt more than
-- 256 GiB, which no secret reaches: the handlers limit a value to 1 MiB.)
pub record Cipher : Type 0 where
  pub encrypt : Bytes → Bytes → Bytes → Option Bytes
  pub decrypt : Bytes → Bytes → Bytes → Option Bytes
  pub round_trip :
      (key nonce plaintext : Bytes)
      → (c : Bytes) × (encrypt key nonce plaintext ≡ some c)
        × (decrypt key nonce c ≡ some plaintext)
