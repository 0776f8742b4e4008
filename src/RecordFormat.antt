-- ===== src/RecordFormat.antt =====
-- crates/sirr-server/src/store/db.rs, `encode` and `decode`: a stored secret is a marker byte, the
-- version of its key and the encoded record, or, in old databases, the encoded record alone; and
-- store/crypto.rs, the encryption of its value.
use sirr.Prelude.{ℕ, ◌<◌, ◌≡◌, ◌≢◌, [], ◌∷◌, arith, length, ◌==◌, if◌then◌else◌}
use sirr.Text.{Bytes}
use sirr.Result.{
  Result, ok, err, or_error, ◌>>=◌, empty_record, truncated_record, encrypt_failed, decrypt_failed,
}
use sirr.Records.{SecretRecord}
use sirr.Database.{Env}

-- `RECORD_V2_MARKER`.
abbrev pub record_v2_marker : ℕ
record_v2_marker = 1

module _ (env : Env) where
  unfoldable pub encode : SecretRecord → ℕ → Result Bytes
  encode r key_version = do
    payload ← env.secret_codec.encode r
    ok (record_v2_marker ∷ key_version ∷ payload)

  -- What follows the marker.
  decode_v2 : Bytes → Result (SecretRecord × ℕ)
  decode_v2 [] = err truncated_record
  decode_v2 (key_version ∷ []) = err truncated_record
  decode_v2 (key_version ∷ b ∷ payload) = do
    r ← env.secret_codec.decode (b ∷ payload)
    ok (r, key_version)

  unfoldable pub decode : Bytes → Result (SecretRecord × ℕ)
  unfolding decode_v2
  decode [] = err empty_record
  decode (marker ∷ rest) =
      if marker == record_v2_marker
      then decode_v2 rest
      else (do r ← env.secret_codec.decode (marker ∷ rest); ok (r, 1))

  unfoldable pub encrypt : Bytes → Bytes → Bytes → Result Bytes
  encrypt key nonce plaintext = or_error encrypt_failed (env.cipher.encrypt key nonce plaintext)

  unfoldable pub decrypt : Bytes → Bytes → Bytes → Result Bytes
  decrypt key ciphertext nonce = or_error decrypt_failed (env.cipher.decrypt key nonce ciphertext)

  -- Encryption gives a ciphertext that decrypts to the plaintext under the same key and nonce.
  pub decrypt-encrypt :
      (key nonce plaintext : Bytes)
      → (c : Bytes) × (encrypt key nonce plaintext ≡ ok c) × (decrypt key c nonce ≡ ok plaintext)
  unfolding encrypt decrypt
  decrypt-encrypt key nonce plaintext =
      let (c, e, d) = env.cipher.round_trip key nonce plaintext in (c, rw e, rw d)

  -- Every record is encoded, and decoding gives the record and the key version back.
  pub decode-encode :
      (r : SecretRecord) (key_version : ℕ)
      → (b : Bytes) × (encode r key_version ≡ ok b) × (decode b ≡ ok (r, key_version))
  unfolding encode decode
  decode-encode r key_version = go (env.secret_codec.round_trip r)
    where
      go :
          (p : Bytes) × (env.secret_codec.encode r ≡ ok p)
            × (env.secret_codec.decode p ≡ ok r)
            × (0 < length p)
          → (b : Bytes) × (encode r key_version ≡ ok b) × (decode b ≡ ok (r, key_version))
      go ([], e, d, pos) = absurd (omega arith)
      go (x ∷ p, e, d, pos) = (record_v2_marker ∷ key_version ∷ x ∷ p, rw e, rw d)

  -- An encoded record that a database from before key versions holds by itself, and that does not
  -- begin with the marker byte, is read under key version 1.
  pub decode_legacy :
      (r : SecretRecord) (b : ℕ) (p : Bytes)
      → env.secret_codec.encode r ≡ ok (b ∷ p)
      → b ≢ record_v2_marker
      → decode (b ∷ p) ≡ ok (r, 1)
  unfolding decode
  decode_legacy r b p e ne =
      let (p', e', d, _) = env.secret_codec.round_trip r in ground (arith, e', d)
