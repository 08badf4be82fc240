-- ===== src/Infra/Encryption.antt =====
-- infra/crypto/symmetric-encryption.service.ts: the envelope around AES-256-GCM. The cipher, base64url,
-- UTF-8 and the digest are outside. Bytes are a list of numbers.
pub mod Envelope
use gnester_lite.Common.{
  ℕ, ◌≡◌, Bool, true, false, not, ◌&&◌, ◌||◌, ◌==◌, if◌then◌else◌, Option, none, some, List, [],
  ◌∷◌, ◌++◌, All, Text, text_eq, codes, split, length, Result, ok, err, Failure, internal, is_empty,
}

abbrev pub Bytes : Type 0
Bytes = List ℕ

-- base64url, which has no colon and decodes to what was encoded; UTF-8; and the cipher, which opens
-- what it sealed under the same key, vector and additional data, and throws (`none`) or returns for
-- anything else.
pub record Crypto : Type 0 where
  pub encode : Bytes → Text
  pub decode : Text → Bytes
  pub to_utf8 : Text → Bytes
  pub of_utf8 : Bytes → Text
  pub seal : Bytes → Bytes → Option Bytes → Bytes → Bytes × Bytes
  pub open_sealed : Bytes → Bytes → Bytes → Option Bytes → Bytes → Option Bytes
  pub development_key : Bytes
  pub decode_encode : (b : Bytes) → decode (encode b) ≡ b
  pub encode_plain : (b : Bytes) → All (λ c. (c == 58) ≡ false) (encode b)
  pub open_seal :
      (key iv : Bytes) (aad : Option Bytes) (b : Bytes)
      → open_sealed key iv (seal key iv aad b).1 aad (seal key iv aad b).0 ≡ some b

abbrev pub format_version : Text
format_version = codes "v1"

abbrev pub algorithm : Text
algorithm = codes "aes-256-gcm"

-- `join(':')`
abbrev pub join : List Text → Text
join [] = []
join (w ∷ []) = w
join (w ∷ v ∷ ws) = w ++ 58 ∷ join (v ∷ ws)

module _ (c : Crypto) (key : Bytes) where
  -- An empty context is as none.
  abbrev pub additional_data : Option Text → Option Bytes
  additional_data none = none
  additional_data (some t) = if is_empty t then none else some (c.to_utf8 t)

  abbrev pub payload : Bytes → Bytes × Bytes → List Text
  payload iv (encrypted, tag) =
      format_version ∷ algorithm ∷ c.encode iv ∷ c.encode tag ∷ c.encode encrypted ∷ []

  -- encryptString, with the random bytes of the initialisation vector
  unfoldable pub encrypt_string : Bytes → Text → Option Text → Text
  encrypt_string iv plaintext context =
      join (payload iv (c.seal key iv (additional_data context) (c.to_utf8 plaintext)))

  abbrev pub opened : Option Bytes → Result Text
  opened none = err (internal "Encrypted payload authentication failed.")
  opened (some b) = ok (c.of_utf8 b)

  abbrev pub invalid : Result Text
  invalid = err (internal "Encrypted payload format is invalid.")

  abbrev pub decrypt_parts : Option Text → List Text → Result Text
  decrypt_parts context (version ∷ name ∷ iv ∷ tag ∷ encrypted ∷ []) =
      if text_eq version format_version && text_eq name algorithm
      then opened (
          c.open_sealed key (c.decode iv) (c.decode tag) (additional_data context)
            (c.decode encrypted))
      else invalid
  decrypt_parts context parts = invalid

  unfoldable pub decrypt_string : Text → Option Text → Result Text
  decrypt_string t context = decrypt_parts context (split 58 t)

-- resolveKey, with whether the environment is production
abbrev pub checked_key : Bytes → Result Bytes
checked_key key =
    if length key == 32 then ok key else err (internal "ENCRYPTION_KEY must decode to 32 bytes.")

abbrev pub default_key : Crypto → Bool → Result Bytes
default_key c true = err (internal "ENCRYPTION_KEY is required in production.")
default_key c false = ok c.development_key

unfoldable pub resolve_key : Crypto → Bool → Option Text → Result Bytes
resolve_key c production none = default_key c production
resolve_key c production (some t) =
    if is_empty t then default_key c production else checked_key (c.decode t)
