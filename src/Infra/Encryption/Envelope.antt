-- ===== src/Infra/Encryption/Envelope.antt =====
-- infra/crypto/symmetric-encryption.service.ts: what was encrypted is decrypted.
use gnester_lite.Common.{
  ◌≡◌, refl, ap, ◌∙◌, false, ◌==◌, Option, List, [], ◌∷◌, ◌++◌, All, Text, split, ok,
}
use gnester_lite.Infra.Encryption.{
  Bytes, Crypto, format_version, algorithm, join, additional_data, payload, encrypt_string,
  decrypt_parts, decrypt_string,
}

abbrev IsPlain : Text → Type 0
IsPlain = All (λ c. (c == 58) ≡ false)

split-plain : (w : Text) → IsPlain w → split 58 w ≡ w ∷ []
split-plain [] h = refl
split-plain (c ∷ cs) h = rw h.0 (rw (split-plain cs h.1) refl)

split-append : (w t : Text) → IsPlain w → split 58 (w ++ 58 ∷ t) ≡ w ∷ split 58 t
split-append [] t h = refl
split-append (c ∷ cs) t h = rw h.0 (rw (split-append cs t h.1) refl)

split-join :
    (w : Text) (ws : List Text) → IsPlain w → All IsPlain ws → split 58 (join (w ∷ ws)) ≡ w ∷ ws
split-join w [] h k = split-plain w h
split-join w (v ∷ ws) h k =
    split-append w (join (v ∷ ws)) h ∙ ap (λ t. w ∷ t) (split-join v ws k.0 k.1)

module _ (c : Crypto) (key iv : Bytes) where
  split-payload : (s : Bytes × Bytes) → split 58 (join (payload c key iv s)) ≡ payload c key iv s
  split-payload s =
      split-join format_version (algorithm ∷ c.encode iv ∷ c.encode s.1 ∷ c.encode s.0 ∷ [])
        (refl, (refl, tt))
        (
          (
            refl,
            (refl, (refl, (refl, (refl, (refl, (refl, (refl, (refl, (refl, (refl, tt)))))))))),
          ),
          (c.encode_plain iv, (c.encode_plain s.1, (c.encode_plain s.0, tt))),
        )

  -- Whatever the key, the initialisation vector and the context, a text that UTF-8 preserves is
  -- decrypted, under the same key and context, to itself.
  pub decrypt_string-encrypt_string :
      (plaintext : Text) (context : Option Text)
      → c.of_utf8 (c.to_utf8 plaintext) ≡ plaintext
      → decrypt_string c key (encrypt_string c key iv plaintext context) context ≡ ok plaintext
  unfolding decrypt_string encrypt_string
  decrypt_string-encrypt_string plaintext context h =
      let s = c.seal key iv (additional_data c key context) (c.to_utf8 plaintext) in
      ap (decrypt_parts c key context) (split-payload s)
      ∙ rw (c.decode_encode iv) (
          rw (c.decode_encode s.1) (
            rw (c.decode_encode s.0) (
              rw (c.open_seal key iv (additional_data c key context) (c.to_utf8 plaintext))
                (ap ok h))))
