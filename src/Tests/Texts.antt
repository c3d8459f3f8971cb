-- ===== src/Tests/Texts.antt =====
-- Identifiers, encodings and patterns at short texts.
use heliopause.Base.{All, List, [], any, arith, false, ok, refl, some, true, ℕ, ◌↔◌, ◌∷◌, ◌≡◌}
use heliopause.Domain.Identifier.{validate_id}
use heliopause.Domain.Identifier.Format.{IsPayload, id_text, validate_id-eq_ok, validate_id-id_text}
use heliopause.Text.{Text, codes}
use heliopause.Text.Base32.{decode, decode-encode, encode}
use heliopause.Text.Pattern.{
  IsNormalized, normalized_identifier, normalized_identifier-iff-IsNormalized,
}
use heliopause.Text.Utf8.{IsPrintable, is_control, runes, runes-IsPrintable}

abbrev sample_payload : List ℕ
sample_payload = 0 ∷ 1 ∷ 2 ∷ 3 ∷ 250 ∷ 251 ∷ 252 ∷ 253 ∷ 254 ∷ 255 ∷ 16 ∷ 32 ∷ 64 ∷ 128 ∷ 7 ∷ 9 ∷ []

sample_payload-IsPayload : IsPayload sample_payload
sample_payload-IsPayload = record { sized = refl; bytes = ground arith }

validate_id-id_text_example :
    validate_id (id_text (codes "op_") sample_payload) (codes "op_") ≡ ok tt
validate_id-id_text_example =
    validate_id-id_text b'o' (codes "p_") sample_payload sample_payload-IsPayload

validate_id-eq_ok_example :
    (payload : List ℕ) × IsPayload payload
    × (id_text (codes "op_") sample_payload ≡ id_text (codes "op_") payload)
validate_id-eq_ok_example =
    validate_id-eq_ok (id_text (codes "op_") sample_payload) (codes "op_")
      (validate_id-id_text b'o' (codes "p_") sample_payload sample_payload-IsPayload)

decode-encode_example : decode (encode sample_payload) ≡ some sample_payload
decode-encode_example = decode-encode 3 sample_payload refl (ground arith)

normalized_identifier-iff-IsNormalized_example :
    (normalized_identifier (codes "left-pad") ≡ true) ↔ IsNormalized (codes "left-pad")
normalized_identifier-iff-IsNormalized_example =
    normalized_identifier-iff-IsNormalized (codes "left-pad")

-- Two bytes of one rune between two letters.
abbrev sample_text : Text
sample_text = b'a' ∷ 0xC3 ∷ 0xA9 ∷ b'z' ∷ []

sample_runes : runes sample_text ≡ some (b'a' ∷ 0xE9 ∷ b'z' ∷ [])
unfolding runes
sample_runes = refl

sample_no_control : any is_control (b'a' ∷ 0xE9 ∷ b'z' ∷ []) ≡ false
unfolding is_control
sample_no_control = refl

runes-IsPrintable_example : All IsPrintable sample_text
runes-IsPrintable_example =
    runes-IsPrintable sample_text (b'a' ∷ 0xE9 ∷ b'z' ∷ []) sample_runes sample_no_control
