-- ===== src/Domain/Identifier/Format.antt =====
-- internal/core/domain/identifier.go: what an accepted identifier looks like.
use heliopause.Base.{
  ==-refl, ==→≡, All, Bool-cases, List, Option-cases, [], ap, arith, false, inl, inr, length,
  length-append, length-map, list_eq, map, nat_eq, none, ok, refl, some, suc, sym, true, zero, ℕ,
  ◌*◌, ◌++◌, ◌+◌, ◌<◌, ◌==◌, ◌∙◌, ◌∷◌, ◌≡◌,
}
use heliopause.Domain.Identifier.{validate_encoded, validate_id}
use heliopause.Text.{
  Text, cut_prefix, cut_prefix-eq_some, lower, trim_prefix, trim_prefix-append, upper,
}
use heliopause.Text.Base32.{
  IsByte, IsDigit, byte_digits, byte_digits-IsDigit, decode, decode-IsByte, decode-encode,
  digit_char, encode,
}

-- A payload of sixteen bytes.
pub record IsPayload (payload : List ℕ) : Type 0 where
  pub sized : length payload ≡ 16
  pub bytes : All IsByte payload

-- The canonical text of a payload behind a prefix.
abbrev pub id_text : Text → List ℕ → Text
id_text prefix payload = prefix ++ map lower (encode payload)

-- What is said of the digits of an encoded payload.
lower_char :
    (d : ℕ)
    → d < 32
    → (lower (lower (digit_char d)) ≡ lower (digit_char d))
      × (upper (lower (digit_char d)) ≡ digit_char d)
unfolding lower upper digit_char
lower_char d h = ground arith

lower-lower-map :
    (ds : List ℕ)
    → All IsDigit ds
    → map lower (map lower (map digit_char ds)) ≡ map lower (map digit_char ds)
lower-lower-map [] h = refl
lower-lower-map (d ∷ ds) h = cc ((lower_char d h.0).0, lower-lower-map ds h.1)

upper-lower-map :
    (ds : List ℕ) → All IsDigit ds → map upper (map lower (map digit_char ds)) ≡ map digit_char ds
upper-lower-map [] h = refl
upper-lower-map (d ∷ ds) h = cc ((lower_char d h.0).1, upper-lower-map ds h.1)

module _ (payload : List ℕ) (h : IsPayload payload) where
  digits_lem : All IsDigit (byte_digits payload)
  digits_lem = byte_digits-IsDigit payload h.bytes

  lower_stays : map lower (map lower (encode payload)) ≡ map lower (encode payload)
  unfolding encode
  lower_stays = lower-lower-map (byte_digits payload) digits_lem

  upper_back : map upper (map lower (encode payload)) ≡ encode payload
  unfolding encode
  upper_back = upper-lower-map (byte_digits payload) digits_lem

  decode_back : decode (encode payload) ≡ some payload
  decode_back = decode-encode 3 payload h.sized h.bytes

-- The number of digits goes by groups of five bytes.
length-byte_digits :
    (k : ℕ) (bytes : List ℕ) → length bytes ≡ 5 * k + 1 → length (byte_digits bytes) ≡ 8 * k + 2
unfolding byte_digits
length-byte_digits k [] n = absurd (omega arith)
length-byte_digits k (a ∷ []) n = omega arith
length-byte_digits k (a ∷ b ∷ []) n = absurd (omega arith)
length-byte_digits k (a ∷ b ∷ c ∷ []) n = absurd (omega arith)
length-byte_digits k (a ∷ b ∷ c ∷ d ∷ []) n = absurd (omega arith)
length-byte_digits zero (a ∷ b ∷ c ∷ d ∷ e ∷ bytes) n = absurd (omega arith)
length-byte_digits (suc k) (a ∷ b ∷ c ∷ d ∷ e ∷ bytes) n =
    omega (arith, length-byte_digits k bytes (omega arith))

length-encoded : (payload : List ℕ) → IsPayload payload → length (map lower (encode payload)) ≡ 26
unfolding encode
length-encoded payload h = omega (
  arith,
  length-map (map digit_char (byte_digits payload)) lower,
  length-map (byte_digits payload) digit_char,
  length-byte_digits 3 payload h.sized,
)

-- A prefix that is not empty makes a text differ from what follows.
append-ne : (c : ℕ) (p s : Text) → (s == (c ∷ p) ++ s) ≡ false
append-ne c p s = elim (Bool-cases (s == (c ∷ p) ++ s)) [
  | inl same ↦
      absurd (omega (arith, ap length (==→≡ s ((c ∷ p) ++ s) same), length-append (c ∷ p) s))
  | inr differs ↦ differs
]

encoded-eq_ok :
    (payload : List ℕ) → IsPayload payload → validate_encoded (map lower (encode payload)) ≡ ok tt
encoded-eq_ok payload h =
    accepted (map lower (encode payload)) (length-encoded payload h)
      (rw (lower_stays payload h) (==-refl (map lower (encode payload))))
      (rw (upper_back payload h) (decode_back payload h)) h.sized
      (==-refl (map lower (encode payload)))
  where
    accepted :
        (encoded : Text)
        → length encoded ≡ 26
        → (encoded == map lower encoded) ≡ true
        → decode (map upper encoded) ≡ some payload
        → length payload ≡ 16
        → (map lower (encode payload) == encoded) ≡ true
        → validate_encoded encoded ≡ ok tt
    accepted encoded n l d s e = unfold validate_encoded in rw (n, l, d, s, e)

-- The canonical text of every payload of sixteen bytes behind a nonempty prefix is accepted.
pub validate_id-id_text :
    (c : ℕ) (p : Text) (payload : List ℕ)
    → IsPayload payload
    → validate_id (id_text (c ∷ p) payload) (c ∷ p) ≡ ok tt
validate_id-id_text c p payload h =
    unfold validate_id in
    rw (
      trim_prefix-append (c ∷ p) (map lower (encode payload)),
      append-ne c p (map lower (encode payload)),
      encoded-eq_ok payload h,
    )

validate_encoded-eq_ok :
    (encoded : Text)
    → validate_encoded encoded ≡ ok tt
    → (payload : List ℕ) × IsPayload payload × (encoded ≡ map lower (encode payload))
unfolding validate_encoded
validate_encoded-eq_ok encoded h = elim (Option-cases (decode (map upper encoded))) [
  | inl e ↦ ground arith
  | inr (payload, e) ↦
      let checks : (length payload ≡ 16) × ((map lower (encode payload) == encoded) ≡ true) =
        ground arith in
      (
        payload,
        record { sized = checks.0; bytes = decode-IsByte _ payload e },
        sym (==→≡ _ _ checks.1),
      )
]

-- An identifier that is accepted is the prefix followed by the canonical digits of a payload of
-- sixteen bytes.
pub validate_id-eq_ok :
    (value prefix : Text)
    → validate_id value prefix ≡ ok tt
    → (payload : List ℕ) × IsPayload payload × (value ≡ id_text prefix payload)
unfolding validate_id trim_prefix
validate_id-eq_ok value prefix h = elim (Option-cases (cut_prefix value prefix)) [
  | inl e ↦ absurd (unprefixed e)
  | inr (encoded, e) ↦
      let (payload, fits, same) = validate_encoded-eq_ok encoded (behind encoded e) in
      (payload, fits, cut_prefix-eq_some value prefix encoded e ∙ ap (λ t. prefix ++ t) same)
]
  where
    unprefixed : cut_prefix value prefix ≡ none → ⊥
    unprefixed e = ground (arith, ==-refl value)

    behind :
        (encoded : Text) → cut_prefix value prefix ≡ some encoded → validate_encoded encoded ≡ ok tt
    behind encoded e = ground arith
