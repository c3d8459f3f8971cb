-- ===== src/Text/Base32.antt =====
-- `base32.StdEncoding.WithPadding(base32.NoPadding)` on whole bytes, and the lower case form in which
-- core/domain/identifier.go writes it.
use heliopause.Base.{
  All, List, Option, Option-cases, [], ap, arith, if◌then◌else◌, inl, inr, leb, length, ltb, map,
  nat_eq, none, refl, some, suc, take, zero, ℕ, ◌%◌, ◌&&◌, ◌*◌, ◌++◌, ◌+◌, ◌-◌, ◌/◌, ◌<◌, ◌∷◌, ◌≡◌,
}
use heliopause.Text.{Text}

-- `A`..`Z`, then `2`..`7`.
unfoldable pub digit_char : ℕ → ℕ
digit_char n = if ltb n 26 then n + b'A' else n + 24

unfoldable pub char_digit : ℕ → Option ℕ
char_digit c =
    if leb b'A' c && leb c b'Z'
    then some (c - b'A')
    else if leb b'2' c && leb c b'7'
    then some (c - 24)
    else none

-- The digits of one to five bytes.
unfoldable pub digits5 : ℕ → ℕ → ℕ → ℕ → ℕ → List ℕ
digits5 a b c d e =
    a / 8
    ∷ ((a % 8) * 4 + b / 64)
    ∷ (b / 2 % 32)
    ∷ ((b % 2) * 16 + c / 16)
    ∷ ((c % 16) * 2 + d / 128)
    ∷ (d / 4 % 32)
    ∷ ((d % 4) * 8 + e / 32)
    ∷ (e % 32)
    ∷ []

-- The digits of any bytes.
unfoldable pub byte_digits : List ℕ → List ℕ
unfolding digits5
byte_digits [] = []
byte_digits (a ∷ []) = take 2 (digits5 a 0 0 0 0)
byte_digits (a ∷ b ∷ []) = take 4 (digits5 a b 0 0 0)
byte_digits (a ∷ b ∷ c ∷ []) = take 5 (digits5 a b c 0 0)
byte_digits (a ∷ b ∷ c ∷ d ∷ []) = take 7 (digits5 a b c d 0)
byte_digits (a ∷ b ∷ c ∷ d ∷ e ∷ bytes) = digits5 a b c d e ++ byte_digits bytes

-- `EncodeToString`.
unfoldable pub encode : List ℕ → Text
unfolding digit_char byte_digits
encode bytes = map digit_char (byte_digits bytes)

-- The digits of a text, or `none` at a byte outside the alphabet.
unfoldable pub text_digits : Text → Option (List ℕ)
unfolding char_digit
text_digits [] = some []
text_digits (c ∷ s) = elim (char_digit c) [
  | none ↦ none
  | some n ↦ elim (text_digits s) [ none ↦ none | some ns ↦ some (n ∷ ns) ]
]

-- The bytes of whole groups of eight digits and of a last group of two. Only texts of 26 digits are
-- decoded, which end in such a group; a last group of another length is refused here.
unfoldable pub digit_bytes : List ℕ → Option (List ℕ)
digit_bytes [] = some []
digit_bytes (p ∷ q ∷ []) = some ((p * 8 + q / 4) % 256 ∷ [])
digit_bytes (p ∷ q ∷ r ∷ s ∷ t ∷ u ∷ v ∷ w ∷ ds) = elim (digit_bytes ds) [
  | none ↦ none
  | some bytes ↦ some (
      ((p * 8 + q / 4) % 256)
      ∷ (((q % 4) * 64 + r * 2 + s / 16) % 256)
      ∷ (((s % 16) * 16 + t / 2) % 256)
      ∷ (((t % 2) * 128 + u * 4 + v / 8) % 256)
      ∷ (((v % 8) * 32 + w) % 256)
      ∷ bytes)
]
digit_bytes _ = none

-- `DecodeString`.
unfoldable pub decode : Text → Option (List ℕ)
unfolding text_digits digit_bytes
decode s = elim (text_digits s) [ none ↦ none | some ds ↦ digit_bytes ds ]

char_digit-digit_char : (n : ℕ) → n < 32 → char_digit (digit_char n) ≡ some n
unfolding char_digit digit_char
char_digit-digit_char n h = ground arith

text_digits-map : (ds : List ℕ) → All (λ d. d < 32) ds → text_digits (map digit_char ds) ≡ some ds
unfolding text_digits
text_digits-map [] h = refl
text_digits-map (d ∷ ds) h = ground (arith, char_digit-digit_char d h.0, text_digits-map ds h.1)

abbrev pub IsByte : ℕ → Type 0
IsByte b = b < 256

abbrev pub IsDigit : ℕ → Type 0
IsDigit d = d < 32

pub byte_digits-IsDigit : (bytes : List ℕ) → All IsByte bytes → All IsDigit (byte_digits bytes)
unfolding byte_digits
byte_digits-IsDigit [] h = tt
byte_digits-IsDigit (a ∷ []) h = omega arith
byte_digits-IsDigit (a ∷ b ∷ []) h = omega arith
byte_digits-IsDigit (a ∷ b ∷ c ∷ []) h = omega arith
byte_digits-IsDigit (a ∷ b ∷ c ∷ d ∷ []) h = omega arith
byte_digits-IsDigit (a ∷ b ∷ c ∷ d ∷ e ∷ bytes) (ha, (hb, (hc, (hd, (he, hs))))) =
    let rest = byte_digits-IsDigit bytes hs in
    (
      omega arith,
      (
        omega arith,
        (
          omega arith,
          (omega arith, (omega arith, (omega arith, (omega arith, (omega arith, rest))))),
        ),
      ),
    )

-- The five bytes come back from their eight digits.
group_round_trip :
    (a b c d e : ℕ)
    → IsByte a
    → IsByte b
    → IsByte c
    → IsByte d
    → IsByte e
    → ((a / 8 * 8 + ((a % 8) * 4 + b / 64) / 4) % 256 ≡ a)
      × (((((a % 8) * 4 + b / 64) % 4) * 64 + (b / 2 % 32) * 2 + ((b % 2) * 16 + c / 16) / 16) % 256
          ≡ b)
      × (((((b % 2) * 16 + c / 16) % 16) * 16 + ((c % 16) * 2 + d / 128) / 2) % 256 ≡ c)
      × (((((c % 16) * 2 + d / 128) % 2) * 128 + (d / 4 % 32) * 4 + ((d % 4) * 8 + e / 32) / 8)
            % 256
          ≡ d)
      × (((((d % 4) * 8 + e / 32) % 8) * 32 + e % 32) % 256 ≡ e)
group_round_trip a b c d e ha hb hc hd he =
    (omega arith, omega arith, omega arith, omega arith, omega arith)

-- Bytes in groups of five, with one byte behind the last group.
digit_bytes-byte_digits :
    (k : ℕ) (bytes : List ℕ)
    → length bytes ≡ 5 * k + 1
    → All IsByte bytes
    → digit_bytes (byte_digits bytes) ≡ some bytes
unfolding digit_bytes byte_digits
digit_bytes-byte_digits k [] n h = absurd (omega arith)
digit_bytes-byte_digits k (a ∷ []) n h = ap (λ t. some (t ∷ [])) (omega arith)
digit_bytes-byte_digits k (a ∷ b ∷ []) n h = absurd (omega arith)
digit_bytes-byte_digits k (a ∷ b ∷ c ∷ []) n h = absurd (omega arith)
digit_bytes-byte_digits k (a ∷ b ∷ c ∷ d ∷ []) n h = absurd (omega arith)
digit_bytes-byte_digits zero (a ∷ b ∷ c ∷ d ∷ e ∷ bytes) n h = absurd (omega arith)
digit_bytes-byte_digits (suc k) (a ∷ b ∷ c ∷ d ∷ e ∷ bytes) n (ha, (hb, (hc, (hd, (he, hs))))) =
    let g = group_round_trip a b c d e ha hb hc hd he in
    rw (digit_bytes-byte_digits k bytes (omega arith) hs) (cc (g.0, g.1, g.2, g.3, g.4))

-- Decoding gives back what was encoded.
pub decode-encode :
    (k : ℕ) (bytes : List ℕ)
    → length bytes ≡ 5 * k + 1
    → All IsByte bytes
    → decode (encode bytes) ≡ some bytes
unfolding decode encode
decode-encode k bytes n h =
    rw (text_digits-map (byte_digits bytes) (byte_digits-IsDigit bytes h), decode)
      (digit_bytes-byte_digits k bytes n h)

-- What is decoded are bytes.
pub digit_bytes-IsByte : (ds bytes : List ℕ) → digit_bytes ds ≡ some bytes → All IsByte bytes
unfolding digit_bytes
digit_bytes-IsByte [] bytes h = ground arith
digit_bytes-IsByte (p ∷ q ∷ []) bytes h = ground arith
digit_bytes-IsByte (p ∷ q ∷ r ∷ s ∷ t ∷ u ∷ v ∷ w ∷ ds) bytes h =
    elim (Option-cases (digit_bytes ds)) [
      | inl e ↦ ground arith
      | inr (rest, e) ↦ ground (arith, digit_bytes-IsByte ds rest)
    ]
digit_bytes-IsByte _ bytes h = cc

pub decode-IsByte : (s : Text) (bytes : List ℕ) → decode s ≡ some bytes → All IsByte bytes
unfolding decode
decode-IsByte s bytes h = elim (Option-cases (text_digits s)) [
  | inl e ↦ ground arith
  | inr (ds, e) ↦ digit_bytes-IsByte ds bytes (ground arith)
]
