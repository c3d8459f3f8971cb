-- ===== src/Text/Pattern.antt =====
-- The regular expressions of core/domain: `normalizedIdentifier` (artifact.go) and
-- `failureCodePattern` (run.go).
use heliopause.Base.{
  Bool, [], all, and-eq_true, ap, arith, false, inl, inr, leb, length, nat_eq, refl, subst, sym,
  true, ℕ, ◌&&◌, ◌++◌, ◌==◌, ◌||◌, ◌↔◌, ◌∷◌, ◌≡◌, ◌⊎◌,
}
use heliopause.Text.{Text}

-- `[a-z0-9]`, `[a-z0-9._-]`, `[A-Z]` and `[A-Z0-9_]`.
abbrev pub is_alnum : ℕ → Bool
is_alnum c = leb b'a' c && leb c b'z' || leb b'0' c && leb c b'9'

abbrev pub is_name : ℕ → Bool
is_name c = is_alnum c || c == b'.' || c == b'_' || c == b'-'

abbrev pub is_upper : ℕ → Bool
is_upper c = leb b'A' c && leb c b'Z'

abbrev pub is_code : ℕ → Bool
is_code c = is_upper c || leb b'0' c && leb c b'9' || c == b'_'

-- `(?:[a-z0-9._-]*[a-z0-9])?$`
unfoldable pub name_tail : Text → Bool
name_tail [] = true
name_tail (c ∷ []) = is_alnum c
name_tail (c ∷ d ∷ s) = is_name c && name_tail (d ∷ s)

-- `^[a-z0-9](?:[a-z0-9._-]*[a-z0-9])?$`
unfoldable pub normalized_identifier : Text → Bool
unfolding name_tail
normalized_identifier [] = false
normalized_identifier (c ∷ s) = is_alnum c && name_tail s

-- `^[A-Z][A-Z0-9_]{0,63}$`
unfoldable pub failure_code_pattern : Text → Bool
failure_code_pattern [] = false
failure_code_pattern (c ∷ s) = is_upper c && all is_code s && leb (length s) 63

-- The texts that the first expression denotes: one letter or digit, or two with names between.
pub data IsNormalized : Text → Type 0 where
  single : (c : ℕ) → is_alnum c ≡ true → IsNormalized (c ∷ [])
  bracketed :
      (c d : ℕ) (m s : Text)
      → is_alnum c ≡ true
      → all is_name m ≡ true
      → is_alnum d ≡ true
      → s ≡ c ∷ (m ++ d ∷ [])
      → IsNormalized s

abbrev Tail : Text → Type 0
Tail s =
    (s ≡ [])
    ⊎ ((m : Text) × (d : ℕ) × (all is_name m ≡ true) × (is_alnum d ≡ true) × (s ≡ m ++ d ∷ []))

name_tail_sound : (s : Text) → name_tail s ≡ true → Tail s
unfolding name_tail
name_tail_sound [] h = inl refl
name_tail_sound (c ∷ []) h = inr ([], c, refl, h, refl)
name_tail_sound (c ∷ d ∷ s) h = elim (name_tail_sound (d ∷ s) (ground arith)) [
  | inl e ↦ cc
  | inr (m, e, hm, he, p) ↦ inr (c ∷ m, e, ground arith, he, ap (λ t. c ∷ t) p)
]

-- A name behind which the last letter or digit stands.
name_tail-append :
    (m : Text) (d : ℕ) → all is_name m ≡ true → is_alnum d ≡ true → name_tail (m ++ d ∷ []) ≡ true
unfolding name_tail
name_tail-append [] d hm hd = hd
name_tail-append (c ∷ []) d hm hd = ground arith
name_tail-append (c ∷ c' ∷ m) d hm hd = ground (arith, name_tail-append (c' ∷ m) d)

-- The matcher accepts exactly the texts that the expression of normalized identifiers denotes.
pub normalized_identifier-iff-IsNormalized :
    (s : Text) → (normalized_identifier s ≡ true) ↔ IsNormalized s
unfolding normalized_identifier
normalized_identifier-iff-IsNormalized s = (sound s, complete s)
  where
    sound : (s : Text) → normalized_identifier s ≡ true → IsNormalized s
    sound [] h = cc
    sound (c ∷ s) h = elim (name_tail_sound s (and-eq_true _ _ h).1) [
      | inl e ↦ subst (λ t. IsNormalized (c ∷ t)) (sym e) (single c (and-eq_true _ _ h).0)
      | inr (m, d, hm, hd, p) ↦
          bracketed c d m (c ∷ s) (and-eq_true _ _ h).0 hm hd (ap (λ t. c ∷ t) p)
    ]

    complete : (s : Text) → IsNormalized s → normalized_identifier s ≡ true
    complete _ (single c h) = ground arith
    complete _ (bracketed c d m s hc hm hd p) = rw p (ground (arith, name_tail-append m d hm hd))
