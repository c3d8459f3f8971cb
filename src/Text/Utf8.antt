-- ===== src/Text/Utf8.antt =====
-- UTF-8: `utf8.ValidString`, `strings.TrimSpace` and the rune loop of `strings.IndexFunc`, on the
-- runes of a text. The decoder goes by bytes; its state is the rest of an open sequence.
use heliopause.Base.{
  All, Bool, List, Option, Option-cases, [], any, arith, false, if◌then◌else◌, inl, inr, leb, ltb,
  nat_eq, none, or-eq_false, refl, some, subst, suc, true, zero, ℕ, ◌%◌, ◌&&◌, ◌*◌, ◌+◌, ◌<◌, ◌==◌,
  ◌||◌, ◌∷◌, ◌≡◌, ◌≢◌, ◌≤◌, ◌⊎◌,
}
use heliopause.Text.{Text}

-- The continuation bytes that are still due, the range of the next one, and the bits read so far.
pub data Pending : Type 0 where
  ready : Pending
  due : ℕ → ℕ → ℕ → ℕ → Pending

-- A byte moves the decoder, and may complete a rune; the ranges are those of the Unicode table.
pub data Move : Type 0 where
  invalid : Move
  wait : Pending → Move
  emit : ℕ → Move

abbrev within : ℕ → ℕ → ℕ → Bool
within lo hi b = leb lo b && leb b hi

unfoldable pub lead : ℕ → Move
lead b =
    if ltb b 0x80
    then emit b
    else if within 0xc2 0xdf b
    then wait (due 0 0x80 0xbf (b % 32))
    else if within 0xe0 0xef b
    then wait (due 1 (if b == 0xe0 then 0xa0 else 0x80) (if b == 0xed then 0x9f else 0xbf) (b % 16))
    else if within 0xf0 0xf4 b
    then wait (due 2 (if b == 0xf0 then 0x90 else 0x80) (if b == 0xf4 then 0x8f else 0xbf) (b % 8))
    else invalid

unfoldable pub step : Pending → ℕ → Move
unfolding lead
step ready b = lead b
step (due zero lo hi acc) b = if within lo hi b then emit (acc * 64 + b % 64) else invalid
step (due (suc n) lo hi acc) b =
    if within lo hi b then wait (due n 0x80 0xbf (acc * 64 + b % 64)) else invalid

-- The runes of a text, or `none` where it is not UTF-8.
unfoldable pub runes_from : Pending → Text → Option (List ℕ)
unfolding step
runes_from ready [] = some []
runes_from (due n lo hi acc) [] = none
runes_from p (b ∷ s) = elim (step p b) [
  | invalid ↦ none
  | wait q ↦ runes_from q s
  | emit r ↦ elim (runes_from ready s) [ none ↦ none | some rs ↦ some (r ∷ rs) ]
]

unfoldable pub runes : Text → Option (List ℕ)
unfolding runes_from
runes = runes_from ready

-- `unicode.IsSpace`.
unfoldable pub is_space : ℕ → Bool
is_space r =
    within 0x09 0x0d r
    || r == 0x20
    || r == 0x85
    || r == 0xa0
    || r == 0x1680
    || within 0x2000 0x200a r
    || r == 0x2028
    || r == 0x2029
    || r == 0x202f
    || r == 0x205f
    || r == 0x3000

-- `strings.TrimSpace` leaves a text as it is when neither its first nor its last rune is a space.
unfoldable pub ends_in_space : List ℕ → Bool
unfolding is_space
ends_in_space [] = false
ends_in_space (r ∷ []) = is_space r
ends_in_space (r ∷ r' ∷ rs) = ends_in_space (r' ∷ rs)

unfoldable pub starts_with_space : List ℕ → Bool
unfolding is_space
starts_with_space [] = false
starts_with_space (r ∷ rs) = is_space r

-- `r < 0x20 || r == 0x7f`
unfoldable pub is_control : ℕ → Bool
is_control r = ltb r 0x20 || r == 0x7f

abbrev pub IsPrintable : ℕ → Type 0
IsPrintable b = (0x20 ≤ b) × (b ≢ 0x7f)

-- The ranges of every state that the decoder reaches are above the ASCII bytes.
abbrev IsHigh : Pending → Type 0
IsHigh ready = Unit
IsHigh (due n lo hi acc) = 0x80 ≤ lo

abbrev MoveFits : ℕ → Move → Type 0
MoveFits b invalid = Unit
MoveFits b (wait q) = IsHigh q × (0x80 ≤ b)
MoveFits b (emit r) = (b ≡ r) ⊎ (0x80 ≤ b)

step-fits : (p : Pending) (b : ℕ) → IsHigh p → MoveFits b (step p b)
unfolding step
step-fits ready b h = ground arith
step-fits (due zero lo hi acc) b h = ground arith
step-fits (due (suc n) lo hi acc) b h = ground arith

printable : (b r : ℕ) → (b ≡ r) ⊎ (0x80 ≤ b) → is_control r ≡ false → IsPrintable b
unfolding is_control
printable b r h c = ground arith

module _ (s : Text) where
  -- What `runes_from` does with one move.
  abbrev continue_with : Move → Option (List ℕ)
  unfolding runes_from
  continue_with mv = elim mv [
    | invalid ↦ none
    | wait q ↦ runes_from q s
    | emit r ↦ elim (runes_from ready s) [ none ↦ none | some rs ↦ some (r ∷ rs) ]
  ]

  move-IsPrintable :
      (b : ℕ) (mv : Move) (rs : List ℕ)
      → ((q : Pending) (rs' : List ℕ)
          → IsHigh q
          → runes_from q s ≡ some rs'
          → any is_control rs' ≡ false
          → All IsPrintable s)
      → MoveFits b mv
      → continue_with mv ≡ some rs
      → any is_control rs ≡ false
      → IsPrintable b × All IsPrintable s
  unfolding continue_with
  move-IsPrintable b invalid rs rest f h c = cc
  move-IsPrintable b (wait q) rs rest f h c = (omega arith, rest q rs f.0 h c)
  move-IsPrintable b (emit r) rs rest f h c = elim (Option-cases (runes_from ready s)) [
    | inl e ↦ ground arith
    | inr (rs', e) ↦
        let same : rs ≡ r ∷ rs' = ground arith in
        let parts : (is_control r ≡ false) × (any is_control rs' ≡ false) =
          or-eq_false _ _ (subst (λ t. any is_control t ≡ false) same c) in
        (printable b r f parts.0, rest ready rs' tt e parts.1)
  ]

-- Where no rune of a valid text is a control character, no byte of it is one.
pub runes_from-IsPrintable :
    (p : Pending) (s : Text) (rs : List ℕ)
    → IsHigh p
    → runes_from p s ≡ some rs
    → any is_control rs ≡ false
    → All IsPrintable s
unfolding runes_from continue_with
runes_from-IsPrintable ready [] rs hp h c = tt
runes_from-IsPrintable (due n lo hi acc) [] rs hp h c = tt
runes_from-IsPrintable ready (b ∷ s) rs hp h c =
    move-IsPrintable s b (step ready b) rs (λ q rs'. runes_from-IsPrintable q s rs')
      (step-fits ready b hp) h c
runes_from-IsPrintable (due n lo hi acc) (b ∷ s) rs hp h c =
    move-IsPrintable s b (step (due n lo hi acc) b) rs (λ q rs'. runes_from-IsPrintable q s rs')
      (step-fits (due n lo hi acc) b hp) h c

-- `utf8.ValidString`.
unfoldable pub is_valid_string : Text → Bool
unfolding runes
is_valid_string s = elim (runes s) [ none ↦ false | some rs ↦ true ]

-- The same for a whole text.
pub runes-IsPrintable :
    (s : Text) (rs : List ℕ) → runes s ≡ some rs → any is_control rs ≡ false → All IsPrintable s
unfolding runes
runes-IsPrintable s rs h c = runes_from-IsPrintable ready s rs tt h c

-- ASCII is UTF-8.
pub runes_from-ascii : (s : Text) → All (λ b. b < 0x80) s → runes_from ready s ≡ some s
unfolding runes_from
runes_from-ascii [] h = refl
runes_from-ascii (b ∷ s) h = ground (arith, runes_from-ascii s h.1)
