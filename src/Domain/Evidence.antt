-- ===== src/Domain/Evidence.antt =====
-- internal/core/domain/evidence.go: normalized facts, findings and references to stored evidence.
use heliopause.Base.{
  Bool, Eq, List, Result, [], any, eq_via, if◌then◌else◌, is_empty, list_eq, map, nat_eq, none, not,
  ok, reject, some, ℕ, ◌++◌, ◌==◌, ◌>>◌, ◌||◌, ◌∷◌, ◌≡◌,
}
use heliopause.Domain.Artifact.{
  ContentDigest, ResolvedArtifactIdentity, validate_bounded_text, validate_normalized_identifier,
}
use heliopause.Text.{Text, codes, has_infix, lower}
use heliopause.Text.Pattern.{failure_code_pattern}
use heliopause.Text.Utf8.{runes}

abbrev pub max_evidence_summary_length : ℕ
max_evidence_summary_length = 1024

pub record EvidenceId : Type 0 where
  pub value : Text

pub EvidenceId-injective : (a b : EvidenceId) → a.value ≡ b.value → a ≡ b
EvidenceId-injective a b p = λ i. record { value = p i }

instance abbrev pub evidence_id_eq : Eq EvidenceId
evidence_id_eq = eq_via (λ e. e.value) EvidenceId-injective

unfoldable pub new_evidence_id : Text → Result EvidenceId
new_evidence_id value = do
  validate_normalized_identifier value 64 "evidence ID"
  ok (record { value = value })

-- check.go
pub record CheckId : Type 0 where
  pub value : Text

pub CheckId-injective : (a b : CheckId) → a.value ≡ b.value → a ≡ b
CheckId-injective a b p = λ i. record { value = p i }

instance abbrev pub check_id_eq : Eq CheckId
check_id_eq = eq_via (λ c. c.value) CheckId-injective

unfoldable pub new_check_id : Text → Result CheckId
new_check_id value = do
  validate_normalized_identifier value 64 "check ID"
  ok (record { value = value })

-- `strings.ToLower` on a rune, as far as an ASCII result goes: besides the ASCII capitals these are
-- the Kelvin sign and the capital I with a dot.
unfoldable pub lower_rune : ℕ → ℕ
lower_rune r = if r == 0x212a then b'k' else if r == 0x130 then b'i' else lower r

abbrev pub sensitive_patterns : List Text
sensitive_patterns =
    codes "/users/"
    ∷ codes "/home/"
    ∷ (b'c' ∷ b':' ∷ 92 ∷ codes "users" ++ 92 ∷ [])
    ∷ codes "authorization:"
    ∷ codes "password="
    ∷ codes "token="
    ∷ codes "api_key="
    ∷ codes "apikey="
    ∷ codes "-----begin private key-----"
    ∷ codes "-----begin openssh private key-----"
    ∷ []

-- Every caller has validated the text, so that it has runes; a text without is read by bytes.
unfoldable pub contains_sensitive_evidence : Text → Bool
contains_sensitive_evidence summary =
    let folded : Text = elim (runes summary) [
      | none ↦ map lower summary
      | some rs ↦ map lower_rune rs
    ] in
    any (has_infix folded) sensitive_patterns

pub record Evidence : Type 0 where
  pub id : EvidenceId
  pub check_id : CheckId
  pub identity : ResolvedArtifactIdentity
  pub digest : ContentDigest
  pub kind : Text
  pub summary : Text

unfoldable pub new_evidence :
    EvidenceId → CheckId → ResolvedArtifactIdentity → ContentDigest → Text → Text → Result Evidence
new_evidence id check_id identity digest kind summary = do
  reject
      (is_empty id.value
        || is_empty check_id.value
        || is_empty identity.source.value
        || is_empty digest.value)
      "evidence identity, check, artifact identity, and digest are required"
  validate_normalized_identifier kind 64 "evidence kind"
  validate_bounded_text summary max_evidence_summary_length "evidence summary"
  reject (contains_sensitive_evidence summary)
      "evidence summary contains a credential or identifying Host path pattern"
  ok (record {
    id = id;
    check_id = check_id;
    identity = identity;
    digest = digest;
    kind = kind;
    summary = summary;
  })

pub record Finding : Type 0 where
  pub code : Text
  pub evidence_ids : List EvidenceId

unfoldable pub new_finding : Text → List EvidenceId → Result Finding
new_finding code evidence_ids = do
  reject (not (failure_code_pattern code))
      "finding code must be 1 to 64 uppercase identifier characters"
  reject (is_empty evidence_ids) "finding requires supporting Evidence"
  reject (any (λ id. is_empty id.value) evidence_ids) "finding evidence ID is invalid"
  ok (record { code = code; evidence_ids = evidence_ids })

pub record EvidenceReference : Type 0 where
  pub id : EvidenceId
  pub handle : Text

unfoldable pub new_evidence_reference : EvidenceId → Text → Result EvidenceReference
new_evidence_reference id handle = do
  reject (is_empty id.value) "evidence ID is required"
  validate_bounded_text handle 512 "evidence handle"
  reject (contains_sensitive_evidence handle)
      "evidence handle contains an identifying Host path pattern"
  ok (record { id = id; handle = handle })
