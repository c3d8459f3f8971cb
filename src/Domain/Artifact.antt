-- ===== src/Domain/Artifact.antt =====
-- internal/core/domain/artifact.go and resolved.go: sources, exact identities and content. A `map` of
-- labelled values whose loop stops at the first bad one yields that label's error in any order; the
-- model checks name, version and variant in this order.
use heliopause.Base.{
  Bool, Eq, List, Result, String, [], all, any, arith, eq_via, err, false, if◌then◌else◌, is_empty,
  leb, length, list_eq, ltb, map, nat_eq, none, not, ok, reject, some, ℕ, ◌&&◌, ◌==◌, ◌>>◌, ◌||◌,
  ◌∷◌, ◌≡◌,
}
use heliopause.Text.{Text, lower}
use heliopause.Text.Pattern.{normalized_identifier}
use heliopause.Text.Utf8.{ends_in_space, is_control, is_valid_string, runes, starts_with_space}

abbrev pub max_source_id_length : ℕ
max_source_id_length = 64

abbrev pub max_locator_length : ℕ
max_locator_length = 1024

abbrev pub max_coordinate_length : ℕ
max_coordinate_length = 256

abbrev pub max_content_handle_length : ℕ
max_content_handle_length = 512

abbrev pub max_acquisition_locator_length : ℕ
max_acquisition_locator_length = 2048

abbrev pub max_declared_integrity_length : ℕ
max_declared_integrity_length = 1024

-- An identifier of letters and digits is ASCII, so that the test for UTF-8 comes with the expression;
-- it stands here as the source has it.
unfoldable pub validate_normalized_identifier : Text → ℕ → String → Result (Unit {0})
validate_normalized_identifier value maximum label =
    if length value == 0
      || ltb maximum (length value)
      || not (is_valid_string value)
      || not (normalized_identifier value)
    then err label
    else ok tt

-- `value != strings.TrimSpace(value)` and the scan for control characters, on the runes.
unfoldable pub text_is_bounded : Text → ℕ → Bool
text_is_bounded value maximum = elim (runes value) [
  | none ↦ false
  | some rs ↦
      not (is_empty value)
      && not (starts_with_space rs || ends_in_space rs)
      && leb (length value) maximum
      && not (any is_control rs)
]

unfoldable pub validate_bounded_text : Text → ℕ → String → Result (Unit {0})
validate_bounded_text value maximum label =
    if text_is_bounded value maximum then ok tt else err label

pub record SourceId : Type 0 where
  pub value : Text

pub SourceId-injective : (a b : SourceId) → a.value ≡ b.value → a ≡ b
SourceId-injective a b p = λ i. record { value = p i }

instance abbrev pub source_id_eq : Eq SourceId
source_id_eq = eq_via (λ s. s.value) SourceId-injective

unfoldable pub new_source_id : Text → Result SourceId
new_source_id value = do
  validate_normalized_identifier value max_source_id_length "source ID"
  ok (record { value = value })

pub record ArtifactReference : Type 0 where
  pub source : SourceId
  pub locator : Text

unfoldable pub new_artifact_reference : SourceId → Text → Result ArtifactReference
new_artifact_reference source locator = do
  reject (is_empty source.value) "source ID is required"
  validate_bounded_text locator max_locator_length "artifact locator"
  ok (record { source = source; locator = locator })

pub record ResolvedArtifactIdentity : Type 0 where
  pub source : SourceId
  pub name : Text
  pub version : Text
  pub variant : Text

abbrev pub identity_key : ResolvedArtifactIdentity → List Text
identity_key i = i.source.value ∷ i.name ∷ i.version ∷ i.variant ∷ []

pub identity_key-injective :
    (a b : ResolvedArtifactIdentity) → identity_key a ≡ identity_key b → a ≡ b
identity_key-injective a b p = ground arith

instance abbrev pub identity_eq : Eq ResolvedArtifactIdentity
identity_eq = eq_via identity_key identity_key-injective

unfoldable pub new_resolved_artifact_identity :
    SourceId → Text → Text → Text → Result ResolvedArtifactIdentity
new_resolved_artifact_identity source name version variant = do
  reject (is_empty source.value) "source ID is required"
  validate_bounded_text name max_coordinate_length "artifact name"
  validate_bounded_text version max_coordinate_length "artifact version"
  validate_bounded_text variant max_coordinate_length "artifact variant"
  ok (record { source = source; name = name; version = version; variant = variant })

pub record ContentDigest : Type 0 where
  pub value : Text

pub ContentDigest-injective : (a b : ContentDigest) → a.value ≡ b.value → a ≡ b
ContentDigest-injective a b p = λ i. record { value = p i }

instance abbrev pub content_digest_eq : Eq ContentDigest
content_digest_eq = eq_via (λ d. d.value) ContentDigest-injective

-- `hex.DecodeString` of 64 bytes succeeds, with 32 bytes, when all are hexadecimal digits of either
-- case.
abbrev pub is_hex : ℕ → Bool
is_hex c = leb b'0' c && leb c b'9' || leb b'a' c && leb c b'f' || leb b'A' c && leb c b'F'

unfoldable pub new_sha256_digest : Text → Result ContentDigest
new_sha256_digest value = do
  reject (not (length value == 64) || not (value == map lower value))
      "SHA-256 digest must be 64 lowercase hexadecimal characters"
  reject (not (all is_hex value)) "SHA-256 digest must be 64 lowercase hexadecimal characters"
  ok (record { value = value })

pub record AcquiredArtifact : Type 0 where
  pub identity : ResolvedArtifactIdentity
  pub digest : ContentDigest
  pub handle : Text
  pub size : ℕ
  pub declared_integrity : Text
  pub observed_integrity : Text

-- A text that may be left out.
abbrev pub validate_optional_text : Text → ℕ → String → Result (Unit {0})
validate_optional_text value maximum label =
    if is_empty value then ok tt else validate_bounded_text value maximum label

unfoldable pub new_acquired_artifact_with_integrity :
    ResolvedArtifactIdentity → ContentDigest → Text → ℕ → Text → Text → Result AcquiredArtifact
new_acquired_artifact_with_integrity identity digest handle size declared observed = do
  reject (is_empty identity.source.value) "resolved artifact identity is required"
  reject (is_empty digest.value) "content digest is required"
  validate_bounded_text handle max_content_handle_length "content handle"
  validate_optional_text declared max_declared_integrity_length "declared integrity"
  validate_optional_text observed max_declared_integrity_length "observed integrity"
  ok (record {
    identity = identity;
    digest = digest;
    handle = handle;
    size = size;
    declared_integrity = declared;
    observed_integrity = observed;
  })

unfoldable pub new_acquired_artifact :
    ResolvedArtifactIdentity → ContentDigest → Text → ℕ → Result AcquiredArtifact
new_acquired_artifact identity digest handle size =
    new_acquired_artifact_with_integrity identity digest handle size [] []

unfoldable pub new_acquired_artifact_with_declared_integrity :
    ResolvedArtifactIdentity → ContentDigest → Text → ℕ → Text → Result AcquiredArtifact
new_acquired_artifact_with_declared_integrity identity digest handle size declared =
    new_acquired_artifact_with_integrity identity digest handle size declared []

-- `DeclaredIntegrity` and `ObservedIntegrity`: the value and whether there is one.
abbrev pub present : Text → Text × Bool
present s = (s, not (is_empty s))

pub record ResolvedArtifact : Type 0 where
  pub identity : ResolvedArtifactIdentity
  pub acquisition_locator : Text
  pub declared_integrity : Text

abbrev pub resolved_key : ResolvedArtifact → List Text
resolved_key a = a.acquisition_locator ∷ a.declared_integrity ∷ identity_key a.identity

pub resolved_key-injective : (a b : ResolvedArtifact) → resolved_key a ≡ resolved_key b → a ≡ b
resolved_key-injective a b p = ground arith

instance abbrev pub resolved_artifact_eq : Eq ResolvedArtifact
resolved_artifact_eq = eq_via resolved_key resolved_key-injective

unfoldable pub new_resolved_artifact :
    ResolvedArtifactIdentity → Text → Text → Result ResolvedArtifact
new_resolved_artifact identity locator declared = do
  reject (is_empty identity.source.value) "resolved artifact identity is required"
  validate_bounded_text locator max_acquisition_locator_length "acquisition locator"
  validate_optional_text declared max_declared_integrity_length "declared integrity"
  ok (record { identity = identity; acquisition_locator = locator; declared_integrity = declared })
