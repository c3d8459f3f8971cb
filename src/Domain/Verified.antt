-- ===== src/Domain/Verified.antt =====
-- internal/core/domain/manifest.go: from a complete ALLOW to the verified, staged and promoted sets.
-- Documents are byte lists.
use heliopause.Base.{
  Bool, List, Result, any, is_empty, length, list_eq, ltb, nat_eq, not, ok, reject, ℕ, ◌&&◌, ◌>>◌,
  ◌||◌,
}
use heliopause.Domain.Artifact.{ContentDigest, max_content_handle_length, validate_bounded_text}
use heliopause.Domain.Inspected.{InspectedDependencySet, is_valid_set}
use heliopause.Domain.Install.{InstallTarget}
use heliopause.Domain.Run.{PolicyDecision, is_allow}
use heliopause.Text.{Text}

-- 16 << 20
abbrev pub maximum_verified_document_bytes : ℕ
maximum_verified_document_bytes = 16777216

pub record VerifiedSet : Type 0 where
  pub inspected : InspectedDependencySet
  pub decision : PolicyDecision

unfoldable pub new_verified_set : InspectedDependencySet → PolicyDecision → Result VerifiedSet
new_verified_set inspected decision = do
  reject (not (is_valid_set inspected) || not (is_allow decision.decision))
      "verified set requires a complete inspected set and set-level ALLOW"
  reject (any (λ i. not (is_allow i.decision.decision)) inspected.inspections)
      "verified set contains an entry without ALLOW"
  ok (record { inspected = inspected; decision = decision })

unfoldable pub is_valid_verified_set : VerifiedSet → Bool
is_valid_verified_set s = is_valid_set s.inspected && is_allow s.decision.decision

pub record VerifiedBundle : Type 0 where
  pub manifest_id : ContentDigest
  pub set : VerifiedSet
  pub manifest_document : List ℕ
  pub sbom_document : List ℕ

abbrev pub exceeds_bounds : List ℕ → Bool
exceeds_bounds document = is_empty document || ltb maximum_verified_document_bytes (length document)

unfoldable pub new_verified_bundle :
    ContentDigest → VerifiedSet → List ℕ → List ℕ → Result VerifiedBundle
new_verified_bundle manifest_id set manifest_document sbom_document = do
  reject (is_empty manifest_id.value || not (is_valid_verified_set set))
      "verified bundle requires a Manifest identity and verified set"
  reject (exceeds_bounds manifest_document || exceeds_bounds sbom_document)
      "verified bundle documents exceed bounds"
  ok (record {
    manifest_id = manifest_id;
    set = set;
    manifest_document = manifest_document;
    sbom_document = sbom_document;
  })

unfoldable pub is_valid_bundle : VerifiedBundle → Bool
is_valid_bundle b = not (is_empty b.manifest_id.value) && is_valid_verified_set b.set

pub record StagedSet : Type 0 where
  pub manifest_id : ContentDigest
  pub handle : Text

unfoldable pub new_staged_set : ContentDigest → Text → Result StagedSet
new_staged_set manifest_id handle = do
  reject (is_empty manifest_id.value) "staged set requires a Manifest identity"
  validate_bounded_text handle max_content_handle_length "staging handle"
  ok (record { manifest_id = manifest_id; handle = handle })

pub record PromotedInstall : Type 0 where
  pub manifest_id : ContentDigest
  pub target : InstallTarget

unfoldable pub new_promoted_install : ContentDigest → InstallTarget → Result PromotedInstall
new_promoted_install manifest_id target = do
  reject (is_empty manifest_id.value || is_empty target.value)
      "promoted install requires Manifest identity and target"
  ok (record { manifest_id = manifest_id; target = target })
