-- ===== src/Domain/Sandbox.antt =====
-- internal/core/domain/sandbox.go: observations of one sandbox session, their bounded merge, and the
-- value that the observation summary encodes. The JSON text of that value is not modelled.
pub mod Merge
use heliopause.Base.{
  Bool, List, Result, [], any, err, false, if◌then◌else◌, is_empty, leb, length, list_eq, ltb,
  nat_eq, not, ok, reject, true, ℕ, ◌&&◌, ◌++◌, ◌+◌, ◌-◌, ◌==◌, ◌>>=◌, ◌>>◌, ◌||◌, ◌∷◌,
}
use heliopause.Domain.Artifact.{AcquiredArtifact, validate_normalized_identifier}
use heliopause.Domain.Identifier.{SandboxSessionId}
use heliopause.Text.{Text, codes}
use heliopause.Text.Pattern.{failure_code_pattern}

abbrev pub maximum_observation_summary_unique_subjects : ℕ
maximum_observation_summary_unique_subjects = 32

abbrev pub maximum_observation_summary_count : ℕ
maximum_observation_summary_count = 10000

pub data SandboxStatus : Type 0 where
  completed incomplete : SandboxStatus
  other : Text → SandboxStatus

pub data ObservationCategory : Type 0 where
  process filesystem network honeytoken resource : ObservationCategory
  other : Text → ObservationCategory

abbrev pub category_text : ObservationCategory → Text
category_text process = codes "PROCESS"
category_text filesystem = codes "FILESYSTEM"
category_text network = codes "NETWORK"
category_text honeytoken = codes "HONEYTOKEN"
category_text resource = codes "RESOURCE"
category_text (other s) = s

abbrev pub is_known_category : ObservationCategory → Bool
is_known_category (other s) = false
is_known_category _ = true

pub record SandboxObservation : Type 0 where
  pub category : ObservationCategory
  pub subject : Text
  pub count : ℕ

unfoldable pub new_counted_sandbox_observation :
    ObservationCategory → Text → ℕ → Result SandboxObservation
new_counted_sandbox_observation category subject count = do
  reject (not (is_known_category category)) "invalid Sandbox Observation category"
  validate_normalized_identifier subject 64 "Sandbox Observation subject"
  reject (count == 0 || ltb maximum_observation_summary_count count)
      "sandbox observation count is invalid"
  ok (record { category = category; subject = subject; count = count })

unfoldable pub new_sandbox_observation : ObservationCategory → Text → Result SandboxObservation
new_sandbox_observation category subject = new_counted_sandbox_observation category subject 1

pub record SandboxRequest : Type 0 where
  pub artifact : AcquiredArtifact

unfoldable pub new_sandbox_request : AcquiredArtifact → Result SandboxRequest
new_sandbox_request a = do
  reject (is_empty a.identity.source.value || is_empty a.digest.value || is_empty a.handle)
      "sandbox request requires an acquired Artifact"
  ok (record { artifact = a })

pub record SandboxResult : Type 0 where
  pub session_id : SandboxSessionId
  pub status : SandboxStatus
  pub limitation : Text
  pub observed : List SandboxObservation

-- `string(observation.category) + ":" + observation.subject`
unfoldable pub observation_key : SandboxObservation → Text
observation_key o = category_text o.category ++ b':' ∷ o.subject

-- The count of an observation that is met again, without passing the maximum.
unfoldable pub saturating_add : ℕ → ℕ → ℕ
saturating_add count more =
    if ltb (maximum_observation_summary_count - count) more
    then maximum_observation_summary_count
    else count + more

-- `indices` holds the one position in `owned` of each key that was met.
unfoldable pub merge_observation :
    SandboxObservation → List SandboxObservation → List SandboxObservation
merge_observation o [] = o ∷ []
merge_observation o (x ∷ owned) =
    let rest = merge_observation o owned in
    if observation_key x == observation_key o
    then record x { count = saturating_add x.count o.count } ∷ owned
    else x ∷ rest

unfoldable pub collect_observations :
    List SandboxObservation → List SandboxObservation → Result (List SandboxObservation)
collect_observations owned [] = ok owned
collect_observations owned (o ∷ observations) =
    reject (is_empty o.subject) "sandbox observation is invalid"
    >> reject (o.count == 0 || ltb maximum_observation_summary_count o.count)
        "sandbox observation has an invalid count"
    >> collect_observations (merge_observation o owned) observations

-- The `switch` on the status.
abbrev pub check_limitation : SandboxStatus → Text → Result (Unit {0})
check_limitation completed limitation =
    reject (not (is_empty limitation)) "completed Sandbox result cannot have a limitation"
check_limitation incomplete limitation =
    reject (not (failure_code_pattern limitation))
      "incomplete Sandbox result requires an uppercase limitation code"
check_limitation (other s) limitation = err "invalid sandbox status"

unfoldable pub new_sandbox_result :
    SandboxSessionId → SandboxStatus → Text → List SandboxObservation → Result SandboxResult
new_sandbox_result session_id status limitation observations = do
  reject (is_empty session_id.value) "sandbox result requires a Session ID"
  check_limitation status limitation
  owned ← collect_observations [] observations
  ok (record {
    session_id = session_id;
    status = status;
    limitation = limitation;
    observed = owned;
  })

-- The counts by key, in the order of their first observation, and the total.
pub record Tally : Type 0 where
  pub counts : List (Text × ℕ)
  pub total : ℕ

-- `counts[key]` moved up by one observation, with the key entered if it is new.
unfoldable pub add_count : Text → ℕ → List (Text × ℕ) → List (Text × ℕ)
add_count key n [] = (key, saturating_add 0 n) ∷ []
add_count key n ((k, c) ∷ counts) =
    let rest = add_count key n counts in
    if k == key then (k, saturating_add c n) ∷ counts else (k, c) ∷ rest

abbrev pub has_key : Text → List (Text × ℕ) → Bool
has_key key counts = any (λ entry. entry.0 == key) counts

unfoldable pub tally : Tally → List SandboxObservation → Result Tally
tally t [] = ok t
tally t (o ∷ observations) =
    reject
      (not (has_key (observation_key o) t.counts)
        && leb maximum_observation_summary_unique_subjects (length t.counts))
      "observation summary unique-subject bound exceeded"
    >> tally
        (record {
          counts = add_count (observation_key o) o.count t.counts;
          total = saturating_add t.total o.count;
        })
        observations

abbrev pub is_known_sandbox_status : SandboxStatus → Bool
is_known_sandbox_status (other s) = false
is_known_sandbox_status _ = true

-- The struct that `ObservationSummary` encodes, with its own errors.
pub record ObservationSummary : Type 0 where
  pub session : Text
  pub status : SandboxStatus
  pub limitation : Text
  pub unique_subjects : ℕ
  pub total : ℕ
  pub counts : List (Text × ℕ)

unfoldable pub observation_summary : SandboxResult → Result ObservationSummary
observation_summary r = do
  reject (is_empty r.session_id.value) "observation summary requires a Sandbox Session"
  reject (not (is_known_sandbox_status r.status)) "observation summary status is invalid"
  t ← tally (record { counts = []; total = 0 }) r.observed
  ok (record {
    session = r.session_id.value;
    status = r.status;
    limitation = r.limitation;
    unique_subjects = length t.counts;
    total = t.total;
    counts = t.counts;
  })
