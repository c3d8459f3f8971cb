-- ===== src/Domain/Sandbox/Merge.antt =====
-- internal/core/domain/sandbox.go: what the merge of observations keeps.
use Prim.Native.Nat.{min}
use heliopause.Base.{
  ==-sym, ==→≡, All, Bool-cases, List, [], arith, contains, false, if◌then◌else◌, inl, inr, list_eq,
  map, nat_eq, ok, refl, subst, ℕ, ◌+◌, ◌<◌, ◌==◌, ◌||◌, ◌∙◌, ◌∷◌, ◌≡◌, ◌≤◌,
}
use heliopause.Base.Coverage.{Distinct}
use heliopause.Domain.Identifier.{SandboxSessionId}
use heliopause.Domain.Sandbox.{
  SandboxObservation, SandboxResult, SandboxStatus, collect_observations, merge_observation,
  new_sandbox_result, observation_key, saturating_add,
}
use heliopause.Text.{Text}

-- The sum of the counts that a list records for a key.
abbrev pub sum_for : Text → List SandboxObservation → ℕ
sum_for key [] = 0
sum_for key (o ∷ os) =
    let rest = sum_for key os in if observation_key o == key then o.count + rest else rest

abbrev pub keys : List SandboxObservation → List Text
keys = map observation_key

abbrev pub InRange : SandboxObservation → Type 0
InRange o = (0 < o.count) × (o.count ≤ 10000)

-- A count does not enter the key.
key_lem :
    (x : SandboxObservation) (c : ℕ) → observation_key (record x { count = c }) ≡ observation_key x
unfolding observation_key
key_lem x c = refl

contains-merge :
    (k : Text) (o : SandboxObservation) (owned : List SandboxObservation)
    → contains k (keys (merge_observation o owned))
      ≡ (observation_key o == k || contains k (keys owned))
unfolding merge_observation
contains-merge k o [] = refl
contains-merge k o (x ∷ owned) = elim (Bool-cases (observation_key x == observation_key o)) [
  | inl same ↦ rw same (
      ground (
        arith,
        key_lem x (saturating_add x.count o.count),
        ==→≡ (observation_key x) (observation_key o) same,
      ))
  | inr differs ↦ rw differs (ground (arith, contains-merge k o owned))
]

merge-Distinct :
    (o : SandboxObservation) (owned : List SandboxObservation)
    → Distinct (keys owned)
    → Distinct (keys (merge_observation o owned))
unfolding merge_observation
merge-Distinct o [] h = (refl, tt)
merge-Distinct o (x ∷ owned) h = elim (Bool-cases (observation_key x == observation_key o)) [
  | inl same ↦ rw same (rw (key_lem x (saturating_add x.count o.count)) h)
  | inr differs ↦
      rw differs
        (absent differs (contains-merge (observation_key x) o owned), merge-Distinct o owned h.1)
]
  where
    absent :
        (observation_key x == observation_key o) ≡ false
        → contains (observation_key x) (keys (merge_observation o owned))
          ≡ (observation_key o == observation_key x || contains (observation_key x) (keys owned))
        → contains (observation_key x) (keys (merge_observation o owned)) ≡ false
    absent differs e = ground (arith, ==-sym (observation_key x) (observation_key o))

sum_for-absent :
    (k : Text) (owned : List SandboxObservation)
    → contains k (keys owned) ≡ false
    → sum_for k owned ≡ 0
sum_for-absent k [] h = refl
sum_for-absent k (x ∷ owned) h = ground (arith, sum_for-absent k owned)

abbrev pub cap : ℕ → ℕ
cap n = min 10000 n

sum_for-capped :
    (k : Text) (owned : List SandboxObservation)
    → Distinct (keys owned)
    → All InRange owned
    → sum_for k owned ≤ 10000
sum_for-capped k [] d r = omega arith
sum_for-capped k (x ∷ owned) d r = elim (Bool-cases (observation_key x == k)) [
  | inl same ↦ rw same (
      omega (
        arith,
        sum_for-absent k owned (subst (λ t. contains t (keys owned) ≡ false) (==→≡ _ k same) d.0),
      ))
  | inr differs ↦ rw differs (sum_for-capped k owned d.1 r.1)
]

sum_for-merge :
    (k : Text) (o : SandboxObservation) (owned : List SandboxObservation)
    → Distinct (keys owned)
    → All InRange owned
    → InRange o
    → sum_for k (merge_observation o owned) ≡ cap (sum_for k owned + sum_for k (o ∷ []))
unfolding merge_observation saturating_add
sum_for-merge k o [] d r h = ground arith
sum_for-merge k o (x ∷ owned) d r h = elim (Bool-cases (observation_key x == observation_key o)) [
  | inl same ↦ rw same (met (==→≡ (observation_key x) (observation_key o) same))
  | inr differs ↦ rw differs (other differs (sum_for-merge k o owned d.1 r.1 h))
]
  where
    met :
        observation_key x ≡ observation_key o
        → sum_for k (record x { count = saturating_add x.count o.count } ∷ owned)
          ≡ cap (sum_for k (x ∷ owned) + sum_for k (o ∷ []))
    met e = rw (key_lem x (saturating_add x.count o.count)) (
        rw (← e) (elim (Bool-cases (observation_key x == k)) [
          | inl here ↦ rw here (
              ground (
                arith,
                sum_for-absent k owned (
                    subst (λ t. contains t (keys owned) ≡ false) (==→≡ (observation_key x) k here)
                      d.0),
              ))
          | inr there ↦ rw there (omega (arith, sum_for-capped k owned d.1 r.1))
        ]))

    other :
        (observation_key x == observation_key o) ≡ false
        → sum_for k (merge_observation o owned) ≡ cap (sum_for k owned + sum_for k (o ∷ []))
        → sum_for k (x ∷ merge_observation o owned)
          ≡ cap (sum_for k (x ∷ owned) + sum_for k (o ∷ []))
    other differs ih = elim (Bool-cases (observation_key x == k)) [
      | inl here ↦
          let away : (observation_key o == k) ≡ false =
            subst (λ t. (observation_key o == t) ≡ false) (==→≡ _ k here)
              (==-sym (observation_key o) (observation_key x) ∙ differs) in
          let rest : sum_for k (merge_observation o owned) ≡ cap (sum_for k owned + 0) =
            rw away at ih in
          let absent : sum_for k owned ≡ 0 =
            sum_for-absent k owned (
              subst (λ t. contains t (keys owned) ≡ false) (==→≡ (observation_key x) k here) d.0) in
          rw (here, away) (omega arith)
      | inr there ↦ rw there ih
    ]

merge-InRange :
    (o : SandboxObservation) (owned : List SandboxObservation)
    → All InRange owned
    → InRange o
    → All InRange (merge_observation o owned)
unfolding merge_observation saturating_add
merge-InRange o [] r h = (h, tt)
merge-InRange o (x ∷ owned) r h = ground (arith, merge-InRange o owned r.1 h)

-- What a collection holds once it has taken a list of observations.
record Collected (before added after : List SandboxObservation) : Type 0 where
  sums : (k : Text) → sum_for k after ≡ cap (sum_for k before + sum_for k added)
  distinct : Distinct (keys after)
  in_range : All InRange after

Collected-step :
    (owned os r : List SandboxObservation) (o : SandboxObservation)
    → Distinct (keys owned)
    → All InRange owned
    → InRange o
    → Collected (merge_observation o owned) os r
    → Collected owned (o ∷ os) r
Collected-step owned os r o d i fits later = record {
  sums = λ k. total k (sum_for-merge k o owned d i fits) (later.sums k);
  distinct = later.distinct;
  in_range = later.in_range;
}
  where
    total :
        (k : Text)
        → sum_for k (merge_observation o owned) ≡ cap (sum_for k owned + sum_for k (o ∷ []))
        → sum_for k r ≡ cap (sum_for k (merge_observation o owned) + sum_for k os)
        → sum_for k r ≡ cap (sum_for k owned + sum_for k (o ∷ os))
    total k e f = ground arith

collect-Collected :
    (owned os r : List SandboxObservation)
    → Distinct (keys owned)
    → All InRange owned
    → collect_observations owned os ≡ ok r
    → Collected owned os r
unfolding collect_observations
collect-Collected owned [] r d i h = record {
  sums = λ k. rw (← same) (omega (arith, sum_for-capped k owned d i));
  distinct = subst (λ t. Distinct (keys t)) same d;
  in_range = subst (λ t. All InRange t) same i;
}
  where
    same : owned ≡ r
    same = ground arith
collect-Collected owned (o ∷ os) r d i h =
    let fits : InRange o = ground arith in
    Collected-step owned os r o d i fits (
      collect-Collected (merge_observation o owned) os r (merge-Distinct o owned d)
        (merge-InRange o owned i fits) (ground arith))

-- The observations of a constructed result hold each key once, under the maximum, and with the sum
-- of the counts that were given for it, cut off at the maximum.
pub new_sandbox_result-merges :
    (id : SandboxSessionId) (status : SandboxStatus) (limitation : Text)
    (os : List SandboxObservation) (r : SandboxResult)
    → new_sandbox_result id status limitation os ≡ ok r
    → ((k : Text) → sum_for k r.observed ≡ cap (sum_for k os))
      × Distinct (keys r.observed)
      × All InRange r.observed
unfolding new_sandbox_result
new_sandbox_result-merges id status limitation os r h =
    let c = collect-Collected [] os r.observed tt tt (ground arith) in
    (λ k. omega (arith, c.sums k), c.distinct, c.in_range)
