-- ===== src/Application/Workflow/Ensures.antt =====
-- What a workflow ensures: rules for the ways to build one.
-- A call that hands a set on: the gate behind the inspection.
use heliopause.Application.Workflow.{
  History, PortCall, Workflow, World, after, ask, builds, create, promotes, pure, put_away, resume,
  stages, try,
}
use heliopause.Base.{
  All, All-append, Bool, List, Result, String, arith, err, false, length, length-append, ok, refl,
  subst, suc, sym, true, ℕ, ◌+◌, ◌>>=◌, ◌≡◌,
}
use heliopause.Domain.Run.{InspectionRun, finalized}

abbrev pub is_gate : PortCall → Bool
is_gate (builds op context resolution set) = true
is_gate (stages bundle) = true
is_gate (promotes staged bundle context) = true
is_gate _ = false

-- No gate was passed; of the runs that were created, `pending` are in use and the others are finalized.
pub record IsOrderly (pending : ℕ) (w : World) : Type 0 where
  pub ungated : All (λ c. is_gate c ≡ false) w.history
  pub closed : All (λ r. r.lifecycle ≡ finalized) w.runs
  pub balance : w.begun ≡ length w.runs + pending

-- From an orderly world with `n` runs in use to an orderly world with `K a` of them, where `a` is the
-- value, for which `P` holds.
pub record Ensures {ℓ} {A : Type ℓ} (n : ℕ) (K : A → ℕ) (P : A → Type ℓ) (m : Workflow A)
    : Type ℓ where
  pub at : (w : World) → IsOrderly n w → IsOrderly (K (m w).value) (m w).world × P (m w).value

-- Of a result, if it is not an error.
abbrev pub OnOk {ℓ} : {A : Type ℓ} → (A → Type ℓ) → Result A → Type ℓ
OnOk P (ok a) = P a
OnOk P (err e) = Unit

-- A count for a result, and one for an error.
abbrev pub on_result {ℓ} : {A : Type ℓ} → (A → ℕ) → ℕ → Result A → ℕ
on_result f n (ok a) = f a
on_result f n (err e) = n

-- As many runs in use before and after.
abbrev pub Keeps {ℓ} : {A : Type ℓ} → ℕ → (A → Type ℓ) → Workflow A → Type ℓ
Keeps n P m = Ensures n (λ _. n) P m

module _ {ℓ} {A : Type ℓ} {n : ℕ} (K : A → ℕ) (P : A → Type ℓ) where
  pub Ensures-pure : (a : A) → K a ≡ n → P a → Ensures n K P (pure a)
  unfolding pure
  Ensures-pure a k h = record { at = λ w o. (subst (λ t. IsOrderly t w) (sym k) o, h) }

  pub Ensures-put_away :
      (runs : List InspectionRun) (a : A)
      → length runs + K a ≡ n
      → All (λ r. r.lifecycle ≡ finalized) runs
      → P a
      → Ensures n K P (put_away runs a)
  unfolding put_away
  Ensures-put_away runs a k f h = record {
    at = λ w o.
        let count = o.balance in
        (
          record {
            ungated = o.ungated;
            closed = All-append _ runs w.runs f o.closed;
            balance = omega (arith, length-append runs w.runs);
          },
          h,
        );
  }

answered {ℓ} :
    {A : Type ℓ} (answer : History → Result A) (h : History) (r : Result A)
    → answer h ≡ r
    → OnOk (λ a. (h : History) × (answer h ≡ ok a)) r
answered answer h (ok a) e = (h, e)
answered answer h (err x) e = tt

-- What a port answers is known only by its call.
pub Keeps-ask {ℓ} :
    {A : Type ℓ} {n : ℕ} (call : PortCall) (answer : History → Result A)
    → is_gate call ≡ false
    → Keeps n (OnOk (λ a. (h : History) × (answer h ≡ ok a))) (ask call answer)
unfolding ask
Keeps-ask call answer g = record {
  at = λ w o. (
    record { ungated = (g, o.ungated); closed = o.closed; balance = o.balance },
    answered answer w.history (answer w.history) refl,
  );
}

-- A value of its own is known by its equation.
pub Keeps-pure {ℓ} : {A : Type ℓ} {n : ℕ} (r : Result A) → Keeps n (OnOk (λ a. r ≡ ok a)) (pure r)
unfolding pure
Keeps-pure (ok a) = record { at = λ w o. (o, refl) }
Keeps-pure (err e) = record { at = λ w o. (o, tt) }

pub Ensures-create :
    {n : ℕ} (r : Result InspectionRun)
    → Ensures n (on_result (λ _. suc n) n) (OnOk (λ a. r ≡ ok a)) (create r)
unfolding create
Ensures-create (ok a) = record {
  at = λ w o.
      let count = o.balance in
      (record { ungated = o.ungated; closed = o.closed; balance = omega arith }, refl);
}
Ensures-create (err e) = record {
  at = λ w o. (record { ungated = o.ungated; closed = o.closed; balance = o.balance }, tt);
}

module _ {ℓ} {A B : Type ℓ} (K : Result A → ℕ) (Q : A → Type ℓ) (K' : B → ℕ) (P : B → Type ℓ) where
  Ensures-resume :
      (r : Result A) (fail : String → Workflow B) (next : A → Workflow B)
      → OnOk Q r
      → ((e : String) → Ensures (K (err e)) K' P (fail e))
      → ((a : A) → Q a → Ensures (K (ok a)) K' P (next a))
      → Ensures (K r) K' P (resume r fail next)
  Ensures-resume (ok a) fail next h ef en = en a h
  Ensures-resume (err e) fail next h ef en = ef e

  pub Ensures-try :
      {n : ℕ} (m : Workflow (Result A)) (fail : String → Workflow B) (next : A → Workflow B)
      → Ensures n K (OnOk Q) m
      → ((e : String) → Ensures (K (err e)) K' P (fail e))
      → ((a : A) → Q a → Ensures (K (ok a)) K' P (next a))
      → Ensures n K' P (try m fail next)
  unfolding try
  Ensures-try m fail next em ef en = record {
    at = λ w o.
        let (o', h) = em.at w o in (Ensures-resume (m w).value fail next h ef en).at (m w).world o';
  }

on_result-same {ℓ} : {A : Type ℓ} (n : ℕ) (r : Result A) → n ≡ on_result (λ _. n) n r
on_result-same n (ok a) = refl
on_result-same n (err e) = refl

pub Keeps-on {ℓ} :
    {A : Type ℓ} {n k : ℕ} (P : Result A → Type ℓ) {m : Workflow (Result A)}
    → Ensures n (λ _. k) P m
    → Ensures n (on_result (λ _. k) k) P m
Keeps-on {k = k} P {m} e = record {
  at = λ w o.
      let (o', h) = e.at w o in
      (subst (λ t. IsOrderly t (m w).world) (on_result-same k (m w).value) o', h);
}

on_result-zero {ℓ} : {A : Type ℓ} (r : Result A) → on_result (λ _. 0) 0 r ≡ 0
on_result-zero (ok a) = refl
on_result-zero (err e) = refl

pub Ensures-closed {ℓ} :
    {A : Type ℓ} {n : ℕ} (P : Result A → Type ℓ) {m : Workflow (Result A)}
    → Ensures n (on_result (λ _. 0) 0) P m
    → Ensures n (λ _. 0) P m
Ensures-closed P {m} e = record {
  at = λ w o.
      let (o', h) = e.at w o in
      (subst (λ t. IsOrderly t (m w).world) (on_result-zero (m w).value) o', h);
}

-- An error ends the workflow, with no run in use.
pub Keeps-try {ℓ} :
    {A B : Type ℓ} (Q : A → Type ℓ) (P : B → Type ℓ) {n : ℕ} (K : A → ℕ) (m : Workflow (Result A))
    (next : A → Workflow (Result B))
    → Ensures n (on_result K 0) (OnOk Q) m
    → ((a : A) → Q a → Ensures (K a) (λ _. 0) (OnOk P) (next a))
    → Ensures n (λ _. 0) (OnOk P) (try m (λ e. pure (err e)) next)
Keeps-try Q P K m next em en =
    Ensures-try (on_result K 0) Q (λ _. 0) (OnOk P) m _ next em
      (λ e. Ensures-pure _ _ (err e) refl tt) en

-- A step that cannot fail.
pub Ensures-passed {ℓ} :
    {A B : Type ℓ} {n : ℕ} (K : B → ℕ) (P : B → Type ℓ) (r : Result A) (a : A)
    (fail : String → Workflow B) (next : A → Workflow B)
    → r ≡ ok a
    → Ensures n K P (next a)
    → Ensures n K P (try (pure r) fail next)
unfolding try pure
Ensures-passed K P r a fail next e en = rw e en

pub Ensures-after {ℓ} :
    {A B : Type ℓ} {n : ℕ} (K : A → ℕ) (Q : A → Type ℓ) (K' : B → ℕ) (P : B → Type ℓ)
    (m : Workflow A) (next : A → Workflow B)
    → Ensures n K Q m
    → ((a : A) → Q a → Ensures (K a) K' P (next a))
    → Ensures n K' P (after m next)
unfolding after
Ensures-after K Q K' P m next em en = record {
  at = λ w o. let (o', h) = em.at w o in (en (m w).value h).at (m w).world o';
}

pub >>=-OnOk {ℓ} :
    {A B : Type ℓ} (P : B → Type ℓ) (r : Result A) (f : A → Result B)
    → ((a : A) → r ≡ ok a → OnOk P (f a))
    → OnOk P (r >>= f)
>>=-OnOk P (ok a) f h = h a refl
>>=-OnOk P (err e) f h = tt
