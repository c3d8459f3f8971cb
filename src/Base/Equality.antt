-- ===== src/Base/Equality.antt =====
-- Go's `==` on comparable values: a Boolean test that decides equality, given by instances.
use Prim.Native.Nat.{ℕ}
use mathlib.Core.Bool.{Bool, false, true, ◌&&◌, ◌||◌}
use mathlib.Core.List.{List, [], ◌∷◌}
use mathlib.Core.Logic.{inl, inr, ◌↔◌, ◌≢◌}
use mathlib.Core.Path.{ap, ap₂, refl, sym, ◌∙◌, ◌≡◌}
use native.Mathlib.Omega.{arith}
use heliopause.Base.Tests.{Bool-cases, nat_beq, nat_beq_iff}

pub record Eq {κ} (K : Type κ) : Type κ where
  pub same_key : (k l : K) → Bool
  pub same_key_iff : (k l : K) → (same_key k l ≡ true) ↔ (k ≡ l)

infix 50 ◌==◌
abbrev pub ◌==◌ {κ} : {K : Type κ} ⦃keys : Eq K⦄ (k l : K) → Bool
◌==◌ ⦃keys⦄ k l = keys.same_key k l

instance abbrev pub nat_eq : Eq ℕ
nat_eq = record { same_key = nat_beq; same_key_iff = λ k l. nat_beq_iff k l }

abbrev pub list_beq {ℓ} : {A : Type ℓ} → (A → A → Bool) → List A → List A → Bool
list_beq f [] [] = true
list_beq f [] (y ∷ ys) = false
list_beq f (x ∷ xs) [] = false
list_beq f (x ∷ xs) (y ∷ ys) = f x y && list_beq f xs ys

pub list_beq_iff {ℓ} :
    {A : Type ℓ} (e : Eq A) (xs ys : List A) → (list_beq e.same_key xs ys ≡ true) ↔ (xs ≡ ys)
list_beq_iff e [] [] = (λ _. refl, λ _. refl)
list_beq_iff e [] (y ∷ ys) = (λ h. cc, λ h. cc)
list_beq_iff e (x ∷ xs) [] = (λ h. cc, λ h. cc)
list_beq_iff e (x ∷ xs) (y ∷ ys) = ground (arith, e.same_key_iff x y, list_beq_iff e xs ys)

instance abbrev pub list_eq {ℓ} : {A : Type ℓ} ⦃e : Eq A⦄ → Eq (List A)
list_eq ⦃e⦄ = record { same_key = list_beq e.same_key; same_key_iff = list_beq_iff e }

-- The equality of a struct whose fields are the parts of a key.
abbrev pub eq_via {ℓ κ} :
    {A : Type ℓ} {B : Type κ} ⦃e : Eq B⦄ (f : A → B) → ((a b : A) → f a ≡ f b → a ≡ b) → Eq A
eq_via ⦃e⦄ f injective = record {
  same_key = λ a b. e.same_key (f a) (f b);
  same_key_iff = λ a b. (
    λ h. injective a b ((e.same_key_iff (f a) (f b)).0 h),
    λ h. (e.same_key_iff (f a) (f b)).1 (ap f h),
  );
}

module _ {ℓ} {A : Type ℓ} ⦃e : Eq A⦄ where
  pub ==→≡ : (a b : A) → (a == b) ≡ true → a ≡ b
  ==→≡ a b = (e.same_key_iff a b).0

  pub ==-refl : (a : A) → (a == a) ≡ true
  ==-refl a = (e.same_key_iff a a).1 refl

  pub ==-eq_false : (a b : A) → (a == b) ≡ false → a ≢ b
  ==-eq_false a b h p = ground (arith, e.same_key_iff a b)

  -- A Go map to `bool` whose keys are the elements of a list: is the key among them?
  abbrev pub contains : A → List A → Bool
  contains a [] = false
  contains a (x ∷ xs) = x == a || contains a xs

  pub ==-sym : (a b : A) → (a == b) ≡ (b == a)
  ==-sym a b = elim (Bool-cases (a == b)) [
    | inl same ↦ ap₂ ◌==◌ (==→≡ a b same) (sym (==→≡ a b same))
    | inr differs ↦ elim (Bool-cases (b == a)) [
      | inl same ↦ absurd (==-eq_false a b differs (sym (==→≡ b a same)))
      | inr differs' ↦ differs ∙ sym differs'
    ]
  ]
