-- ===== src/Base/Coverage.antt =====
-- Lists of keys without repetition, and the pigeonhole that turns a count into coverage.
use Prim.Native.Nat.{suc, ◌≤◌}
use mathlib.Core.Bool.{false, true, ◌||◌}
use mathlib.Core.List.{List, [], ◌++◌, ◌∷◌}
use mathlib.Core.Logic.{inl, inr}
use mathlib.Core.Path.{ap, refl, subst, sym, ◌≡◌}
use native.Mathlib.Omega.{arith}
use heliopause.Base.Equality.{==-refl, ==→≡, Eq, contains, ◌==◌}
use heliopause.Base.Lists.{All, length}
use heliopause.Base.Tests.{Bool-cases, if◌then◌else◌}

module _ {ℓ} {A : Type ℓ} ⦃e : Eq A⦄ where
  -- No key twice.
  abbrev pub Distinct : List A → Type 0
  Distinct [] = Unit
  Distinct (x ∷ xs) = (contains x xs ≡ false) × Distinct xs

  -- The list without the first occurrence of a key.
  remove : A → List A → List A
  remove x [] = []
  remove x (y ∷ ys) = let rest = remove x ys in if y == x then ys else y ∷ rest

  length-remove :
      (x : A) (ys : List A) → contains x ys ≡ true → suc (length (remove x ys)) ≡ length ys
  unfolding remove
  length-remove x [] h = cc
  length-remove x (y ∷ ys) h = elim (Bool-cases (y == x)) [
    | inl same ↦ rw same
    | inr differs ↦ rw differs (ap suc (length-remove x ys (rw differs at h)))
  ]

  contains-remove :
      (z x : A) (ys : List A)
      → (x == z) ≡ false
      → contains z ys ≡ true
      → contains z (remove x ys) ≡ true
  unfolding remove
  contains-remove z x [] n h = h
  contains-remove z x (y ∷ ys) n h = elim (Bool-cases (y == x)) [
    | inl same ↦ rw same (rw (subst (λ t. (t == z) ≡ false) (sym (==→≡ y x same)) n) at h)
    | inr differs ↦ rw differs (ground (arith, contains-remove z x ys n))
  ]

  -- Distinct keys that all stand in a list no longer than they are stand for every key of it.
  pub coverage :
      (xs ys : List A)
      → Distinct xs
      → ((z : A) → contains z xs ≡ true → contains z ys ≡ true)
      → length ys ≤ length xs
      → (y : A) → contains y ys ≡ true
      → contains y xs ≡ true
  coverage [] [] d sub n y h = h
  coverage [] (y' ∷ ys) d sub n y h = absurd (omega arith)
  coverage (x ∷ xs) ys d sub n y h = elim (Bool-cases (x == y)) [
    | inl same ↦ rw same
    | inr differs ↦ rw differs (
        coverage xs (remove x ys) d.1
          (λ z hz. contains-remove z x ys (apart z hz) (sub z (inside z hz)))
          (omega (arith, length-remove x ys (sub x first))) y (contains-remove y x ys differs h))
  ]
    where
      first : contains x (x ∷ xs) ≡ true
      first = rw (==-refl x)

      inside : (z : A) → contains z xs ≡ true → contains z (x ∷ xs) ≡ true
      inside z hz = ground arith

      apart : (z : A) → contains z xs ≡ true → (x == z) ≡ false
      apart z hz = elim (Bool-cases (x == z)) [
        | inl same ↦ cc (subst (λ t. contains t xs ≡ false) (==→≡ x z same) d.0)
        | inr differs ↦ differs
      ]

  pub contains-append :
      (z : A) (xs ys : List A) → contains z (xs ++ ys) ≡ (contains z xs || contains z ys)
  contains-append z [] ys = refl
  contains-append z (x ∷ xs) ys = ground (arith, contains-append z xs ys)

  -- Every element of a list is one of its keys, and a property of all its elements holds of each key.
  pub contains_self :
      (xs ys : List A)
      → ((z : A) → contains z xs ≡ true → contains z ys ≡ true)
      → All (λ x. contains x ys ≡ true) xs
  contains_self [] ys sub = tt
  contains_self (x ∷ xs) ys sub =
      (sub x (rw (==-refl x)), contains_self xs ys (λ z h. sub z (ground arith)))

  pub All-contains {κ} :
      (P : A → Type κ) (xs : List A) → All P xs → (z : A) → contains z xs ≡ true → P z
  All-contains P [] hs z h = cc
  All-contains P (x ∷ xs) hs z h = elim (Bool-cases (x == z)) [
    | inl same ↦ subst P (==→≡ x z same) hs.0
    | inr differs ↦ All-contains P xs hs.1 z (rw differs at h)
  ]
