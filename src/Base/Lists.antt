-- ===== src/Base/Lists.antt =====
-- Lists as tables of rows: search, update, deletion and counting by a Boolean test.
use Prim.Native.Nat.{ℕ, suc, ◌≤◌}
use mathlib.Core.Path.{◌≡◌, refl, sym}
use mathlib.Core.Logic.{◌↔◌, ◌⊎◌, inl, inr}
use mathlib.Core.Bool.{Bool, true, false, ◌&&◌, ◌||◌}
use mathlib.Core.Option.{Option, none, some}
use mathlib.Core.List.{List, [], ◌∷◌, ◌++◌}
use native.Mathlib.Omega.{arith}
use multi_derp.Base.Tests.{Eq, ◌==◌, if◌then◌else◌, Bool-cases}

module _ {ℓ} {A : Type ℓ} where
  abbrev pub length : List A → ℕ
  length [] = 0
  length (x ∷ xs) = suc (length xs)

  -- `SELECT … WHERE p`, first row.
  abbrev pub find : (A → Bool) → List A → Option A
  find p [] = none
  find p (x ∷ xs) = if p x then some x else find p xs

  abbrev pub any : (A → Bool) → List A → Bool
  any p [] = false
  any p (x ∷ xs) = p x || any p xs

  abbrev pub all : (A → Bool) → List A → Bool
  all p [] = true
  all p (x ∷ xs) = p x && all p xs

  -- `SELECT … WHERE p`, every row.
  abbrev pub select : (A → Bool) → List A → List A
  select p [] = []
  select p (x ∷ xs) = let rest = select p xs in if p x then x ∷ rest else rest

  -- `DELETE … WHERE p`.
  abbrev pub delete : (A → Bool) → List A → List A
  delete p [] = []
  delete p (x ∷ xs) = let rest = delete p xs in if p x then rest else x ∷ rest

  -- `UPDATE … SET f WHERE p`.
  abbrev pub update : (A → Bool) → (A → A) → List A → List A
  update p f [] = []
  update p f (x ∷ xs) = (if p x then f x else x) ∷ update p f xs

  -- Every row meets `P`.
  abbrev pub All {κ} : (A → Type κ) → List A → Type κ
  All P [] = Unit
  All P (x ∷ xs) = P x × All P xs

-- A Go map used as a set is the list of what was put into it.
module _ {A : Type 0} ⦃e : Eq A⦄ where
  abbrev pub contains : List A → A → Bool
  contains [] a = false
  contains (x ∷ xs) a = x == a || contains xs a

  -- No element twice.
  abbrev pub Distinct : List A → Type 0
  Distinct [] = Unit
  Distinct (x ∷ xs) = (contains xs x ≡ false) × Distinct xs

  -- No element of the second list in the first.
  abbrev pub Apart : List A → List A → Type 0
  Apart seen xs = All (λ x. contains seen x ≡ false) xs

  pub Apart-nil : (xs : List A) → Apart [] xs
  Apart-nil [] = tt
  Apart-nil (x ∷ xs) = (refl, Apart-nil xs)

  pub Apart-contains : (x : A) (seen xs : List A) → Apart (x ∷ seen) xs → contains xs x ≡ false
  Apart-contains x seen [] h = refl
  Apart-contains x seen (y ∷ ys) h =
      ground (arith, Apart-contains x seen ys h.1, e.beq_iff x y, e.beq_iff y x)

  pub Apart-tail : (x : A) (seen xs : List A) → Apart (x ∷ seen) xs → Apart seen xs
  Apart-tail x seen [] h = tt
  Apart-tail x seen (y ∷ ys) h = ground (arith, Apart-tail x seen ys h.1)

  pub Apart-cons :
      (x : A) (seen xs : List A) → contains xs x ≡ false → Apart seen xs → Apart (x ∷ seen) xs
  Apart-cons x seen [] h k = tt
  Apart-cons x seen (y ∷ ys) h k =
      ground (arith, Apart-cons x seen ys, e.beq_iff x y, e.beq_iff y x)

  pub contains-append :
      (x : A) (xs ys : List A) → contains (xs ++ ys) x ≡ (contains xs x || contains ys x)
  contains-append x [] ys = refl
  contains-append x (y ∷ xs) ys = ground (arith, contains-append x xs ys)

  pub Distinct-append :
      (xs ys : List A) → Distinct xs → Distinct ys → Apart xs ys → Distinct (xs ++ ys)
  Distinct-append [] ys d e a = e
  Distinct-append (x ∷ xs) ys d e a = ground (
    arith,
    Distinct-append xs ys d.1 e (Apart-tail x xs ys a),
    contains-append x xs ys,
    Apart-contains x xs ys a,
  )

  -- Apart from the union of two lists is apart from each.
  pub Apart-or :
      (all_of one two xs : List A)
      → ((x : A) → contains all_of x ≡ (contains one x || contains two x))
      → Apart all_of xs
      → Apart one xs × Apart two xs
  Apart-or all_of one two [] h a = (tt, tt)
  Apart-or all_of one two (x ∷ xs) h a = ground (arith, h x, Apart-or all_of one two xs h a.1)

  pub Apart-append : (seen xs ys : List A) → Apart seen xs → Apart seen ys → Apart seen (xs ++ ys)
  Apart-append seen [] ys a b = b
  Apart-append seen (x ∷ xs) ys a b = (a.0, Apart-append seen xs ys a.1 b)

  -- The list without the first element equal to `a`.
  abbrev pub remove : A → List A → List A
  remove a [] = []
  remove a (x ∷ xs) = if x == a then xs else x ∷ remove a xs

  length-remove :
      (a : A) (xs : List A) → contains xs a ≡ true → length xs ≡ suc (length (remove a xs))
  length-remove a [] h = cc
  length-remove a (x ∷ xs) h = ground (arith, length-remove a xs)

  contains-remove_ne :
      (a b : A) (xs : List A) → (b == a) ≡ false → contains xs a ≡ contains (remove b xs) a
  contains-remove_ne a b [] h = refl
  contains-remove_ne a b (x ∷ xs) h =
      ground (arith, contains-remove_ne a b xs h, e.beq_iff x a, e.beq_iff x b, e.beq_iff b a)

  abbrev pub Within : List A → List A → Type 0
  Within ys xs = All (λ x. contains ys x ≡ true) xs

  Within-remove :
      (x : A) (xs ys : List A) → contains xs x ≡ false → Within ys xs → Within (remove x ys) xs
  Within-remove x [] ys h w = tt
  Within-remove x (z ∷ xs) ys h w =
      ground (arith, Within-remove x xs ys, contains-remove_ne z x ys, e.beq_iff x z, e.beq_iff z x)

  Within-cons : (x : A) (xs ys : List A) → Within xs (remove x ys) → Within (x ∷ xs) ys
  Within-cons x xs [] w = tt
  Within-cons x xs (y ∷ ys) w =
      ground (arith, Within-cons x xs ys, Within-weaken x xs ys, e.beq_iff x y, e.beq_iff y x)
    where
      Within-weaken : (x : A) (xs ys : List A) → Within xs ys → Within (x ∷ xs) ys
      Within-weaken x xs [] w = tt
      Within-weaken x xs (y ∷ ys) w = ground (arith, Within-weaken x xs ys w.1)

  -- The pigeonhole principle: distinct elements of a list that is no longer exhaust it.
  pub Within-exhausts :
      (xs ys : List A) → Distinct xs → Within ys xs → length ys ≤ length xs → Within xs ys
  Within-exhausts [] [] d w h = tt
  Within-exhausts [] (y ∷ ys) d w h = absurd (omega arith)
  Within-exhausts (x ∷ xs) ys d w h = Within-cons x xs ys (
      Within-exhausts xs (remove x ys) d.1 (Within-remove x xs ys d.0 w.1)
        (omega (arith, length-remove x ys w.0)))

-- `ORDER BY`: insertion sort by a test of order.
module _ {ℓ} {A : Type ℓ} where
  abbrev pub insert_by : (A → A → Bool) → A → List A → List A
  insert_by le x [] = x ∷ []
  insert_by le x (y ∷ ys) = if le x y then x ∷ y ∷ ys else y ∷ insert_by le x ys

  unfoldable pub sort_by : (A → A → Bool) → List A → List A
  sort_by le [] = []
  sort_by le (x ∷ xs) = insert_by le x (sort_by le xs)

  insert_by-All {κ} :
      (P : A → Type κ) (le : A → A → Bool) (x : A) (ys : List A)
      → P x
      → All P ys
      → All P (insert_by le x ys)
  insert_by-All P le x [] p h = (p, tt)
  insert_by-All P le x (y ∷ ys) p h = ground (arith, insert_by-All P le x ys p h.1)

  pub sort_by-All {κ} :
      (P : A → Type κ) (le : A → A → Bool) (xs : List A) → All P xs → All P (sort_by le xs)
  unfolding sort_by
  sort_by-All P le [] h = tt
  sort_by-All P le (x ∷ xs) h = insert_by-All P le x (sort_by le xs) h.0 (sort_by-All P le xs h.1)

pub data ∅ {ℓ} : Type ℓ where

-- Membership as a family by recursion, and what a query keeps.
module _ {ℓ} {A : Type ℓ} where
  abbrev pub In : A → List A → Type ℓ
  In x [] = ∅
  In x (y ∷ ys) = (x ≡ y) ⊎ In x ys

  All-weaken {κ ν} :
      {P : A → Type κ} {Q : A → Type ν} (xs : List A) → ((x : A) → P x → Q x) → All P xs → All Q xs
  All-weaken [] f h = tt
  All-weaken (x ∷ xs) f h = (f x h.0, All-weaken xs f h.1)

  pub select-All : (p : A → Bool) (xs : List A) → All (λ x. (p x ≡ true) × In x xs) (select p xs)
  select-All p [] = tt
  select-All p (x ∷ xs) =
      let rest : All (λ y. (p y ≡ true) × In y (x ∷ xs)) (select p xs) =
        All-weaken (select p xs) (λ y h. (h.0, inr h.1)) (select-All p xs) in
      elim (Bool-cases (p x)) [
        | inl yes_p ↦ rw yes_p ((yes_p, inl refl), rest)
        | inr no_p ↦ rw no_p rest
      ]

  pub find-In : (p : A → Bool) (xs : List A) (x : A) → find p xs ≡ some x → (p x ≡ true) × In x xs
  find-In p [] x h = cc
  find-In p (y ∷ ys) x h = elim (Bool-cases (p y)) [
    | inl here ↦ let e : y ≡ x = ground arith in (rw (← e) here, inl (sym e))
    | inr later ↦ let r = find-In p ys x (ground arith) in (r.0, inr r.1)
  ]

  pub All-append {κ} : (P : A → Type κ) (xs ys : List A) → All P xs → All P ys → All P (xs ++ ys)
  All-append P [] ys h k = k
  All-append P (x ∷ xs) ys h k = (h.0, All-append P xs ys h.1 k)

-- At most one element passes the test.
abbrev pub AtMostOne : {A : Type 0} → (A → Bool) → List A → Type 0
AtMostOne p [] = Unit
AtMostOne p (x ∷ xs) = ((p x && any p xs) ≡ false) × AtMostOne p xs

pub any-delete : {A : Type 0} (p : A → Bool) (xs : List A) → any p (delete p xs) ≡ false
any-delete p [] = refl
any-delete p (x ∷ xs) = ground (arith, any-delete p xs)

pub any-delete-false :
    {A : Type 0} (p q : A → Bool) (xs : List A) → any p xs ≡ false → any p (delete q xs) ≡ false
any-delete-false p q [] h = refl
any-delete-false p q (x ∷ xs) h = ground (arith, h, any-delete-false p q xs)

pub any-append :
    {A : Type 0} (p : A → Bool) (xs ys : List A) → any p (xs ++ ys) ≡ (any p xs || any p ys)
any-append p [] ys = refl
any-append p (x ∷ xs) ys = ground (arith, any-append p xs ys)

-- Equality of lists, as an interface.
module _ {A : Type 0} ⦃e : Eq A⦄ where
  abbrev pub list_beq : List A → List A → Bool
  list_beq [] [] = true
  list_beq (x ∷ xs) (y ∷ ys) = x == y && list_beq xs ys
  list_beq _ _ = false

  pub list_beq_iff : (xs ys : List A) → (list_beq xs ys ≡ true) ↔ (xs ≡ ys)
  list_beq_iff [] [] = ground arith
  list_beq_iff [] (y ∷ ys) = ground arith
  list_beq_iff (x ∷ xs) [] = ground arith
  list_beq_iff (x ∷ xs) (y ∷ ys) = ground (arith, e.beq_iff x y, list_beq_iff xs ys)

instance abbrev pub list_eq : {A : Type 0} ⦃e : Eq A⦄ → Eq (List A)
list_eq = record { beq = list_beq; beq_iff = list_beq_iff }

pub find-update :
    {A : Type 0} (p : A → Bool) (f : A → A) (xs : List A) (a : A)
    → ((x : A) → p (f x) ≡ p x)
    → find p xs ≡ some a
    → find p (update p f xs) ≡ some (f a)
find-update p f [] a keep h = cc
find-update p f (x ∷ xs) a keep h = ground (arith, h, keep x, find-update p f xs a keep)

-- What is found after an update came out of it.
pub find-update_made :
    {A : Type 0} (p : A → Bool) (f : A → A) (xs : List A) (a : A)
    → ((x : A) → p (f x) ≡ p x)
    → find p (update p f xs) ≡ some a
    → (b : A) × (find p xs ≡ some b) × (a ≡ f b)
find-update_made p f [] a keep h = absurd (ground (arith, h))
find-update_made p f (x ∷ xs) a keep h = elim (Bool-cases (p x)) [
  | inl here ↦ (x, ground (arith, here), ground (arith, h, here, keep x))
  | inr later ↦
      let (b, at, made) = find-update_made p f xs a keep (ground (arith, h, later, keep x)) in
      (b, ground (arith, later, at), made)
]

pub find-any :
    {A : Type 0} (p : A → Bool) (xs : List A) (a : A) → find p xs ≡ some a → any p xs ≡ true
find-any p [] a h = cc
find-any p (x ∷ xs) a h = ground (arith, h, find-any p xs a)

-- What a search finds after an update that keeps what is searched for.
pub find-update_other :
    {A : Type 0} (p q : A → Bool) (f : A → A) (xs : List A)
    → ((x : A) → p (f x) ≡ p x)
    → ((find p xs ≡ none) × (find p (update q f xs) ≡ none))
      ⊎ ((a : A) × (find p xs ≡ some a) × (find p (update q f xs) ≡ some (if q a then f a else a)))
find-update_other p q f [] keep = inl (refl, refl)
find-update_other p q f (x ∷ xs) keep = elim (Bool-cases (p x)) [
  | inl here ↦ inr (x, ground (arith, here), ground (arith, here, keep x))
  | inr later ↦ elim (find-update_other p q f xs keep) [
    | inl (a, b) ↦ inl (ground (arith, later, a), ground (arith, later, keep x, b))
    | inr (a, b, c) ↦ inr (a, ground (arith, later, b), ground (arith, later, keep x, c))
  ]
]
