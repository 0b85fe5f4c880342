-- ===== src/Prelude/Lists.antt =====
-- Lists with native lengths, and predicates on them by recursion.
use Prim.Native.Nat.{ℕ, zero, suc, ◌+◌, min}
use mathlib.Core.Path.{◌≡◌, refl, ap}
use mathlib.Core.Logic.{◌↔◌, ◌⊎◌, inl, inr}
use mathlib.Core.Bool.{Bool, true, false, ◌&&◌, ◌||◌}
use mathlib.Core.Option.{Option, none, some}
use mathlib.Core.List.{List, [], ◌∷◌, ◌++◌, map}
use native.Mathlib.Omega.{arith}
use zmodbit.Prelude.Tests.{if◌then◌else◌, Bool-cases}
use zmodbit.Prelude.Texts.{Text, text_eq}

module _ {ℓ} {A : Type ℓ} where
  abbrev pub length : List A → ℕ
  length [] = 0
  length (x ∷ xs) = suc (length xs)

  -- `slice[..n]` and `slice[n..]` of a slice that is long enough.
  abbrev pub take : ℕ → List A → List A
  take zero xs = []
  take (suc n) [] = []
  take (suc n) (x ∷ xs) = x ∷ take n xs

  abbrev pub drop : ℕ → List A → List A
  drop zero xs = xs
  drop (suc n) [] = []
  drop (suc n) (x ∷ xs) = drop n xs

  -- `Vec::push`.
  abbrev pub push : List A → A → List A
  push xs a = xs ++ a ∷ []

  abbrev pub last : List A → Option A
  last [] = none
  last (x ∷ []) = some x
  last (x ∷ y ∷ xs) = last (y ∷ xs)

  abbrev pub any : (A → Bool) → List A → Bool
  any p [] = false
  any p (x ∷ xs) = p x || any p xs

  abbrev pub all : (A → Bool) → List A → Bool
  all p [] = true
  all p (x ∷ xs) = p x && all p xs

  -- `Iterator::find`.
  abbrev pub find : (A → Bool) → List A → Option A
  find p [] = none
  find p (x ∷ xs) = if p x then some x else find p xs

  -- `Iterator::filter` and `Vec::retain`.
  abbrev pub retain : (A → Bool) → List A → List A
  retain p [] = []
  retain p (x ∷ xs) = if p x then x ∷ retain p xs else retain p xs

  abbrev pub All {κ} : (A → Type κ) → List A → Type κ
  All P [] = Unit
  All P (x ∷ xs) = P x × All P xs

  abbrev pub Any : (A → Type 0) → List A → Type 0
  Any P [] = ⊥
  Any P (x ∷ xs) = P x ⊎ Any P xs

  pub length-append : (xs ys : List A) → length (xs ++ ys) ≡ length xs + length ys
  length-append [] ys = omega arith
  length-append (x ∷ xs) ys = omega (arith, length-append xs ys)

  pub take-append-drop : (n : ℕ) (xs : List A) → take n xs ++ drop n xs ≡ xs
  take-append-drop zero xs = refl
  take-append-drop (suc n) [] = refl
  take-append-drop (suc n) (x ∷ xs) = cc (take-append-drop n xs)

  pub length-take : (n : ℕ) (xs : List A) → length (take n xs) ≡ min n (length xs)
  length-take zero xs = omega arith
  length-take (suc n) [] = omega arith
  length-take (suc n) (x ∷ xs) = omega (arith, length-take n xs)

  pub All-push {κ} : (P : A → Type κ) (xs : List A) (a : A) → All P xs → P a → All P (push xs a)
  All-push P [] a h p = (p, tt)
  All-push P (x ∷ xs) a h p = (h.0, All-push P xs a h.1 p)

  pub All-map {κ μ} :
      (P : A → Type κ) (Q : A → Type μ)
      → ((a : A) → P a → Q a)
      → (xs : List A) → All P xs
      → All Q xs
  All-map P Q f [] h = tt
  All-map P Q f (x ∷ xs) h = (f x h.0, All-map P Q f xs h.1)

  pub All-retain {κ} :
      (P : A → Type κ) (p : A → Bool) (xs : List A) → All P xs → All P (retain p xs)
  All-retain P p [] h = tt
  All-retain P p (x ∷ xs) h = elim (Bool-cases (p x)) [
    | inl q ↦ rw (q) (h.0, All-retain P p xs h.1)
    | inr q ↦ rw (q) (All-retain P p xs h.1)
  ]

  pub All-take {κ} : (P : A → Type κ) (n : ℕ) (xs : List A) → All P xs → All P (take n xs)
  All-take P zero xs h = tt
  All-take P (suc n) [] h = tt
  All-take P (suc n) (x ∷ xs) h = (h.0, All-take P n xs h.1)

  pub last-push : (xs : List A) (a : A) → last (push xs a) ≡ some a
  last-push [] a = refl
  last-push (x ∷ []) a = refl
  last-push (x ∷ y ∷ xs) a = last-push (y ∷ xs) a

  pub append_nil : (xs : List A) → xs ++ [] ≡ xs
  append_nil [] = refl
  append_nil (x ∷ xs) = ap (λ ys. x ∷ ys) (append_nil xs)

  pub push-append : (xs ys : List A) (a : A) → push xs a ++ ys ≡ xs ++ a ∷ ys
  push-append [] ys a = refl
  push-append (x ∷ xs) ys a = ap (λ zs. x ∷ zs) (push-append xs ys a)

  pub append-split :
      (ps qs xs ys : List A) → length ps ≡ length qs → ps ++ xs ≡ qs ++ ys → (ps ≡ qs) × (xs ≡ ys)
  append-split [] [] xs ys n e = (refl, e)
  append-split [] (q ∷ qs) xs ys n e = absurd (omega arith)
  append-split (p ∷ ps) [] xs ys n e = absurd (omega arith)
  append-split (p ∷ ps) (q ∷ qs) xs ys n e =
      let (heads, tails) = append-split ps qs xs ys (omega arith) (ground arith) in
      (ground arith, tails)

  -- A found element passes the test; a failed search means that none does.
  pub find-some : (p : A → Bool) (xs : List A) {a : A} → find p xs ≡ some a → p a ≡ true
  find-some p [] h = cc
  find-some p (x ∷ xs) {a} h = ground (arith, find-some p xs {a = a})

  pub any_iff : (p : A → Bool) (xs : List A) → (any p xs ≡ true) ↔ Any (λ a. p a ≡ true) xs
  any_iff p [] = (λ h. cc, λ h. absurd h)
  any_iff p (x ∷ xs) = ground (arith, any_iff p xs)

pub map-append {ℓ κ} :
    {A : Type ℓ} {B : Type κ} (f : A → B) (xs ys : List A) → map f (xs ++ ys) ≡ map f xs ++ map f ys
map-append f [] ys = refl
map-append f (x ∷ xs) ys = ap (λ zs. f x ∷ zs) (map-append f xs ys)

pub map-push {ℓ κ} :
    {A : Type ℓ} {B : Type κ} (f : A → B) (xs : List A) (a : A)
    → map f (push xs a) ≡ push (map f xs) (f a)
map-push f [] a = refl
map-push f (x ∷ xs) a = ap (λ ys. f x ∷ ys) (map-push f xs a)

-- `!text.is_empty()`.
abbrev pub is_filled : Text → Bool
is_filled [] = false
is_filled (c ∷ t) = true

-- `slice.contains(x)` on texts.
abbrev pub contains : List Text → Text → Bool
contains xs t = any (λ x. text_eq x t) xs

abbrev pub Mem : Text → List Text → Type 0
Mem t xs = Any (λ x. x ≡ t) xs
