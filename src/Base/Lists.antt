-- ===== src/Base/Lists.antt =====
-- Go slices as lists, measured and indexed by native numbers, under the library's names.
use Prim.Native.Nat.{ℕ, zero, suc, ◌+◌, ◌-◌, ◌≤◌, min}
use mathlib.Core.Path.{◌≡◌, refl, ap}
use mathlib.Core.List.{List, [], ◌∷◌, ◌++◌}
use mathlib.Core.Option.{Option, none, some}
use native.Mathlib.Omega.{arith}

module _ {ℓ} {A : Type ℓ} where
  abbrev pub length : List A → ℕ
  length [] = 0
  length (x ∷ xs) = suc (length xs)

  abbrev pub get_elem? : List A → ℕ → Option A
  get_elem? [] i = none
  get_elem? (x ∷ xs) zero = some x
  get_elem? (x ∷ xs) (suc i) = get_elem? xs i

  abbrev pub take : ℕ → List A → List A
  take zero xs = []
  take (suc n) [] = []
  take (suc n) (x ∷ xs) = x ∷ take n xs

  abbrev pub drop : ℕ → List A → List A
  drop zero xs = xs
  drop (suc n) [] = []
  drop (suc n) (x ∷ xs) = drop n xs

  pub length-append : (xs ys : List A) → length (xs ++ ys) ≡ length xs + length ys
  length-append [] ys = omega arith
  length-append (x ∷ xs) ys = omega (arith, length-append xs ys)

  pub length-take : (n : ℕ) (xs : List A) → length (take n xs) ≡ min n (length xs)
  length-take zero xs = omega arith
  length-take (suc n) [] = omega arith
  length-take (suc n) (x ∷ xs) = omega (arith, length-take n xs)

  pub length-drop : (n : ℕ) (xs : List A) → length (drop n xs) ≡ length xs - n
  length-drop zero xs = omega arith
  length-drop (suc n) [] = omega arith
  length-drop (suc n) (x ∷ xs) = omega (arith, length-drop n xs)

  pub take-add : (t n m : ℕ) (xs : List A) → m ≡ t + n → take m xs ≡ take t xs ++ take n (drop t xs)
  take-add zero n m xs e = let e' : m ≡ n = omega arith in rw e'
  take-add (suc t) n zero xs e = absurd (omega arith)
  take-add (suc t) n (suc m) [] e = take_nil n
    where
      take_nil : (k : ℕ) → [] ≡ take k []
      take_nil zero = refl
      take_nil (suc k) = refl
  take-add (suc t) n (suc m) (x ∷ xs) e = ap (◌∷◌ x) (take-add t n m xs (omega arith))

  pub drop-add : (t n m : ℕ) (xs : List A) → m ≡ t + n → drop m xs ≡ drop n (drop t xs)
  drop-add zero n m xs e = let e' : m ≡ n = omega arith in rw e'
  drop-add (suc t) n zero xs e = absurd (omega arith)
  drop-add (suc t) n (suc m) [] e = drop_nil n
    where
      drop_nil : (k : ℕ) → [] ≡ drop k []
      drop_nil zero = refl
      drop_nil (suc k) = refl
  drop-add (suc t) n (suc m) (x ∷ xs) e = drop-add t n m xs (omega arith)

  pub drop-take_append : (t : ℕ) (xs ys : List A) → t ≤ length xs → drop t (take t xs ++ ys) ≡ ys
  drop-take_append zero xs ys h = refl
  drop-take_append (suc t) [] ys h = absurd (omega arith)
  drop-take_append (suc t) (x ∷ xs) ys h = drop-take_append t xs ys (omega arith)

  -- The prefix of a known length.
  pub take-append_eq : (n : ℕ) (xs ys : List A) → length xs ≡ n → take n (xs ++ ys) ≡ xs
  take-append_eq zero [] ys e = refl
  take-append_eq zero (x ∷ xs) ys e = absurd (omega arith)
  take-append_eq (suc n) [] ys e = absurd (omega arith)
  take-append_eq (suc n) (x ∷ xs) ys e = ap (◌∷◌ x) (take-append_eq n xs ys (omega arith))

  pub drop-append_eq : (n : ℕ) (xs ys : List A) → length xs ≡ n → drop n (xs ++ ys) ≡ ys
  drop-append_eq zero [] ys e = refl
  drop-append_eq zero (x ∷ xs) ys e = absurd (omega arith)
  drop-append_eq (suc n) [] ys e = absurd (omega arith)
  drop-append_eq (suc n) (x ∷ xs) ys e = drop-append_eq n xs ys (omega arith)

-- A predicate on every element, by recursion, so that it computes to tuples.
abbrev pub All {ℓ κ} : {A : Type ℓ} → (A → Type κ) → List A → Type κ
All P [] = Unit
All P (x ∷ xs) = P x × All P xs

pub All-append {ℓ κ} :
    {A : Type ℓ} (P : A → Type κ) (xs ys : List A) → All P xs → All P ys → All P (xs ++ ys)
All-append P [] ys hx hy = hy
All-append P (x ∷ xs) ys hx hy = (hx.0, All-append P xs ys hx.1 hy)
