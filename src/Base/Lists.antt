-- ===== src/Base/Lists.antt =====
-- Lists measured by native numbers, under the library's names, with the filters and the
-- predicates that the components share.
use Prim.Native.Nat.{ℕ, zero, suc, ◌+◌, ◌-◌, ◌≤◌}
use mathlib.Core.Path.{◌≡◌, refl, ap, sym, ◌∙◌, ◌≡⟨◌⟩◌, ◌∎}
use mathlib.Core.Logic.{◌⊎◌, inl, inr}
use mathlib.Core.Bool.{Bool, true, false, ◌&&◌, ◌||◌}
use mathlib.Core.List.{List, [], ◌∷◌, ◌++◌}
use native.Mathlib.Omega.{arith}
use chitchat.Base.Tests.{if◌then◌else◌, ltb, Bool-cases}

module _ {ℓ} {A : Type ℓ} where
  abbrev pub length : List A → ℕ
  length [] = 0
  length (x ∷ xs) = suc (length xs)

  abbrev pub drop : ℕ → List A → List A
  drop zero xs = xs
  drop (suc n) [] = []
  drop (suc n) (x ∷ xs) = drop n xs

  -- `filter` over a Boolean test.
  abbrev pub select : (A → Bool) → List A → List A
  select p [] = []
  select p (x ∷ xs) = let rest = select p xs in if p x then x ∷ rest else rest

  abbrev pub any : (A → Bool) → List A → Bool
  any p [] = false
  any p (x ∷ xs) = p x || any p xs

  abbrev pub all : (A → Bool) → List A → Bool
  all p [] = true
  all p (x ∷ xs) = p x && all p xs

  -- The statement `P` of every element.
  abbrev pub All {κ} : (A → Type κ) → List A → Type κ
  All P [] = Unit
  All P (x ∷ xs) = P x × All P xs

  -- `xs[len(xs)-n:]`: the last `n` elements, of a list that has as many.
  unfoldable pub last_n : ℕ → List A → List A
  last_n n xs = if ltb n (length xs) then drop (length xs - n) xs else xs

-- `a` stands in the list.
abbrev pub In : {A : Type 0} → A → List A → Type 0
In a [] = ⊥
In a (x ∷ xs) = (a ≡ x) ⊎ In a xs

suc-add_eq : (n m : ℕ) → suc (n + m) ≡ suc n + m
suc-add_eq n m = omega arith

module _ {ℓ} {A : Type ℓ} where
  pub length-append : (xs ys : List A) → length (xs ++ ys) ≡ length xs + length ys
  length-append [] ys = omega arith
  length-append (x ∷ xs) ys = omega (arith, length-append xs ys)

  pub length-drop : (n : ℕ) (xs : List A) → length (drop n xs) ≡ length xs - n
  length-drop zero xs = omega arith
  length-drop (suc n) [] = omega arith
  length-drop (suc n) (x ∷ xs) = omega (arith, length-drop n xs)

  pub drop_whole : (n : ℕ) (xs : List A) → length xs ≤ n → drop n xs ≡ []
  drop_whole zero [] h = refl
  drop_whole zero (x ∷ xs) h = absurd (omega arith)
  drop_whole (suc n) [] h = refl
  drop_whole (suc n) (x ∷ xs) h = drop_whole n xs (omega arith)

  pub drop_nil : (n : ℕ) → drop {A = A} n [] ≡ []
  drop_nil zero = refl
  drop_nil (suc n) = refl

  pub drop-append : (n : ℕ) (xs ys : List A) → n ≤ length xs → drop n (xs ++ ys) ≡ drop n xs ++ ys
  drop-append zero xs ys h = refl
  drop-append (suc n) [] ys h = elim h [ ]
  drop-append (suc n) (x ∷ xs) ys h = drop-append n xs ys (omega arith)

  pub drop-drop : (m n : ℕ) (xs : List A) → drop m (drop n xs) ≡ drop (n + m) xs
  drop-drop m zero xs = ap (λ k. drop k xs) (omega arith)
  drop-drop m (suc n) [] = drop_nil m ∙ sym (drop_nil (suc n + m))
  drop-drop m (suc n) (x ∷ xs) = drop-drop m n xs ∙ ap (λ k. drop k (x ∷ xs)) (suc-add_eq n m)

  pub select-append :
      (p : A → Bool) (xs ys : List A) → select p (xs ++ ys) ≡ select p xs ++ select p ys
  select-append p [] ys = refl
  select-append p (x ∷ xs) ys = ground (arith, select-append p xs ys)

  pub length-select-le : (p : A → Bool) (xs : List A) → length (select p xs) ≤ length xs
  length-select-le p [] = omega arith
  length-select-le p (x ∷ xs) = ground (arith, length-select-le p xs)

  pub select_drops : (p : A → Bool) (xs : List A) → All (λ x. p x ≡ false) xs → select p xs ≡ []
  select_drops p [] h = refl
  select_drops p (x ∷ xs) h = ground (arith, select_drops p xs)

  pub select_keeps : (p : A → Bool) (xs : List A) → All (λ x. p x ≡ true) xs → select p xs ≡ xs
  select_keeps p [] h = refl
  select_keeps p (x ∷ xs) h = ground (arith, select_keeps p xs)

module _ {ℓ κ} {A : Type ℓ} (P : A → Type κ) where
  pub All-append : (xs ys : List A) → All P xs → All P ys → All P (xs ++ ys)
  All-append [] ys hx hy = hy
  All-append (x ∷ xs) ys hx hy = (hx.0, All-append xs ys hx.1 hy)

  pub All-drop : (n : ℕ) (xs : List A) → All P xs → All P (drop n xs)
  All-drop zero xs h = h
  All-drop (suc n) [] h = h
  All-drop (suc n) (x ∷ xs) h = All-drop n xs h.1

module _ {ℓ} {A : Type ℓ} where
  pub last_n_lem : (k : ℕ) (xs : List A) → last_n k xs ≡ drop (length xs - k) xs
  unfolding last_n
  last_n_lem k xs = elim (Bool-cases (ltb k (length xs))) [
    | inl a ↦ rw a
    | inr a ↦ rw a (ap (λ n. drop n xs) (ltb_sub k (length xs) a))
  ]
    where
      ltb_sub : (k n : ℕ) → ltb k n ≡ false → 0 ≡ n - k
      ltb_sub k n h = ground arith

  pub last_n_nil : (k : ℕ) → last_n {A = A} k [] ≡ []
  last_n_nil k = last_n_lem k [] ∙ drop_nil (0 - k)

  pub last_n_whole : (k : ℕ) (xs : List A) → length xs ≤ k → last_n k xs ≡ xs
  last_n_whole k xs h = last_n_lem k xs ∙ ap (λ n. drop n xs) (sub_zero (length xs) h)
    where
      sub_zero : (n : ℕ) → n ≤ k → n - k ≡ 0
      sub_zero n h = omega arith

  pub length-last_n-le : (k : ℕ) (xs : List A) → length (last_n k xs) ≤ k
  length-last_n-le k xs = rw (last_n_lem k xs) (omega (arith, length-drop (length xs - k) xs))

  pub length-last_n : (k : ℕ) (xs : List A) → length (last_n k xs) ≡ length xs - (length xs - k)
  length-last_n k xs = ap length (last_n_lem k xs) ∙ length-drop (length xs - k) xs

  -- The last `k` elements of a list that ends in `ys` need only the last `k` of what stands before.
  pub last_n-append : (k : ℕ) (xs ys : List A) → last_n k (last_n k xs ++ ys) ≡ last_n k (xs ++ ys)
  last_n-append k xs ys =
      last_n k (last_n k xs ++ ys)
      ≡⟨ ap (λ (zs : List A). last_n k (zs ++ ys)) (last_n_lem k xs) ⟩ last_n k (drop d xs ++ ys)
      ≡⟨ ap (last_n k) (sym (drop-append d xs ys (omega arith))) ⟩ last_n k (drop d (xs ++ ys))
      ≡⟨ last_n_lem k (drop d (xs ++ ys)) ⟩
        drop (length (drop d (xs ++ ys)) - k) (drop d (xs ++ ys))
      ≡⟨ drop-drop (length (drop d (xs ++ ys)) - k) d (xs ++ ys) ⟩
        drop (d + (length (drop d (xs ++ ys)) - k)) (xs ++ ys)
      ≡⟨ ap (λ n. drop n (xs ++ ys)) amount ⟩ drop (length (xs ++ ys) - k) (xs ++ ys)
      ≡⟨ sym (last_n_lem k (xs ++ ys)) ⟩ last_n k (xs ++ ys) ∎
    where
      d : ℕ
      d = length xs - k

      amount : d + (length (drop d (xs ++ ys)) - k) ≡ length (xs ++ ys) - k
      amount = omega (arith, length-drop d (xs ++ ys), length-append xs ys)

  -- Where `ys` fits, it is kept whole.
  pub last_n_keeps :
      (k : ℕ) (xs ys : List A)
      → length ys ≤ k
      → last_n k (xs ++ ys) ≡ drop (length xs + length ys - k) xs ++ ys
  last_n_keeps k xs ys h =
      last_n_lem k (xs ++ ys)
      ∙ ap (λ n. drop (n - k) (xs ++ ys)) (length-append xs ys)
      ∙ drop-append (length xs + length ys - k) xs ys (omega arith)
