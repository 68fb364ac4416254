-- ===== src/Base/Chunks.antt =====
-- `slice::chunks`, and the slices joined again.
use wiredesk.Base.Lists.{length, take, drop, All, length-take, length-drop, take-append-drop}
use Prim.Native.Nat.{ℕ, zero, suc, ◌+◌, ◌*◌, ◌≤◌, ◌<◌}
use mathlib.Core.Path.{◌≡◌, refl, ap, ◌∙◌}
use mathlib.Core.Bool.{Bool, true, false}
use mathlib.Core.List.{List, [], ◌∷◌, ◌++◌}
use native.Mathlib.Omega.{arith}

-- Every piece of a payload is marked as arrived.
abbrev pub full : List Bool → Bool
full [] = true
full (true ∷ mask) = full mask
full (false ∷ mask) = false

module _ {ℓ} {A : Type ℓ} where
  -- The fuel is a bound of the number of chunks.
  abbrev pub chunks : ℕ → ℕ → List A → List (List A)
  chunks zero n xs = []
  chunks (suc fuel) n [] = []
  chunks (suc fuel) n (x ∷ xs) = take n (x ∷ xs) ∷ chunks fuel n (drop n (x ∷ xs))

  abbrev pub joined : List (List A) → List A
  joined [] = []
  joined (p ∷ ps) = p ++ joined ps

  pub joined-chunks :
      (fuel most : ℕ) (xs : List A)
      → 0 < most
      → length xs ≤ fuel
      → joined (chunks fuel most xs) ≡ xs
  joined-chunks zero most [] p h = refl
  joined-chunks zero most (x ∷ xs) p h = absurd (omega arith)
  joined-chunks (suc fuel) most [] p h = refl
  joined-chunks (suc fuel) most (x ∷ xs) p h =
      ap (λ (t : List A). take most (x ∷ xs) ++ t)
        (joined-chunks fuel most (drop most (x ∷ xs)) p (omega (arith, length-drop most (x ∷ xs))))
      ∙ take-append-drop most (x ∷ xs)

  chunks-nil : (fuel most : ℕ) (xs : List A) → length xs ≡ 0 → length (chunks fuel most xs) ≡ 0
  chunks-nil zero most xs e = refl
  chunks-nil (suc fuel) most [] e = refl
  chunks-nil (suc fuel) most (x ∷ xs) e = absurd (omega arith)

  -- The pieces fill the payload's length up, with less than one piece to spare.
  pub length-chunks :
      (fuel most : ℕ) (xs : List A)
      → 0 < most
      → length xs ≤ fuel
      → (length xs ≤ length (chunks fuel most xs) * most)
        × (length (chunks fuel most xs) * most < length xs + most)
  length-chunks zero most [] p h = (omega arith, omega arith)
  length-chunks zero most (x ∷ xs) p h = absurd (omega arith)
  length-chunks (suc fuel) most [] p h = (omega arith, omega arith)
  length-chunks (suc fuel) most (x ∷ xs) p h =
      let rest = drop most (x ∷ xs) in
      let size = length-drop most (x ∷ xs) in
      let ih = length-chunks fuel most rest p (omega (arith, size)) in
      let none' = chunks-nil fuel most rest in
      (omega (arith, ih.0, size), grind (arith, ih.1, size, none'))

  pub chunks-bounded :
      (fuel most : ℕ) (xs : List A) → All (λ piece. length piece ≤ most) (chunks fuel most xs)
  chunks-bounded zero most xs = tt
  chunks-bounded (suc fuel) most [] = tt
  chunks-bounded (suc fuel) most (x ∷ xs) =
      (omega (arith, length-take most (x ∷ xs)), chunks-bounded fuel most (drop most (x ∷ xs)))

  pub chunks-nonempty :
      (fuel most : ℕ) (xs : List A)
      → 0 < most
      → All (λ piece. 0 < length piece) (chunks fuel most xs)
  chunks-nonempty zero most xs h = tt
  chunks-nonempty (suc fuel) most [] h = tt
  chunks-nonempty (suc fuel) most (x ∷ xs) h =
      (omega (arith, length-take most (x ∷ xs)), chunks-nonempty fuel most (drop most (x ∷ xs)) h)
