-- ===== src/Base/Result.antt =====
-- Rust's `Result<A, E>`, with `?` as the bind of a `do` block.
use mathlib.Core.Path.{◌≡◌, refl, subst}
use mathlib.Core.Logic.{◌⊎◌, inl, inr}

pub data Result {ℓ κ} (E : Type ℓ) (A : Type κ) : Type (ℓ ⊔ κ) where
  err : (error : E) → Result E A
  ok : (value : A) → Result E A

infixl 5 ◌>>=◌ ◌>>◌
-- `?`, and the code behind it.
abbrev pub ◌>>=◌ {ℓ κ μ} :
    {E : Type ℓ} {A : Type κ} {B : Type μ} → Result E A → (A → Result E B) → Result E B
err error >>= next = err error
ok value >>= next = next value

abbrev pub ◌>>◌ {ℓ μ} : {E : Type ℓ} {B : Type μ} → Result E (Unit {0}) → Result E B → Result E B
check >> next = check >>= λ _. next

module _ {ℓ} {E : Type ℓ} where
  -- A chain that ends well: its first part has a value, and the rest ends well on that.
  pub >>=-eq-ok {κ μ} :
      {A : Type κ} {B : Type μ} {last : B} (first : Result E A) (next : A → Result E B)
      → (first >>= next) ≡ ok last
      → (value : A) × (first ≡ ok value) × (next value ≡ ok last)
  >>=-eq-ok (err error) next ends = cc
  >>=-eq-ok (ok value) next ends = (value, refl, ends)

  pub Result-cases {κ} :
      {A : Type κ} (m : Result E A) → ((a : A) × (m ≡ ok a)) ⊎ ((e : E) × (m ≡ err e))
  Result-cases (ok a) = inl (a, refl)
  Result-cases (err e) = inr (e, refl)

-- `map_err`.
abbrev pub map_err {ℓ κ μ} :
    {E : Type ℓ} {F : Type κ} {A : Type μ} → (E → F) → Result E A → Result F A
map_err f (ok a) = ok a
map_err f (err e) = err (f e)

-- What a computation ensures of its result, when there is one.
abbrev pub Ensures {ℓ κ μ} : {E : Type ℓ} {A : Type κ} → (A → Type μ) → Result E A → Type μ
Ensures P (ok a) = P a
Ensures P (err e) = Unit

module _ {ℓ κ μ ν} {E : Type ℓ} {A : Type κ} {B : Type μ} where
  pub Ensures->>= :
      (P : A → Type ν) (Q : B → Type ν) (m : Result E A) (f : A → Result E B)
      → Ensures P m
      → ((a : A) → P a → Ensures Q (f a))
      → Ensures Q (m >>= f)
  Ensures->>= P Q (ok a) f h k = k a h
  Ensures->>= P Q (err e) f h k = tt

module _ {ℓ κ μ} {E : Type ℓ} {A : Type κ} where
  pub Ensures->> :
      (Q : A → Type μ) (m : Result E (Unit {0})) (k : Result E A) → Ensures Q k → Ensures Q (m >> k)
  Ensures->> Q (ok _) k h = h
  Ensures->> Q (err e) k h = tt

  pub Ensures-ok : (P : A → Type μ) (m : Result E A) {a : A} → Ensures P m → m ≡ ok a → P a
  Ensures-ok P m h e = subst (Ensures P) e h
