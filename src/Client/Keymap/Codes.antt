-- ===== src/Client/Keymap/Codes.antt =====
-- The keyboard tap's table against itself and against the window's.
use wiredesk.Base.{
  ℕ, ◌≡◌, refl, sym, ap, ◌∙◌, Bool, true, false, ◌&&◌, List, [], ◌∷◌, Option, none, some, map, ◌==◌,
  Bool-cases, ==_iff, inl, inr, arith,
}
use wiredesk.Client.Keymap.{Key, egui_key_to_scancode, lookup, cg_arms, cgkeycode_to_scancode}
use wiredesk.Client.Keymap.Scancodes.{key_arms, some-injective}

abbrev holds : Option ℕ → ℕ → Bool
holds none n = false
holds (some m) n = m == n

holds-some : (o : Option ℕ) (n : ℕ) → holds o n ≡ true → o ≡ some n
holds-some none n h = cc
holds-some (some m) n h = ap some ((==_iff m n).0 h)

abbrev scancode_of : Option Key → Option ℕ
scancode_of none = none
scancode_of (some k) = egui_key_to_scancode k

some_key :
    (k : Option Key) (n : ℕ)
    → scancode_of k ≡ some n
    → (k' : Key) × (egui_key_to_scancode k' ≡ some n)
some_key none n e = cc
some_key (some k) n e = (k, e)

module _ (test : ℕ × ℕ → Bool) where
  abbrev all_pass : List (ℕ × ℕ) → Bool
  all_pass [] = true
  all_pass (a ∷ arms) = test a && all_pass arms

  lookup-all_pass :
      (arms : List (ℕ × ℕ)) (code n : ℕ)
      → all_pass arms ≡ true
      → lookup arms code ≡ some n
      → test (code, n) ≡ true
  lookup-all_pass [] code n h e = cc
  lookup-all_pass ((c, v) ∷ arms) code n h e =
      let both = both_true (test (c, v)) (all_pass arms) h in
      elim (Bool-cases (code == c)) [
        | inl t ↦
            let value : v ≡ n = some-injective (rw t at e) in
            rw ((==_iff code c).0 t, sym value) both.0
        | inr m ↦ lookup-all_pass arms code n both.1 (rw m at e)
      ]
    where
      both_true : (x y : Bool) → (x && y) ≡ true → (x ≡ true) × (y ≡ true)
      both_true true y h = (refl, h)
      both_true false y h = cc

-- An arm is found again by its scancode, and the scancode is that of a key.
unfoldable found : ℕ × ℕ → Bool
found (code, n) =
    holds (lookup (map (λ (a : ℕ × ℕ). (a.1, a.0)) cg_arms) n) code
    && holds (scancode_of (lookup key_arms n)) n

found_all : all_pass found cg_arms ≡ true
unfolding found egui_key_to_scancode
found_all = refl

found_both :
    (code n : ℕ)
    → found (code, n) ≡ true
    → (lookup (map (λ (a : ℕ × ℕ). (a.1, a.0)) cg_arms) n ≡ some code)
      × (scancode_of (lookup key_arms n) ≡ some n)
unfolding found
found_both code n h = split _ _ h
  where
    split :
        (o o' : Option ℕ) → (holds o code && holds o' n) ≡ true → (o ≡ some code) × (o' ≡ some n)
    split (some a) (some b) h = (ground arith, ground arith)
    split none o' h = cc
    split (some a) none h = ground arith

-- The keyboard tap gives different key codes different scancodes, and each scancode that it gives is
-- one that the window's table gives for some key.
pub cgkeycode_to_scancode-injective :
    (code code' n : ℕ)
    → cgkeycode_to_scancode code ≡ some n
    → cgkeycode_to_scancode code' ≡ some n
    → (code ≡ code') × (k : Key) × (egui_key_to_scancode k ≡ some n)
unfolding cgkeycode_to_scancode
cgkeycode_to_scancode-injective code code' n e e' =
    let (back, key) = found_both code n (lookup-all_pass found cg_arms code n found_all e) in
    let (back', key') = found_both code' n (lookup-all_pass found cg_arms code' n found_all e') in
    let named = some_key (lookup key_arms n) n key in
    (some-injective (sym back ∙ back'), named.0, named.1)
