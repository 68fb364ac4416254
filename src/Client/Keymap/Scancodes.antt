-- ===== src/Client/Keymap/Scancodes.antt =====
-- The two scancode tables.
use wiredesk.Base.{ℕ, ◌≡◌, ◌⊎◌, inl, inr, refl, sym, ap, ◌∙◌, List, [], ◌∷◌, Option, none, some}
use wiredesk.Client.Keymap.{
  key_a, key_b, key_c, key_d, key_e, key_f, key_g, key_h, key_i, key_j, key_k, key_l, key_m, key_n,
  key_o, key_p, key_q, key_r, key_s, key_t, key_u, key_v, key_w, key_x, key_y, key_z, key_num0,
  key_num1, key_num2, key_num3, key_num4, key_num5, key_num6, key_num7, key_num8, key_num9, key_f1,
  key_f2, key_f3, key_f4, key_f5, key_f6, key_f7, key_f8, key_f9, key_f10, key_f11, key_f12,
  key_escape, key_tab, key_backspace, key_enter, key_space, key_insert, key_delete, key_home,
  key_end, key_page_up, key_page_down, key_arrow_up, key_arrow_down, key_arrow_left,
  key_arrow_right, key_minus, key_equals, key_open_bracket, key_close_bracket, key_backslash,
  key_semicolon, key_quote, key_backtick, key_comma, key_period, key_slash, key_other, Key,
  egui_key_to_scancode, lookup,
}

-- The key that a scancode stands for.
abbrev pub key_arms : List (ℕ × Key)
key_arms =
    (0x1E, key_a)
    ∷ (0x30, key_b)
    ∷ (0x2E, key_c)
    ∷ (0x20, key_d)
    ∷ (0x12, key_e)
    ∷ (0x21, key_f)
    ∷ (0x22, key_g)
    ∷ (0x23, key_h)
    ∷ (0x17, key_i)
    ∷ (0x24, key_j)
    ∷ (0x25, key_k)
    ∷ (0x26, key_l)
    ∷ (0x32, key_m)
    ∷ (0x31, key_n)
    ∷ (0x18, key_o)
    ∷ (0x19, key_p)
    ∷ (0x10, key_q)
    ∷ (0x13, key_r)
    ∷ (0x1F, key_s)
    ∷ (0x14, key_t)
    ∷ (0x16, key_u)
    ∷ (0x2F, key_v)
    ∷ (0x11, key_w)
    ∷ (0x2D, key_x)
    ∷ (0x15, key_y)
    ∷ (0x2C, key_z)
    ∷ (0x0B, key_num0)
    ∷ (0x02, key_num1)
    ∷ (0x03, key_num2)
    ∷ (0x04, key_num3)
    ∷ (0x05, key_num4)
    ∷ (0x06, key_num5)
    ∷ (0x07, key_num6)
    ∷ (0x08, key_num7)
    ∷ (0x09, key_num8)
    ∷ (0x0A, key_num9)
    ∷ (0x3B, key_f1)
    ∷ (0x3C, key_f2)
    ∷ (0x3D, key_f3)
    ∷ (0x3E, key_f4)
    ∷ (0x3F, key_f5)
    ∷ (0x40, key_f6)
    ∷ (0x41, key_f7)
    ∷ (0x42, key_f8)
    ∷ (0x43, key_f9)
    ∷ (0x44, key_f10)
    ∷ (0x57, key_f11)
    ∷ (0x58, key_f12)
    ∷ (0x01, key_escape)
    ∷ (0x0F, key_tab)
    ∷ (0x0E, key_backspace)
    ∷ (0x1C, key_enter)
    ∷ (0x39, key_space)
    ∷ (0xE052, key_insert)
    ∷ (0xE053, key_delete)
    ∷ (0xE047, key_home)
    ∷ (0xE04F, key_end)
    ∷ (0xE049, key_page_up)
    ∷ (0xE051, key_page_down)
    ∷ (0xE048, key_arrow_up)
    ∷ (0xE050, key_arrow_down)
    ∷ (0xE04B, key_arrow_left)
    ∷ (0xE04D, key_arrow_right)
    ∷ (0x0C, key_minus)
    ∷ (0x0D, key_equals)
    ∷ (0x1A, key_open_bracket)
    ∷ (0x1B, key_close_bracket)
    ∷ (0x2B, key_backslash)
    ∷ (0x27, key_semicolon)
    ∷ (0x28, key_quote)
    ∷ (0x29, key_backtick)
    ∷ (0x33, key_comma)
    ∷ (0x34, key_period)
    ∷ (0x35, key_slash)
    ∷ []

abbrev pub Names : Key → Type 0
Names k =
    (egui_key_to_scancode k ≡ none)
    ⊎ ((c : ℕ) × (egui_key_to_scancode k ≡ some c) × (lookup key_arms c ≡ some k))

names : (k : Key) → Names k
unfolding egui_key_to_scancode
names key_a = inr (_, refl, refl)
names key_b = inr (_, refl, refl)
names key_c = inr (_, refl, refl)
names key_d = inr (_, refl, refl)
names key_e = inr (_, refl, refl)
names key_f = inr (_, refl, refl)
names key_g = inr (_, refl, refl)
names key_h = inr (_, refl, refl)
names key_i = inr (_, refl, refl)
names key_j = inr (_, refl, refl)
names key_k = inr (_, refl, refl)
names key_l = inr (_, refl, refl)
names key_m = inr (_, refl, refl)
names key_n = inr (_, refl, refl)
names key_o = inr (_, refl, refl)
names key_p = inr (_, refl, refl)
names key_q = inr (_, refl, refl)
names key_r = inr (_, refl, refl)
names key_s = inr (_, refl, refl)
names key_t = inr (_, refl, refl)
names key_u = inr (_, refl, refl)
names key_v = inr (_, refl, refl)
names key_w = inr (_, refl, refl)
names key_x = inr (_, refl, refl)
names key_y = inr (_, refl, refl)
names key_z = inr (_, refl, refl)
names key_num0 = inr (_, refl, refl)
names key_num1 = inr (_, refl, refl)
names key_num2 = inr (_, refl, refl)
names key_num3 = inr (_, refl, refl)
names key_num4 = inr (_, refl, refl)
names key_num5 = inr (_, refl, refl)
names key_num6 = inr (_, refl, refl)
names key_num7 = inr (_, refl, refl)
names key_num8 = inr (_, refl, refl)
names key_num9 = inr (_, refl, refl)
names key_f1 = inr (_, refl, refl)
names key_f2 = inr (_, refl, refl)
names key_f3 = inr (_, refl, refl)
names key_f4 = inr (_, refl, refl)
names key_f5 = inr (_, refl, refl)
names key_f6 = inr (_, refl, refl)
names key_f7 = inr (_, refl, refl)
names key_f8 = inr (_, refl, refl)
names key_f9 = inr (_, refl, refl)
names key_f10 = inr (_, refl, refl)
names key_f11 = inr (_, refl, refl)
names key_f12 = inr (_, refl, refl)
names key_escape = inr (_, refl, refl)
names key_tab = inr (_, refl, refl)
names key_backspace = inr (_, refl, refl)
names key_enter = inr (_, refl, refl)
names key_space = inr (_, refl, refl)
names key_insert = inr (_, refl, refl)
names key_delete = inr (_, refl, refl)
names key_home = inr (_, refl, refl)
names key_end = inr (_, refl, refl)
names key_page_up = inr (_, refl, refl)
names key_page_down = inr (_, refl, refl)
names key_arrow_up = inr (_, refl, refl)
names key_arrow_down = inr (_, refl, refl)
names key_arrow_left = inr (_, refl, refl)
names key_arrow_right = inr (_, refl, refl)
names key_minus = inr (_, refl, refl)
names key_equals = inr (_, refl, refl)
names key_open_bracket = inr (_, refl, refl)
names key_close_bracket = inr (_, refl, refl)
names key_backslash = inr (_, refl, refl)
names key_semicolon = inr (_, refl, refl)
names key_quote = inr (_, refl, refl)
names key_backtick = inr (_, refl, refl)
names key_comma = inr (_, refl, refl)
names key_period = inr (_, refl, refl)
names key_slash = inr (_, refl, refl)
names (key_other n) = inl refl

pub some-injective {ℓ} : {A : Type ℓ} {a b : A} → some a ≡ some b → a ≡ b
some-injective e = cc

name_of : (k : Key) (c : ℕ) → egui_key_to_scancode k ≡ some c → lookup key_arms c ≡ some k
name_of k c e = elim (names k) [
  | inl n ↦ absurd (none_some (sym n ∙ e))
  | inr named ↦
      let same : named.0 ≡ c = some-injective (sym named.1 ∙ e) in
      ap (lookup key_arms) (sym same) ∙ named.2
]
  where
    none_some : {c : ℕ} → ◌≡◌ {A = Option ℕ} none (some c) → ⊥
    none_some e = cc

-- Different keys have different scancodes.
pub egui_key_to_scancode-injective :
    (k k' : Key) (c : ℕ)
    → egui_key_to_scancode k ≡ some c
    → egui_key_to_scancode k' ≡ some c
    → k ≡ k'
egui_key_to_scancode-injective k k' c e e' = some-injective (sym (name_of k c e) ∙ name_of k' c e')
