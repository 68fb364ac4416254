-- ===== src/Client/Keymap.antt =====
-- apps/wiredesk-client/src/input/keymap.rs: keys and modifiers of the Mac as Windows scancodes. A
-- flags word is a number, with its bits read and set by division.
pub mod Scancodes
pub mod Codes
pub mod Flags
mod Tests
use wiredesk.Base.{
  ℕ, ◌+◌, ◌-◌, ◌*◌, ◌/◌, ◌%◌, ◌^◌, Bool, true, false, not, ◌&&◌, ◌||◌, List, [], ◌∷◌, ◌++◌, Option,
  none, some, ◌==◌, if◌then◌else◌,
}

-- The keys of `egui::Key` that the table names; the others are told apart by a number.
pub data Key : Type 0 where
  key_a key_b key_c key_d key_e key_f key_g key_h key_i key_j key_k key_l key_m key_n key_o : Key
  key_p key_q key_r key_s key_t key_u key_v key_w key_x key_y key_z key_num0 key_num1 key_num2 : Key
  key_num3 key_num4 key_num5 key_num6 key_num7 key_num8 key_num9 key_f1 key_f2 key_f3 key_f4 : Key
  key_f5 key_f6 key_f7 key_f8 key_f9 key_f10 key_f11 key_f12 key_escape key_tab key_backspace : Key
  key_enter key_space key_insert key_delete key_home key_end key_page_up key_page_down : Key
  key_arrow_up key_arrow_down key_arrow_left key_arrow_right key_minus key_equals : Key
  key_open_bracket key_close_bracket key_backslash key_semicolon key_quote key_backtick : Key
  key_comma key_period key_slash : Key
  key_other : ℕ → Key

unfoldable pub egui_key_to_scancode : Key → Option ℕ
egui_key_to_scancode key_a = some 0x1E
egui_key_to_scancode key_b = some 0x30
egui_key_to_scancode key_c = some 0x2E
egui_key_to_scancode key_d = some 0x20
egui_key_to_scancode key_e = some 0x12
egui_key_to_scancode key_f = some 0x21
egui_key_to_scancode key_g = some 0x22
egui_key_to_scancode key_h = some 0x23
egui_key_to_scancode key_i = some 0x17
egui_key_to_scancode key_j = some 0x24
egui_key_to_scancode key_k = some 0x25
egui_key_to_scancode key_l = some 0x26
egui_key_to_scancode key_m = some 0x32
egui_key_to_scancode key_n = some 0x31
egui_key_to_scancode key_o = some 0x18
egui_key_to_scancode key_p = some 0x19
egui_key_to_scancode key_q = some 0x10
egui_key_to_scancode key_r = some 0x13
egui_key_to_scancode key_s = some 0x1F
egui_key_to_scancode key_t = some 0x14
egui_key_to_scancode key_u = some 0x16
egui_key_to_scancode key_v = some 0x2F
egui_key_to_scancode key_w = some 0x11
egui_key_to_scancode key_x = some 0x2D
egui_key_to_scancode key_y = some 0x15
egui_key_to_scancode key_z = some 0x2C
egui_key_to_scancode key_num0 = some 0x0B
egui_key_to_scancode key_num1 = some 0x02
egui_key_to_scancode key_num2 = some 0x03
egui_key_to_scancode key_num3 = some 0x04
egui_key_to_scancode key_num4 = some 0x05
egui_key_to_scancode key_num5 = some 0x06
egui_key_to_scancode key_num6 = some 0x07
egui_key_to_scancode key_num7 = some 0x08
egui_key_to_scancode key_num8 = some 0x09
egui_key_to_scancode key_num9 = some 0x0A
egui_key_to_scancode key_f1 = some 0x3B
egui_key_to_scancode key_f2 = some 0x3C
egui_key_to_scancode key_f3 = some 0x3D
egui_key_to_scancode key_f4 = some 0x3E
egui_key_to_scancode key_f5 = some 0x3F
egui_key_to_scancode key_f6 = some 0x40
egui_key_to_scancode key_f7 = some 0x41
egui_key_to_scancode key_f8 = some 0x42
egui_key_to_scancode key_f9 = some 0x43
egui_key_to_scancode key_f10 = some 0x44
egui_key_to_scancode key_f11 = some 0x57
egui_key_to_scancode key_f12 = some 0x58
egui_key_to_scancode key_escape = some 0x01
egui_key_to_scancode key_tab = some 0x0F
egui_key_to_scancode key_backspace = some 0x0E
egui_key_to_scancode key_enter = some 0x1C
egui_key_to_scancode key_space = some 0x39
egui_key_to_scancode key_insert = some 0xE052
egui_key_to_scancode key_delete = some 0xE053
egui_key_to_scancode key_home = some 0xE047
egui_key_to_scancode key_end = some 0xE04F
egui_key_to_scancode key_page_up = some 0xE049
egui_key_to_scancode key_page_down = some 0xE051
egui_key_to_scancode key_arrow_up = some 0xE048
egui_key_to_scancode key_arrow_down = some 0xE050
egui_key_to_scancode key_arrow_left = some 0xE04B
egui_key_to_scancode key_arrow_right = some 0xE04D
egui_key_to_scancode key_minus = some 0x0C
egui_key_to_scancode key_equals = some 0x0D
egui_key_to_scancode key_open_bracket = some 0x1A
egui_key_to_scancode key_close_bracket = some 0x1B
egui_key_to_scancode key_backslash = some 0x2B
egui_key_to_scancode key_semicolon = some 0x27
egui_key_to_scancode key_quote = some 0x28
egui_key_to_scancode key_backtick = some 0x29
egui_key_to_scancode key_comma = some 0x33
egui_key_to_scancode key_period = some 0x34
egui_key_to_scancode key_slash = some 0x35
egui_key_to_scancode (key_other n) = none

-- The first arm that fits.
abbrev pub lookup {ℓ} : {A : Type ℓ} → List (ℕ × A) → ℕ → Option A
lookup [] n = none
lookup ((code, value) ∷ arms) n = let rest = lookup arms n in if n == code then some value else rest

-- The arms of `cgkeycode_to_scancode`.
abbrev pub cg_arms : List (ℕ × ℕ)
cg_arms =
    (0x00, 0x1E)
    ∷ (0x0B, 0x30)
    ∷ (0x08, 0x2E)
    ∷ (0x02, 0x20)
    ∷ (0x0E, 0x12)
    ∷ (0x03, 0x21)
    ∷ (0x05, 0x22)
    ∷ (0x04, 0x23)
    ∷ (0x22, 0x17)
    ∷ (0x26, 0x24)
    ∷ (0x28, 0x25)
    ∷ (0x25, 0x26)
    ∷ (0x2E, 0x32)
    ∷ (0x2D, 0x31)
    ∷ (0x1F, 0x18)
    ∷ (0x23, 0x19)
    ∷ (0x0C, 0x10)
    ∷ (0x0F, 0x13)
    ∷ (0x01, 0x1F)
    ∷ (0x11, 0x14)
    ∷ (0x20, 0x16)
    ∷ (0x09, 0x2F)
    ∷ (0x0D, 0x11)
    ∷ (0x07, 0x2D)
    ∷ (0x10, 0x15)
    ∷ (0x06, 0x2C)
    ∷ (0x1D, 0x0B)
    ∷ (0x12, 0x02)
    ∷ (0x13, 0x03)
    ∷ (0x14, 0x04)
    ∷ (0x15, 0x05)
    ∷ (0x17, 0x06)
    ∷ (0x16, 0x07)
    ∷ (0x1A, 0x08)
    ∷ (0x1C, 0x09)
    ∷ (0x19, 0x0A)
    ∷ (0x18, 0x0D)
    ∷ (0x1B, 0x0C)
    ∷ (0x21, 0x1A)
    ∷ (0x1E, 0x1B)
    ∷ (0x2A, 0x2B)
    ∷ (0x29, 0x27)
    ∷ (0x27, 0x28)
    ∷ (0x32, 0x29)
    ∷ (0x2B, 0x33)
    ∷ (0x2F, 0x34)
    ∷ (0x2C, 0x35)
    ∷ (0x24, 0x1C)
    ∷ (0x30, 0x0F)
    ∷ (0x31, 0x39)
    ∷ (0x33, 0x0E)
    ∷ (0x35, 0x01)
    ∷ (0x7B, 0xE04B)
    ∷ (0x7C, 0xE04D)
    ∷ (0x7D, 0xE050)
    ∷ (0x7E, 0xE048)
    ∷ (0x73, 0xE047)
    ∷ (0x77, 0xE04F)
    ∷ (0x74, 0xE049)
    ∷ (0x79, 0xE051)
    ∷ (0x75, 0xE053)
    ∷ (0x7A, 0x3B)
    ∷ (0x78, 0x3C)
    ∷ (0x63, 0x3D)
    ∷ (0x76, 0x3E)
    ∷ (0x60, 0x3F)
    ∷ (0x61, 0x40)
    ∷ (0x62, 0x41)
    ∷ (0x64, 0x42)
    ∷ (0x65, 0x43)
    ∷ (0x6D, 0x44)
    ∷ (0x67, 0x57)
    ∷ (0x6F, 0x58)
    ∷ []

unfoldable pub cgkeycode_to_scancode : ℕ → Option ℕ
cgkeycode_to_scancode keycode = lookup cg_arms keycode

abbrev pub win_scan_lctrl : ℕ
win_scan_lctrl = 0x1D

abbrev pub win_scan_lshift : ℕ
win_scan_lshift = 0x2A

abbrev pub win_scan_lalt : ℕ
win_scan_lalt = 0x38

-- `f & (1 << k) != 0`, and the bit cleared and set.
abbrev pub has_bit : ℕ → ℕ → Bool
has_bit k f = (f / 2 ^ k) % 2 == 1

abbrev pub clear_bit : ℕ → ℕ → ℕ
clear_bit k f = if has_bit k f then f - 2 ^ k else f

abbrev pub set_bit : ℕ → ℕ → ℕ
set_bit k f = if has_bit k f then f else f + 2 ^ k

-- The bits of the masks `CG_FLAG_SHIFT` to `CG_FLAG_COMMAND`.
abbrev pub cg_shift : ℕ
cg_shift = 17

abbrev pub cg_control : ℕ
cg_control = 18

abbrev pub cg_alt : ℕ
cg_alt = 19

abbrev pub cg_command : ℕ
cg_command = 20

-- One `if`/`else if` of `cg_flag_change_to_scancodes`.
abbrev pub change : ℕ → Bool → Bool → List (ℕ × Bool)
change scan false true = (scan, true) ∷ []
change scan true false = (scan, false) ∷ []
change scan true true = []
change scan false false = []

abbrev pub ctrl_down : ℕ → Bool
ctrl_down f = has_bit cg_command f || has_bit cg_control f

unfoldable pub cg_flag_change_to_scancodes : ℕ → ℕ → List (ℕ × Bool)
cg_flag_change_to_scancodes flags prev =
    change win_scan_lctrl (ctrl_down prev) (ctrl_down flags)
    ++ (change win_scan_lshift (has_bit cg_shift prev) (has_bit cg_shift flags)
        ++ change win_scan_lalt (has_bit cg_alt prev) (has_bit cg_alt flags))

unfoldable pub swap_cmd_alt_bits : ℕ → ℕ
swap_cmd_alt_bits f =
    let cleared = clear_bit cg_alt (clear_bit cg_command f) in
    let moved = if has_bit cg_command f then set_bit cg_alt cleared else cleared in
    if has_bit cg_alt f then set_bit cg_command moved else moved

unfoldable pub cg_flag_change_to_scancodes_swapped : ℕ → ℕ → List (ℕ × Bool)
cg_flag_change_to_scancodes_swapped flags prev =
    cg_flag_change_to_scancodes (swap_cmd_alt_bits flags) (swap_cmd_alt_bits prev)

-- `egui::Modifiers`, as far as it is read.
pub record Modifiers : Type 0 where
  pub ctrl : Bool
  pub command : Bool
  pub shift : Bool
  pub alt : Bool

-- The `|=` are of different bits.
unfoldable pub egui_modifiers_to_u8 : Modifiers → ℕ
egui_modifiers_to_u8 m =
    (if m.ctrl || m.command then 1 else 0) + (if m.shift then 2 else 0) + (if m.alt then 4 else 0)
