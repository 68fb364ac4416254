-- ===== src/Client/Keymap/Tests.antt =====
-- The keymap at concrete keys and flags.
use wiredesk.Base.{ℕ, ◌≡◌, refl, true, false, [], ◌∷◌, some}
use wiredesk.Client.Keymap.{
  Key, key_a, egui_key_to_scancode, cgkeycode_to_scancode, cg_flag_change_to_scancodes,
  cg_flag_change_to_scancodes_swapped, swap_cmd_alt_bits, egui_modifiers_to_u8,
}
use wiredesk.Client.Keymap.Scancodes.{egui_key_to_scancode-injective}
use wiredesk.Client.Keymap.Codes.{cgkeycode_to_scancode-injective}
use wiredesk.Client.Keymap.Flags.{asked, asked_swapped, press_all, tap, last_of, press_all-tap}

swapped_command : cg_flag_change_to_scancodes_swapped 1048576 0 ≡ (0x38, true) ∷ []
unfolding cg_flag_change_to_scancodes_swapped cg_flag_change_to_scancodes swap_cmd_alt_bits
swapped_command = refl

modifiers-command :
    egui_modifiers_to_u8 (record { ctrl = false; command = true; shift = true; alt = false }) ≡ 3
unfolding egui_modifiers_to_u8
modifiers-command = refl

a_scancode : egui_key_to_scancode key_a ≡ some 0x1E
unfolding egui_key_to_scancode
a_scancode = refl

egui_key_to_scancode-injective_example : key_a ≡ key_a
egui_key_to_scancode-injective_example =
    egui_key_to_scancode-injective key_a key_a 0x1E a_scancode a_scancode

delete_scancode : cgkeycode_to_scancode 0x75 ≡ some 0xE053
unfolding cgkeycode_to_scancode
delete_scancode = refl

cgkeycode_to_scancode-injective_example :
    (◌≡◌ {A = ℕ} 0x75 0x75) × (k : Key) × (egui_key_to_scancode k ≡ some 0xE053)
cgkeycode_to_scancode-injective_example =
    cgkeycode_to_scancode-injective 0x75 0x75 0xE053 delete_scancode delete_scancode

-- Command goes down, then Control beside it, then Command up.
press_all-tap_example :
    (press_all (asked 0) (tap cg_flag_change_to_scancodes 0 (1048576 ∷ 1310720 ∷ 262144 ∷ []))
      ≡ asked (last_of 0 (1048576 ∷ 1310720 ∷ 262144 ∷ [])))
    × (press_all
          (asked_swapped 0)
          (tap cg_flag_change_to_scancodes_swapped 0 (1048576 ∷ 1310720 ∷ 262144 ∷ []))
        ≡ asked_swapped (last_of 0 (1048576 ∷ 1310720 ∷ 262144 ∷ [])))
press_all-tap_example = press_all-tap 0 (1048576 ∷ 1310720 ∷ 262144 ∷ [])
