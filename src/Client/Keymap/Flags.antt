-- ===== src/Client/Keymap/Flags.antt =====
-- The modifier keys: what the host has pressed, against the flags of the Mac.
use wiredesk.Base.{
  ℕ, ◌≡◌, refl, sym, ap, ◌∙◌, Bool, true, false, ◌||◌, List, [], ◌∷◌, ◌++◌, foldl, foldl-append,
  ◌==◌, if◌then◌else◌, arith,
}
use wiredesk.Client.Keymap.{
  win_scan_lctrl, win_scan_lshift, win_scan_lalt, has_bit, cg_shift, cg_control, cg_alt, cg_command,
  change, ctrl_down, cg_flag_change_to_scancodes, swap_cmd_alt_bits,
  cg_flag_change_to_scancodes_swapped,
}

-- The modifier keys that the host holds down.
pub record Held : Type 0 where
  pub ctrl : Bool
  pub shift : Bool
  pub alt : Bool

-- The host on a key event.
abbrev pub press : Held → ℕ × Bool → Held
press h (scan, down) =
    if scan == win_scan_lctrl
    then record h { ctrl = down }
    else if scan == win_scan_lshift
    then record h { shift = down }
    else if scan == win_scan_lalt
    then record h { alt = down }
    else h

abbrev pub press_all : Held → List (ℕ × Bool) → Held
press_all = foldl press

-- What the flags ask for: Command and Control are both Ctrl.
abbrev pub asked : ℕ → Held
asked f = record { ctrl = ctrl_down f; shift = has_bit cg_shift f; alt = has_bit cg_alt f }

-- What they ask for where Command and Option are swapped on the keyboard: Option is Ctrl then.
abbrev pub asked_swapped : ℕ → Held
asked_swapped f = record {
  ctrl = has_bit cg_alt f || has_bit cg_control f;
  shift = has_bit cg_shift f;
  alt = has_bit cg_command f;
}

change-ctrl :
    (h : Held) (c c' : Bool) (rest : List (ℕ × Bool))
    → press_all (record h { ctrl = c }) (change win_scan_lctrl c c' ++ rest)
      ≡ press_all (record h { ctrl = c' }) rest
change-ctrl h true true rest = refl
change-ctrl h true false rest = refl
change-ctrl h false true rest = refl
change-ctrl h false false rest = refl

change-shift :
    (h : Held) (s s' : Bool) (rest : List (ℕ × Bool))
    → press_all (record h { shift = s }) (change win_scan_lshift s s' ++ rest)
      ≡ press_all (record h { shift = s' }) rest
change-shift h true true rest = refl
change-shift h true false rest = refl
change-shift h false true rest = refl
change-shift h false false rest = refl

change-alt :
    (h : Held) (a a' : Bool)
    → press_all (record h { alt = a }) (change win_scan_lalt a a') ≡ record h { alt = a' }
change-alt h true true = refl
change-alt h true false = refl
change-alt h false true = refl
change-alt h false false = refl

changes :
    (c c' s s' a a' : Bool)
    → press_all
        (record { ctrl = c; shift = s; alt = a })
        (change win_scan_lctrl c c' ++ (change win_scan_lshift s s' ++ change win_scan_lalt a a'))
      ≡ record { ctrl = c'; shift = s'; alt = a' }
changes c c' s s' a a' =
    change-ctrl (record { ctrl = c; shift = s; alt = a }) c c' _
    ∙ change-shift (record { ctrl = c'; shift = s; alt = a }) s s' _
    ∙ change-alt (record { ctrl = c'; shift = s'; alt = a }) a a'

-- The events of `FlagsChanged` after `FlagsChanged`, each made against the flags before it.
abbrev pub tap : (ℕ → ℕ → List (ℕ × Bool)) → ℕ → List ℕ → List (ℕ × Bool)
tap events prev [] = []
tap events prev (flags ∷ rest) = events flags prev ++ tap events flags rest

abbrev pub last_of : ℕ → List ℕ → ℕ
last_of prev [] = prev
last_of prev (flags ∷ rest) = last_of flags rest

-- Both bits that the swap exchanges, and that it leaves the others alone.
swap-command : (f : ℕ) → has_bit cg_command (swap_cmd_alt_bits f) ≡ has_bit cg_alt f
unfolding swap_cmd_alt_bits
swap-command f = grind arith

swap-alt : (f : ℕ) → has_bit cg_alt (swap_cmd_alt_bits f) ≡ has_bit cg_command f
unfolding swap_cmd_alt_bits
swap-alt f = grind arith

swap-shift : (f : ℕ) → has_bit cg_shift (swap_cmd_alt_bits f) ≡ has_bit cg_shift f
unfolding swap_cmd_alt_bits
swap-shift f = grind arith

swap-control : (f : ℕ) → has_bit cg_control (swap_cmd_alt_bits f) ≡ has_bit cg_control f
unfolding swap_cmd_alt_bits
swap-control f = grind arith

-- The events make the host hold what the flags ask for.
press_all-changes :
    (prev flags : ℕ) → press_all (asked prev) (cg_flag_change_to_scancodes flags prev) ≡ asked flags
unfolding cg_flag_change_to_scancodes
press_all-changes prev flags =
    changes (ctrl_down prev) (ctrl_down flags) (has_bit cg_shift prev) (has_bit cg_shift flags)
      (has_bit cg_alt prev) (has_bit cg_alt flags)

asked-swap : (f : ℕ) → asked (swap_cmd_alt_bits f) ≡ asked_swapped f
asked-swap f = λ k. record {
  ctrl = swap-command f k || swap-control f k;
  shift = swap-shift f k;
  alt = swap-alt f k;
}

press_all-swapped :
    (prev flags : ℕ)
    → press_all (asked_swapped prev) (cg_flag_change_to_scancodes_swapped flags prev)
      ≡ asked_swapped flags
unfolding cg_flag_change_to_scancodes_swapped
press_all-swapped prev flags =
    ap
      (λ h.
        press_all h
          (cg_flag_change_to_scancodes (swap_cmd_alt_bits flags) (swap_cmd_alt_bits prev)))
      (sym (asked-swap prev))
    ∙ press_all-changes (swap_cmd_alt_bits prev) (swap_cmd_alt_bits flags)
    ∙ asked-swap flags

tap-held :
    (events : ℕ → ℕ → List (ℕ × Bool)) (held : ℕ → Held)
    → ((prev flags : ℕ) → press_all (held prev) (events flags prev) ≡ held flags)
    → (prev : ℕ) (rest : List ℕ)
    → press_all (held prev) (tap events prev rest) ≡ held (last_of prev rest)
tap-held events held one prev [] = refl
tap-held events held one prev (flags ∷ rest) =
    foldl-append press (held prev) (events flags prev) (tap events flags rest)
    ∙ ap (λ h. press_all h (tap events flags rest)) (one prev flags)
    ∙ tap-held events held one flags rest

-- Whatever flags the tap sees one after the other, the events that it makes of them leave the host
-- holding exactly the modifier keys that the last flags ask for, both as the flags are and with the
-- Command and Option bits swapped: then Option is Ctrl and Command is Alt.
pub press_all-tap :
    (prev : ℕ) (rest : List ℕ)
    → (press_all (asked prev) (tap cg_flag_change_to_scancodes prev rest)
        ≡ asked (last_of prev rest))
      × (press_all (asked_swapped prev) (tap cg_flag_change_to_scancodes_swapped prev rest)
          ≡ asked_swapped (last_of prev rest))
press_all-tap prev rest = (
  tap-held cg_flag_change_to_scancodes asked press_all-changes prev rest,
  tap-held cg_flag_change_to_scancodes_swapped asked_swapped press_all-swapped prev rest,
)
