-- ===== src/Keyboard/Tests.antt =====
-- The theorem on the keys, at a concrete key.
use hypnos.Base.{◌≡◌, true, false, arith}
use hypnos.Keyboard.{Keyboard, keyboard_callback}
use hypnos.Keyboard.Keys.{typed, shifted, entry, typed-keyboard_callback}

abbrev shift_held : Keyboard
shift_held = record {
  shift_pressed = true;
  ctrl_pressed = false;
  alt_pressed = false;
  caps_lock = false;
}

-- The key 3 with shift held
typed-keyboard_callback_example :
    (keyboard_callback 4 shift_held).0 ≡ typed (entry (shifted true false 4) 4)
typed-keyboard_callback_example = typed-keyboard_callback shift_held 4 (omega arith)
