-- ===== src/Keyboard.antt =====
-- kernel/arch/i386/drivers/keyboard.c: the handler of the keyboard interrupt. The byte that it reads
-- from the port is its argument, and the character it hands to the shell is part of its result.
pub mod Keys
mod Tests
use hypnos.Base.{
  ℕ, ◌+◌, ◌-◌, ◌%◌, Bool, true, false, not, ◌&&◌, ◌||◌, Option, none, some, List, [], ◌∷◌, ◌==◌,
  ltb, leb, if◌then◌else◌, get_or, bit_and,
}

-- `keymap`; the entries after these are 0.
abbrev pub keymap : List ℕ
keymap =
    0 ∷ 27 ∷ b'1' ∷ b'2' ∷ b'3' ∷ b'4' ∷ b'5' ∷ b'6' ∷ b'7' ∷ b'8' ∷ b'9' ∷ b'0' ∷ b'-' ∷ b'=' ∷ 8
    ∷ 9 ∷ b'q' ∷ b'w' ∷ b'e' ∷ b'r' ∷ b't' ∷ b'y' ∷ b'u' ∷ b'i' ∷ b'o' ∷ b'p' ∷ b'[' ∷ b']' ∷ b'\n'
    ∷ 0 ∷ b'a' ∷ b's' ∷ b'd' ∷ b'f' ∷ b'g' ∷ b'h' ∷ b'j' ∷ b'k' ∷ b'l' ∷ b';' ∷ 39 ∷ b'`' ∷ 0 ∷ 92
    ∷ b'z' ∷ b'x' ∷ b'c' ∷ b'v' ∷ b'b' ∷ b'n' ∷ b'm' ∷ b',' ∷ b'.' ∷ b'/' ∷ 0 ∷ b'*' ∷ 0 ∷ b' ' ∷ []

-- `keymap_shift`; the entries after these are 0.
abbrev pub keymap_shift : List ℕ
keymap_shift =
    0 ∷ 27 ∷ b'!' ∷ b'@' ∷ b'#' ∷ b'$' ∷ b'%' ∷ b'^' ∷ b'&' ∷ b'*' ∷ b'(' ∷ b')' ∷ b'_' ∷ b'+' ∷ 8
    ∷ 9 ∷ b'Q' ∷ b'W' ∷ b'E' ∷ b'R' ∷ b'T' ∷ b'Y' ∷ b'U' ∷ b'I' ∷ b'O' ∷ b'P' ∷ b'{' ∷ b'}' ∷ b'\n'
    ∷ 0 ∷ b'A' ∷ b'S' ∷ b'D' ∷ b'F' ∷ b'G' ∷ b'H' ∷ b'J' ∷ b'K' ∷ b'L' ∷ b':' ∷ 34 ∷ b'~' ∷ 0 ∷ b'|'
    ∷ b'Z' ∷ b'X' ∷ b'C' ∷ b'V' ∷ b'B' ∷ b'N' ∷ b'M' ∷ b'<' ∷ b'>' ∷ b'?' ∷ 0 ∷ b'*' ∷ 0 ∷ b' ' ∷ []

-- `shift_pressed` and the other modifiers
pub record Keyboard : Type 0 where
  pub shift_pressed : Bool
  pub ctrl_pressed : Bool
  pub alt_pressed : Bool
  pub caps_lock : Bool

abbrev pub sc_lshift : ℕ
sc_lshift = 42

abbrev pub sc_rshift : ℕ
sc_rshift = 54

abbrev pub sc_ctrl : ℕ
sc_ctrl = 29

abbrev pub sc_alt : ℕ
sc_alt = 56

abbrev pub sc_caps : ℕ
sc_caps = 58

abbrev pub is_lower : ℕ → Bool
is_lower c = leb b'a' c && leb c b'z'

abbrev pub is_upper : ℕ → Bool
is_upper c = leb b'A' c && leb c b'Z'

-- `is_letter`
unfoldable pub is_letter : ℕ → Bool
is_letter c = is_lower c || is_upper c

-- The branch of a released key.
unfoldable pub release : ℕ → Keyboard → Keyboard
release code k =
    if code == sc_lshift || code == sc_rshift
    then record k { shift_pressed = false }
    else if code == sc_ctrl
    then record k { ctrl_pressed = false }
    else if code == sc_alt
    then record k { alt_pressed = false }
    else k

-- A letter in the case that is asked for.
unfoldable pub with_case : Bool → ℕ → ℕ
with_case upper base =
    if upper
    then (if is_lower base then base - b'a' + b'A' else base)
    else (if is_upper base then base - b'A' + b'a' else base)

-- The character of a key that is not a letter.
unfoldable pub symbol : Bool → ℕ → ℕ → ℕ
symbol use_shift scancode base =
    if use_shift
    then (if get_or keymap_shift scancode 0 == 0 then base else get_or keymap_shift scancode 0)
    else base

-- The character of a key whose entry of `keymap` is not 0.
unfoldable pub character : ℕ → ℕ → Keyboard → ℕ
unfolding is_letter with_case symbol
character scancode base k =
    if is_letter base
    then with_case (if k.caps_lock then not k.shift_pressed else k.shift_pressed) base
    else symbol k.shift_pressed scancode base

-- The rest of the handler, for a key that is no modifier.
unfoldable pub type_key : ℕ → Keyboard → Option ℕ
unfolding character
type_key scancode k =
    let base = get_or keymap scancode 0 in
    if base == 0
    then none
    else if character scancode base k == 0
    then none
    else some (character scancode base k)

-- `keyboard_callback`
unfoldable pub keyboard_callback : ℕ → Keyboard → Option ℕ × Keyboard
unfolding release type_key
keyboard_callback scancode k =
    if leb 128 scancode
    then (none, release (scancode % 128) k)
    else if scancode == sc_lshift || scancode == sc_rshift
    then (none, record k { shift_pressed = true })
    else if scancode == sc_ctrl
    then (none, record k { ctrl_pressed = true })
    else if scancode == sc_alt
    then (none, record k { alt_pressed = true })
    else if scancode == sc_caps
    then (none, record k { caps_lock = not k.caps_lock })
    else (type_key scancode k, k)
