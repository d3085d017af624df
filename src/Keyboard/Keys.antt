-- ===== src/Keyboard/Keys.antt =====
-- The handler types what the two tables of the keyboard say.
use hypnos.Base.{
  ℕ, zero, suc, ◌<◌, ◌≡◌, refl, ap, Bool, true, false, not, ◌&&◌, Option, none, some, ◌==◌, ==_iff,
  if◌then◌else◌, get_or,
}
use hypnos.Base.Bits.{all_below, all_below_sound}
use hypnos.Keyboard.{
  Keyboard, keymap, keymap_shift, is_letter, keyboard_callback, type_key, character, with_case,
  symbol,
}

-- What an entry of a table types: nothing when it is 0.
unfoldable pub typed : ℕ → Option ℕ
typed zero = none
typed (suc c) = some (suc c)

-- A test whether two results of the handler are the same.
same : Option ℕ → Option ℕ → Bool
same none none = true
same none (some b) = false
same (some a) none = false
same (some a) (some b) = a == b

same_sound : (a b : Option ℕ) → same a b ≡ true → a ≡ b
unfolding same
same_sound none none h = refl
same_sound none (some b) h = absurd (cc h)
same_sound (some a) none h = absurd (cc h)
same_sound (some a) (some b) h = ap some ((==_iff a b).0 h)

-- Shift, or the caps lock on a letter, but not both.
abbrev pub shifted : Bool → Bool → ℕ → Bool
shifted shift caps sc = if caps && is_letter (get_or keymap sc 0) then not shift else shift

-- The entry of the table that is in force.
abbrev pub entry : Bool → ℕ → ℕ
entry true sc = get_or keymap_shift sc 0
entry false sc = get_or keymap sc 0

-- The handler at a state with these modifiers.
abbrev at : Bool → Bool → Bool → Bool → ℕ → Option ℕ
at shift ctrl alt caps sc =
    (keyboard_callback sc (record {
      shift_pressed = shift;
      ctrl_pressed = ctrl;
      alt_pressed = alt;
      caps_lock = caps;
    })).0

typed-entry :
    (shift ctrl alt caps : Bool) (sc : ℕ)
    → sc < 128
    → at shift ctrl alt caps sc ≡ typed (entry (shifted shift caps sc) sc)
unfolding keyboard_callback type_key character with_case symbol is_letter all_below same typed
typed-entry true ctrl alt true sc lt = same_sound _ _ (
    all_below_sound 128
      (λ sc. same (at true ctrl alt true sc) (typed (entry (shifted true true sc) sc))) sc refl lt)
typed-entry true ctrl alt false sc lt = same_sound _ _ (
    all_below_sound 128
      (λ sc. same (at true ctrl alt false sc) (typed (entry (shifted true false sc) sc))) sc refl
      lt)
typed-entry false ctrl alt true sc lt = same_sound _ _ (
    all_below_sound 128
      (λ sc. same (at false ctrl alt true sc) (typed (entry (shifted false true sc) sc))) sc refl
      lt)
typed-entry false ctrl alt false sc lt = same_sound _ _ (
    all_below_sound 128
      (λ sc. same (at false ctrl alt false sc) (typed (entry (shifted false false sc) sc))) sc refl
      lt)

-- For every pressed key below 128, whatever the modifiers, the handler types the key's entry of
-- `keymap_shift` if shift is held, or the caps lock is on and the key is a letter, but not both, and
-- its entry of `keymap` otherwise; where the entry is 0 it types nothing.
pub typed-keyboard_callback :
    (k : Keyboard) (sc : ℕ)
    → sc < 128
    → (keyboard_callback sc k).0 ≡ typed (entry (shifted k.shift_pressed k.caps_lock sc) sc)
typed-keyboard_callback k sc lt =
    typed-entry k.shift_pressed k.ctrl_pressed k.alt_pressed k.caps_lock sc lt
