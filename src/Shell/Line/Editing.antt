-- ===== src/Shell/Line/Editing.antt =====
-- The line that is typed at the prompt.
use hypnos.Base.{
  ℕ, ◌-◌, ◌≤◌, ◌≡◌, ◌≢◌, refl, ap, sym, ◌∙◌, false, Option, some, List, [], ◌∷◌, ◌++◌, arith, ◌==◌,
  ltb, length, length-append, length-take, take_all, All, if◌then◌else◌, Bool-cases, inl, inr,
  ==_iff,
}
use hypnos.CStr.{CString}
use hypnos.Editor.{but_last, editor_is_active}
use hypnos.Kernel.{Kernel, KernelM, Call, otherwise, pure, ◌>>◌, call}
use hypnos.Shell.Line.{editor_key, shell_keypress, line_key, erase_char, type_char}

-- The line after a key that is not Enter: a backspace takes the last character away, any other key is
-- appended, up to 127 characters.
unfoldable pub line_after : CString → ℕ → CString
line_after line c =
    if c == 8 then but_last line else if ltb (length line) 127 then line ++ (c ∷ []) else line

unfoldable pub line_of : CString → List ℕ → CString
line_of line [] = line
line_of line (c ∷ cs) = line_of (line_after line c) cs

line_after-fits : (line : CString) (c : ℕ) → length line ≤ 127 → length (line_after line c) ≤ 127
unfolding line_after but_last
line_after-fits line c h =
    ground (arith, length-append line (c ∷ []), length-take (length line - 1) line)

module _ {D : Type 0} where
  unfoldable pub press : List ℕ → KernelM D (Unit {0})
  press [] = pure tt
  press (c ∷ cs) = do shell_keypress c; press cs

  -- The keys return; the line is that of `line_of`, of at most 127 characters, and all else but the
  -- screen is as before.
  pub data Edited (k : Kernel D) (cs : List ℕ) : Option (Unit {0} × Kernel D) → Type 0 where
    edited :
        {after : Kernel D}
        → after.input ≡ line_of k.input cs
        → length after.input ≤ 127
        → after.fs ≡ k.fs
        → after.sec ≡ k.sec
        → after.log ≡ k.log
        → after.editor ≡ k.editor
        → Edited k cs (some (tt, after))

  -- One key: the new line, and perhaps an echo on the screen.
  pub data OneKey (k : Kernel D) (c : ℕ) : Option (Unit {0} × Kernel D) → Type 0 where
    one_key :
        {line : CString} {out : List Call}
        → line ≡ line_after k.input c
        → OneKey k c (some (tt, record k { input = line; out = out }))

  erase-OneKey : (k : Kernel D) → OneKey k 8 (erase_char k)
  unfolding erase_char line_after call but_last
  erase-OneKey k = elim (Bool-cases (ltb 0 (length k.input))) [
    | inl e ↦ rw e (one_key refl)
    | inr e ↦ rw e (one_key (sym (take_all (length k.input - 1) k.input (ground arith))))
  ]

  type-OneKey : (k : Kernel D) (c : ℕ) → c ≢ 8 → OneKey k c (type_char c k)
  unfolding type_char line_after call
  type-OneKey k c ne =
      let n : (c == 8) ≡ false = ground arith in
      elim (Bool-cases (ltb (length k.input) 127)) [
        | inl e ↦ rw e (one_key (rw (n, e) refl))
        | inr e ↦ rw e (one_key (rw (n, e) refl))
      ]

  key-OneKey :
      (k : Kernel D) (c : ℕ) → k.editor.active ≡ false → c ≢ 10 → OneKey k c (shell_keypress c k)
  unfolding shell_keypress line_key editor_is_active
  key-OneKey k c a ne =
      let n : (c == 10) ≡ false = ground arith in
      rw (otherwise k.editor.active (editor_key c) (line_key c) k a) (elim (Bool-cases (c == 8)) [
        | inl e ↦ let same : c ≡ 8 = (==_iff c 8).0 e in rw same (erase-OneKey k)
        | inr e ↦ rw (e, n) (type-OneKey k c (λ q. ground arith))
      ])

  Edited-cons :
      (k k1 : Kernel D) (c : ℕ) (cs : List ℕ) {o : Option (Unit {0} × Kernel D)}
      → k1.input ≡ line_after k.input c
      → (k1.fs ≡ k.fs) × (k1.sec ≡ k.sec) × (k1.log ≡ k.log) × (k1.editor ≡ k.editor)
      → Edited k1 cs o
      → Edited k (c ∷ cs) o
  unfolding line_of
  Edited-cons k k1 c cs e q (edited line fits f s l d) =
      edited (line ∙ ap (λ x. line_of x cs) e) fits (f ∙ q.0) (s ∙ q.1) (l ∙ q.2) (d ∙ q.3)

  the_line :
      {k : Kernel D} {c : ℕ} {o : Option (Unit {0} × Kernel D)}
      → OneKey k c o
      → (line : CString) × ((out : List Call) × ((line ≡ line_after k.input c)
            × (o ≡ some (tt, record k { input = line; out = out }))))
  the_line (one_key {line} {out} e) = (line, (out, (e, refl)))

  -- From a prompt whose line has at most 127 characters, keys other than Enter return; the line is then
  -- that of `line_of`, in which a backspace takes the last character away and any other key is appended
  -- while there is room, of at most 127 characters, and the filesystem, the accounts, the log and the
  -- editor are as before.
  pub press-Edited :
      (cs : List ℕ) (k : Kernel D)
      → k.editor.active ≡ false
      → All (λ c. c ≢ 10) cs
      → length k.input ≤ 127
      → Edited k cs (press cs k)
  unfolding press line_of
  press-Edited [] k a h fits = edited refl fits refl refl refl refl
  press-Edited (c ∷ cs) k a h fits =
      let (line, (out, (e, q))) = the_line (key-OneKey k c a h.0) in
      let k1 : Kernel D = record k { input = line; out = out } in
      rw q (
        Edited-cons k k1 c cs e (refl, refl, refl, refl)
          (press-Edited cs k1 a h.1 (ground (arith, line_after-fits k.input c fits, ap length e))))
