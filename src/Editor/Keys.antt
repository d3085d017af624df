-- ===== src/Editor/Keys.antt =====
-- What is typed into the editor, and what ESC saves.
use hypnos.Base.{
  ℕ, ◌+◌, ◌≤◌, ◌<◌, ◌≡◌, refl, ap, sym, ◌∙◌, Bool, true, false, ◌&&◌, ◌||◌, Option, some, List, [],
  ◌∷◌, ◌++◌, append_assoc, append-nil, arith, ◌==◌, leb, ltb, length, length-append, All,
  Bool-cases, inl, inr, ==_iff, String, codes,
}
use hypnos.CStr.{CString}
use hypnos.Fs.{Status, ok, err, Fs}
use hypnos.Fs.Files.{write_cwd}
use hypnos.Fs.Files.Contents.{write_cwd-Keeps}
use hypnos.Fs.Valid.{outcome}
use hypnos.Fs.Valid.{Grown, IsValid}
use hypnos.Kernel.{
  chosen, otherwise, ◌>>=◌, on_fs, and_then, with_fs, modify, Kernel, KernelM, pure, ◌>>◌, call,
}
use hypnos.Editor.{editor_handle_key, edit_key, type_byte, saved, Call, editor_save_file}

-- A newline or a printable character.
abbrev pub is_text : ℕ → Bool
is_text c = (c == 10) || (leb 32 c && leb c 126)

module _ {D : Type 0} where
  -- Keys pressed one after the other.
  unfoldable pub press : List ℕ → KernelM D (Unit {0})
  press [] = pure tt
  press (c ∷ cs) = do editor_handle_key c; press cs

  handle_active :
      (c : ℕ) (k : Kernel D) → k.editor.active ≡ true → editor_handle_key c k ≡ edit_key c k
  unfolding editor_handle_key
  handle_active c k a = chosen k.editor.active (edit_key c) (pure tt) k a

  edit_key-text : (c : ℕ) (k : Kernel D) → is_text c ≡ true → edit_key c k ≡ type_byte c k
  unfolding edit_key
  edit_key-text c k h = elim (Bool-cases (c == 10)) [
    | inl e ↦ let same : c ≡ 10 = (==_iff c 10).0 e in rw same refl
    | inr e ↦
        let a : (c == 27) ≡ false = ground arith in
        let b : (c == 8) ≡ false = ground arith in
        let d : (leb 32 c && leb c 126) ≡ true = ground arith in rw (a, b, e, d) refl
  ]

  -- The text stands behind what the buffer held, and no other part of the kernel but the screen changed.
  pub data Typed (k : Kernel D) (text : CString) : Option (Unit {0} × Kernel D) → Type 0 where
    typed :
        {after : Kernel D}
        → after.editor ≡ record k.editor { buf = k.editor.buf ++ text }
        → after.fs ≡ k.fs
        → Typed k text (some (tt, after))

  with_buf : Kernel D → CString → CString → Kernel D
  with_buf k buf echo = record k {
    editor = record k.editor { buf = buf };
    out = Call.write_text echo ∷ k.out;
  }

  type_byte-room :
      (c : ℕ) (k : Kernel D)
      → length k.editor.buf < 4095
      → type_byte c k ≡ some (tt, with_buf k (k.editor.buf ++ (c ∷ [])) (c ∷ []))
  unfolding type_byte call with_buf
  type_byte-room c k h = let t : ltb (length k.editor.buf) 4095 ≡ true = ground arith in rw t refl

  Typed-cons :
      (k : Kernel D) (c : ℕ) (text : CString) {o : Option (Unit {0} × Kernel D)}
      → Typed (with_buf k (k.editor.buf ++ (c ∷ [])) (c ∷ [])) text o
      → Typed k (c ∷ text) o
  unfolding with_buf
  Typed-cons k c text (typed e f) =
      typed (e ∙ ap (λ b. record k.editor { buf = b }) (append_assoc k.editor.buf (c ∷ []) text)) f

  -- While the editor is active, text that fits into its buffer of 4095 bytes is appended to it.
  press-Typed :
      (text : CString) (k : Kernel D)
      → k.editor.active ≡ true
      → All (λ c. is_text c ≡ true) text
      → length k.editor.buf + length text ≤ 4095
      → Typed k text (press text k)
  unfolding press with_buf
  press-Typed [] k a h r =
      typed (ap (λ b. record k.editor { buf = b }) (sym (append-nil k.editor.buf))) refl
  press-Typed (c ∷ text) k a h r =
      let k1 = with_buf k (k.editor.buf ++ (c ∷ [])) (c ∷ []) in
      rw (handle_active c k a, edit_key-text c k h.0, type_byte-room c k (omega arith))
        (Typed-cons k c text
          (press-Typed text k1 a h.1 (omega (arith, length-append k.editor.buf (c ∷ [])))))

  -- The file is written with the text, as `fs_write_cwd` writes it, and the editor is left.
  pub data SavedText (k : Kernel D) (text : CString) : Option (Unit {0} × Kernel D) → Type 0 where
    saved_text :
        {after : Kernel D} {r : Status}
        → write_cwd (some k.editor.name) (some text) k.fs ≡ some (r, after.fs)
        → Grown k.fs after.fs
        → after.editor.active ≡ false
        → SavedText k text (some (tt, after))

  said :
      (good bad : String) (r : Status) (k : Kernel D) → (c : Call) × (saved good bad r k ≡ call c k)
  unfolding saved
  said good bad ok k = (Call.write_text (codes good), refl)
  said good bad err k = (Call.write_text (codes bad), refl)

  abbrev report_save : Status → KernelM D (Unit {0})
  report_save r = saved "\n[editor] Saved.\n" "\n[editor] Error saving file.\n" r

  save_written :
      (k : Kernel D)
      → (length k.editor.buf == 0) ≡ false
      → editor_save_file k
        ≡ and_then (with_fs (write_cwd (some k.editor.name) (some k.editor.buf) k.fs) k) report_save
  unfolding editor_save_file
  save_written k h =
      otherwise (length k.editor.buf == 0) _
        (on_fs (write_cwd (some k.editor.name) (some k.editor.buf)) >>= report_save) k h

  finish :
      (k : Kernel D) (text : CString) (r : Status) (s : Fs)
      → write_cwd (some k.editor.name) (some text) k.fs ≡ some (r, s)
      → Grown k.fs s
      → (o : Option (Status × Fs)) → o ≡ some (r, s)
      → SavedText k text (
          and_then
            (and_then (with_fs o k) report_save)
            λ u. modify (λ k'. record k' { editor = record k'.editor { active = false } }))
  unfolding call
  finish k text r s w g o e =
      let (c, f) =
        said "\n[editor] Saved.\n" "\n[editor] Error saving file.\n" r (record k { fs = s }) in
      rw (e, f) (saved_text w g refl)

  escape-SavedText :
      {kids : ℕ → List ℕ} (k : Kernel D)
      → IsValid kids k.fs
      → k.editor.active ≡ true
      → (length k.editor.buf == 0) ≡ false
      → SavedText k k.editor.buf (editor_handle_key 27 k)
  unfolding edit_key
  escape-SavedText k v a h =
      let (r, (s, (w, g))) = outcome (write_cwd-Keeps v (some k.editor.name) (some k.editor.buf)) in
      rw (handle_active 27 k a, save_written k h)
        (finish k k.editor.buf r s w g (write_cwd (some k.editor.name) (some k.editor.buf) k.fs) w)

  SavedText-back :
      (k k1 : Kernel D) (text : CString) {o : Option (Unit {0} × Kernel D)}
      → k1.editor ≡ record k.editor { buf = text }
      → k1.fs ≡ k.fs
      → SavedText k1 k1.editor.buf o
      → SavedText k text o
  SavedText-back k k1 text e f (saved_text {r} w g a) =
      let n : k1.editor.name ≡ k.editor.name = ap (λ x. x.name) e in
      let t : k1.editor.buf ≡ text = ap (λ x. x.buf) e in
      saved_text {r = r} (rw (n, t, f) at w) (rw f at g) a

  then_escape :
      {kids : ℕ → List ℕ} (text : CString) (k : Kernel D) {o : Option (Unit {0} × Kernel D)}
      → IsValid kids k.fs
      → k.editor.active ≡ true
      → k.editor.buf ≡ []
      → 0 < length text
      → Typed k text o
      → SavedText k text (and_then o λ u. editor_handle_key 27)
  then_escape {kids} text k v a b pos (typed {after} e f) =
      let whole : k.editor.buf ++ text ≡ text = ap (λ x. x ++ text) b in
      let e' : after.editor ≡ record k.editor { buf = text } =
        e ∙ ap (λ x. record k.editor { buf = x }) whole in
      let full : after.editor.buf ≡ text = ap (λ x. x.buf) e' in
      let still : after.editor.active ≡ true = ap (λ x. x.active) e' ∙ a in
      SavedText-back k after text e' f
        (escape-SavedText {kids = kids} after (rw f v) still (ground (arith, ap length full)))

  -- Text of 1 to 4095 bytes, each a newline or a printable character, that is typed into the empty
  -- buffer of the active editor on a well-formed filesystem, and then ESC, return, write exactly this
  -- text to the edited file as `fs_write_cwd` does, keep the filesystem well formed, and leave the editor.
  pub press-SavedText :
      {kids : ℕ → List ℕ} (text : CString) (k : Kernel D)
      → IsValid kids k.fs
      → k.editor.active ≡ true
      → k.editor.buf ≡ []
      → All (λ c. is_text c ≡ true) text
      → 0 < length text
      → length text ≤ 4095
      → SavedText k text ((press text >> editor_handle_key 27) k)
  press-SavedText text k v a b h pos fit =
      then_escape text k v a b pos (press-Typed text k a h (omega (arith, ap length b)))
