-- ===== src/Editor.antt =====
-- kernel/shell/editor.c: the editor. Its keys are the bytes from the keyboard.
pub mod Keys
use hypnos.Base.{
  ℕ, ◌+◌, ◌-◌, Bool, true, false, ◌&&◌, Option, none, some, List, [], ◌∷◌, ◌++◌, ◌==◌, ltb, leb,
  if◌then◌else◌, length, take, replicate, codes, not, String,
}
use hypnos.CStr.{CString}
use hypnos.Fs.{Status, ok, err}
use hypnos.Fs.Files.{touch, write_cwd}
use hypnos.Kernel.{
  Kernel, KernelM, Editor, Call, clear_screen, set_color, draw_bar, pure, ◌>>=◌, ◌>>◌, gets, modify,
  on_fs, call, say, print,
}

-- EDITOR_BUF_SIZE
abbrev pub editor_buf_size : ℕ
editor_buf_size = 4096

-- EDITOR_NAME_MAX
abbrev pub editor_name_max : ℕ
editor_name_max = 32

-- One of the loops that fill a line of the status row, at most 79 bytes.
unfoldable pub fit : CString → CString → CString
fit line s = line ++ take (79 - length line) s

-- The loop that pads the line.
unfoldable pub pad : CString → CString
pad line = line ++ replicate (79 - length line) b' '

-- All bytes of a buffer but the last, and the buffer without its last byte.
unfoldable pub but_last : CString → CString
but_last s = take (length s - 1) s

module _ {D : Type 0} where
  -- `editor_draw_status`
  unfoldable pub editor_draw_status : KernelM D (Unit {0})
  unfolding fit pad call
  editor_draw_status = do
    k ← gets (λ k. k)
    call (draw_bar (pad (fit (fit [] (codes "[ESC] save & exit | editing: ")) k.editor.name)))

  saved : String → String → Status → KernelM D (Unit {0})
  saved good bad ok = print good
  saved good bad err = print bad

  -- `editor_save_file`
  unfoldable pub editor_save_file : KernelM D (Unit {0})
  unfolding saved
  editor_save_file = do
    k ← gets (λ k. k)
    if length k.editor.buf == 0
        then (do
          r ← on_fs (touch (some k.editor.name))
          saved "\n[editor] Saved (empty file).\n" "\n[editor] Error saving empty file.\n" r)
        else (do
          r ← on_fs (write_cwd (some k.editor.name) (some k.editor.buf))
          saved "\n[editor] Saved.\n" "\n[editor] Error saving file.\n" r)

  -- `editor_start` of a name that is not null.
  unfoldable pub editor_start : CString → KernelM D (Unit {0})
  unfolding editor_draw_status call
  editor_start [] = pure tt
  editor_start (c ∷ filename) = do
    let name = take (editor_name_max - 1) (c ∷ filename)
    modify (λ k. record k { editor = record { buf = []; name = name; active = true } })
    call clear_screen
    call (set_color 11 0)
    print "Hypnos editor - editing: "
    say name
    print "\n\n"
    call (set_color 7 0)
    editor_draw_status

  -- `editor_buf[editor_len++] = c`, with the echo of the byte.
  unfoldable pub type_byte : ℕ → KernelM D (Unit {0})
  unfolding call
  type_byte c = do
    k ← gets (λ k. k)
    if ltb (length k.editor.buf) (editor_buf_size - 1)
        then (do
          modify (λ k. record k { editor = record k.editor { buf = k.editor.buf ++ (c ∷ []) } })
          say (c ∷ []))
        else pure tt

  -- The branch of a backspace.
  unfoldable pub erase_byte : KernelM D (Unit {0})
  unfolding call but_last
  erase_byte = do
    k ← gets (λ k. k)
    if ltb 0 (length k.editor.buf)
        then (do
          modify (λ k. record k { editor = record k.editor { buf = but_last k.editor.buf } })
          say (8 ∷ []))
        else pure tt

  -- The keys of `editor_handle_key` while the editor is active.
  unfoldable pub edit_key : ℕ → KernelM D (Unit {0})
  unfolding editor_save_file type_byte erase_byte
  edit_key c =
      if c == 27
      then (do
        editor_save_file
        modify (λ k. record k { editor = record k.editor { active = false } }))
      else if c == 8
      then erase_byte
      else if c == b'\n'
      then type_byte b'\n'
      else if leb b' ' c && leb c b'~'
      then type_byte c
      else pure tt

  -- `editor_handle_key`
  unfoldable pub editor_handle_key : ℕ → KernelM D (Unit {0})
  editor_handle_key c = do k ← gets (λ k. k); if k.editor.active then edit_key c else pure tt

  -- `editor_is_active`
  unfoldable pub editor_is_active : Kernel D → Bool
  editor_is_active k = k.editor.active
