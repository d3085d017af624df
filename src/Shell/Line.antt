-- ===== src/Shell/Line.antt =====
-- The keys of the shell: the line that is typed, and what Enter does with it.
pub mod Editing
use hypnos.Base.{
  ℕ, ◌+◌, ◌-◌, Bool, true, false, List, [], ◌∷◌, ◌++◌, ◌==◌, ltb, if◌then◌else◌, length, codes,
}
use hypnos.CStr.{CString}
use hypnos.Editor.{but_last, editor_handle_key, editor_is_active}
use hypnos.Kernel.{Kernel, KernelM, Call, pure, ◌>>=◌, ◌>>◌, gets, modify, call, note, say, print}
use hypnos.Shell.Bar.{shell_print_prompt}
use hypnos.Shell.Execute.{shell_execute}

-- SHELL_INPUT_MAX
abbrev pub shell_input_max : ℕ
shell_input_max = 128

module _ {D : Type 0} where
  -- The prompt, unless the editor is active.
  unfoldable pub prompt_unless_editing : KernelM D (Unit {0})
  prompt_unless_editing = do
    k ← gets (λ k. k)
    if editor_is_active k then pure tt else shell_print_prompt

  -- The branch for the active editor.
  unfoldable pub editor_key : ℕ → KernelM D (Unit {0})
  unfolding prompt_unless_editing
  editor_key c = do editor_handle_key c; prompt_unless_editing

  -- The branch of a backspace.
  unfoldable pub erase_char : KernelM D (Unit {0})
  unfolding call but_last
  erase_char = do
    k ← gets (λ k. k)
    if ltb 0 (length k.input)
        then (do modify (λ k. record k { input = but_last k.input }); say (8 ∷ []))
        else pure tt

  -- The branch of Enter.
  unfoldable pub enter : KernelM D (Unit {0})
  unfolding prompt_unless_editing call
  enter = do
    print "\n"
    k ← gets (λ k. k)
    shell_execute k.input
    modify (λ k. record k { input = [] })
    prompt_unless_editing

  -- The branch of any other character.
  unfoldable pub type_char : ℕ → KernelM D (Unit {0})
  unfolding call
  type_char c = do
    k ← gets (λ k. k)
    if ltb (length k.input) (shell_input_max - 1)
        then (do modify (λ k. record k { input = k.input ++ (c ∷ []) }); say (c ∷ []))
        else pure tt

  -- The keys of `shell_keypress` while the editor is not active.
  unfoldable pub line_key : ℕ → KernelM D (Unit {0})
  unfolding erase_char enter type_char
  line_key c = if c == 8 then erase_char else if c == b'\n' then enter else type_char c

  -- `shell_keypress`
  unfoldable pub shell_keypress : ℕ → KernelM D (Unit {0})
  unfolding editor_key line_key
  shell_keypress c = do k ← gets (λ k. k); if editor_is_active k then editor_key c else line_key c

  -- `shell_init`
  unfoldable pub shell_init : KernelM D (Unit {0})
  shell_init = do modify (λ k. record k { input = [] }); note (codes "[SHELL] shell_init")

  -- `shell_run` up to its loop, which only halts and yields.
  unfoldable pub shell_run : KernelM D (Unit {0})
  unfolding shell_print_prompt
  shell_run = do note (codes "[SHELL] shell_run loop starting."); shell_print_prompt
