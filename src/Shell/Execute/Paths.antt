-- ===== src/Shell/Execute/Paths.antt =====
-- The directory above the current one, as `cmd_cd` finds it from the text of the path.
use hypnos.Base.{[], ◌∷◌, ◌==◌, if◌then◌else◌}
use mathlib.Core.List.{reverse}
use hypnos.CStr.{CString}
use hypnos.Fs.Resolve.{slash}

-- `if (i > 1 && buf[i - 1] == '/')` and its body, on the reversed path.
strip_slash : CString → CString
strip_slash [] = []
strip_slash (c ∷ []) = c ∷ []
strip_slash (c ∷ d ∷ back) = if c == slash then d ∷ back else c ∷ d ∷ back

-- The loop that removes the last segment, on the reversed path.
strip_segment : CString → CString
strip_segment [] = []
strip_segment (c ∷ back) = let rest = strip_segment back in if c == slash then c ∷ back else rest

or_slash : CString → CString
or_slash [] = slash ∷ []
or_slash (c ∷ s) = c ∷ s

-- The part of `cmd_cd` for a path that is not the root's.
unfoldable pub above : CString → CString
unfolding strip_slash strip_segment or_slash
above cwd = or_slash (reverse (strip_segment (strip_slash (reverse cwd))))

-- `buf` when it is handed to `fs_chdir`.
unfoldable pub path_above : CString → CString
unfolding above
path_above [] = above []
path_above (c ∷ []) = if c == slash then c ∷ [] else above (c ∷ [])
path_above (c ∷ d ∷ cwd) = above (c ∷ d ∷ cwd)
