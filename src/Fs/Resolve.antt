-- ===== src/Fs/Resolve.antt =====
-- Splitting a path and following it: `fs_next_component` and `fs_resolve`.
pub mod Components
pub mod Follow
pub mod Existing
pub mod Names
use hypnos.Base.{
  ℕ, zero, suc, ◌+◌, Bool, true, false, Option, none, some, List, [], ◌∷◌, ◌==◌, ltb, length,
  if◌then◌else◌,
}
use hypnos.CStr.{CString, kstrncpy}
use hypnos.Fs.{Fs, FsNode, Ptr, max_name_len}
use hypnos.Fs.Monad.{FsM, pure, fault, ◌>>=◌, ◌>>◌, get}
use hypnos.Fs.Nodes.{find_in_dir}

abbrev pub slash : ℕ
slash = b'/'

-- `while (*s == '/') s++;`
unfoldable pub skip_slashes : CString → CString
skip_slashes [] = []
skip_slashes (c ∷ s) = if c == slash then skip_slashes s else c ∷ s

-- The loop that fills `out`: `i + 1 < out_sz` leaves room for as many bytes. The result is what was
-- written and where the pointer stands.
unfoldable pub take_component : CString → ℕ → CString × CString
take_component s zero = ([], s)
take_component [] (suc room) = ([], [])
take_component (c ∷ s) (suc room) =
    let (out, rest) = take_component s room in if c == slash then ([], c ∷ s) else (c ∷ out, rest)

-- What is done after the leading slashes.
component : CString → Option (CString × CString)
component [] = none
component (c ∷ s) = let (out, rest) = take_component (c ∷ s) 31 in some (out, skip_slashes rest)

-- `fs_next_component` with a buffer of 32 bytes: `none` when the path is used up, otherwise the
-- component and the rest of the path.
unfoldable pub next_component : CString → Option (CString × CString)
unfolding component skip_slashes take_component
next_component s = component (skip_slashes s)

-- What `fs_resolve` makes of a component that is not in the directory `cur`. The second result is
-- `last_name`, which has no meaning beside a null pointer.
missing : Bool → CString → CString → Ptr → FsM (Ptr × CString)
missing true comp [] cur = pure (cur, kstrncpy comp max_name_len)
missing true comp (c ∷ rest) cur = pure (none, [])
missing false comp rest cur = pure (none, [])

-- The result when the path is used up. `parent` is null when it had no component.
finish : Bool → Ptr → Ptr → FsM (Ptr × CString)
finish false parent cur = pure (cur, [])
finish true none cur = pure (cur, [])
finish true (some p) cur = pure (some p, [])

-- The loop of `fs_resolve`. Each component takes at least a byte off the path, so the length of the
-- path and one is enough fuel.
unfoldable pub resolve_from : ℕ → CString → Bool → Ptr → Ptr → FsM (Ptr × CString)
unfolding missing finish
resolve_from zero p want_parent parent cur = fault
resolve_from (suc fuel) p want_parent parent cur = elim (next_component p) [
  | none ↦ finish want_parent parent cur
  | some (comp, rest) ↦ do
    next ← find_in_dir cur comp
    elim next [
      | none ↦ missing want_parent comp rest cur
      | some i ↦ resolve_from fuel rest want_parent cur (some i)
    ]
]

start : CString → Fs → Ptr
start [] s = s.cwd
start (c ∷ path) s = if c == slash then s.root else s.cwd

-- `fs_resolve`; a null `path` is `none`.
unfoldable pub resolve : Option CString → Bool → FsM (Ptr × CString)
unfolding start
resolve none want_parent = pure (none, [])
resolve (some []) want_parent = pure (none, [])
resolve (some (c ∷ path)) want_parent = do
  s ← get
  resolve_from (length (c ∷ path) + 1) (c ∷ path) want_parent none (start (c ∷ path) s)
