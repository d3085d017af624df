-- ===== src/Fs/Resolve/Follow.antt =====
-- Following a path in a well-formed filesystem.
use hypnos.Base.{
  ℕ, zero, suc, ◌+◌, ◌<◌, ◌≡◌, refl, Bool, true, false, Option, none, some, List, [], ◌∷◌, arith,
  ◌==◌, length, Bool-cases, Option-cases, inl, inr,
}
use hypnos.CStr.{CString}
use hypnos.Fs.{Fs, Ptr}
use hypnos.Fs.Resolve.{finish, missing, start, next_component, resolve_from, resolve, slash}
use hypnos.Fs.Resolve.Components.{next_component-IsComponent}
use hypnos.Fs.Valid.{Returns, returns, bind, IsNode, IsNullOrNode, IsValid}
use hypnos.Fs.Valid.Lookup.{find_in_dir-Returns}

-- What a lookup promises: the state is as before, and the pointer is null or can be followed.
abbrev pub Found : Fs → Ptr × CString → Fs → Type 0
Found s r s' = (s' ≡ s) × IsNullOrNode s r.0

module _ {s : Fs} where
  finish-Found :
      (want : Bool) (parent cur : Ptr)
      → IsNullOrNode s parent
      → IsNullOrNode s cur
      → Returns (Found s) (finish want parent cur s)
  unfolding finish
  finish-Found false parent cur hp hc = returns (refl, hc)
  finish-Found true none cur hp hc = returns (refl, hc)
  finish-Found true (some p) cur hp hc = returns (refl, hp)

  missing-Found :
      (want : Bool) (comp rest : CString) (cur : Ptr)
      → IsNullOrNode s cur
      → Returns (Found s) (missing want comp rest cur s)
  unfolding missing
  missing-Found true comp [] cur hc = returns (refl, hc)
  missing-Found true comp (c ∷ rest) cur hc = returns (refl, tt)
  missing-Found false comp rest cur hc = returns (refl, tt)

module _ {kids : ℕ → List ℕ} {s : Fs} (v : IsValid kids s) where
  resolve_from-Found :
      (fuel : ℕ) (p : CString) (want : Bool) (parent : Ptr) (cur : ℕ)
      → length p < fuel
      → IsNullOrNode s parent
      → cur < length s.nodes
      → Returns (Found s) (resolve_from fuel p want parent (some cur) s)
  unfolding resolve_from
  resolve_from-Found zero p want parent cur f hp hc = absurd (omega arith)
  resolve_from-Found (suc fuel) p want parent cur f hp hc = elim (Option-cases (next_component p)) [
    | inl e ↦ rw (e, resolve_from) (finish-Found want parent (some cur) hp hc)
    | inr ((comp, rest), e) ↦
        let short = (next_component-IsComponent p comp rest e).shorter in
        let again = λ (i : ℕ) (hi : i < length s.nodes).
          resolve_from-Found fuel rest want (some cur) i (omega arith) hc hi in
        rw (e, resolve_from)
          (bind (find_in_dir-Returns v cur comp hc) (elim [
            | none ↦ λ s' q. rw q.0 (missing-Found want comp rest (some cur) hc)
            | some i ↦ λ s' q. rw q.0 (again i q.1)
          ]))
  ]

  start-IsNode : (path : CString) → IsNode s (start path s)
  unfolding start
  start-IsNode [] = v.cwd_in
  start-IsNode (c ∷ path) = elim (Bool-cases (c == slash)) [
    | inl e ↦ rw e v.root_in
    | inr e ↦ rw e v.cwd_in
  ]

  resolve_from_start :
      (p : CString) (want : Bool) (cur : Ptr)
      → IsNode s cur
      → Returns (Found s) (resolve_from (length p + 1) p want none cur s)
  resolve_from_start p want none h = absurd h
  resolve_from_start p want (some i) h =
      resolve_from-Found (length p + 1) p want none i (omega arith) tt h

  -- In a well-formed filesystem every path is followed to its end without a fault, changing nothing,
  -- and what is found is null or a node that exists.
  pub resolve-Found :
      (path : Option CString) (want : Bool) → Returns (Found s) (resolve path want s)
  unfolding resolve
  resolve-Found none want = returns (refl, tt)
  resolve-Found (some []) want = returns (refl, tt)
  resolve-Found (some (c ∷ path)) want =
      resolve_from_start (c ∷ path) want (start (c ∷ path) s) (start-IsNode (c ∷ path))
