-- ===== src/Fs/Resolve/Existing.antt =====
-- Looking for the parent of a path that leads to a node: the last name is empty.
use hypnos.Base.{
  ℕ, zero, suc, ◌+◌, ◌≡◌, refl, Bool, true, false, Option, none, some, [], ◌∷◌, length,
  Option-cases, inl, inr,
}
use hypnos.CStr.{CString}
use hypnos.Fs.{Fs, Ptr}
use hypnos.Fs.Monad.{FsM}
use hypnos.Fs.Nodes.{find_in_dir}
use hypnos.Fs.Resolve.{next_component, resolve_from, resolve, finish, missing, start}

-- The lookup gives a node.
abbrev pub Finds : Option ((Ptr × CString) × Fs) → Type 0
Finds o = (i : ℕ) × ((x : CString) × ((t : Fs) × (o ≡ some ((some i, x), t))))

-- The lookup gives no last name.
abbrev pub NoName : Option ((Ptr × CString) × Fs) → Type 0
NoName o = (q : Ptr) × ((t : Fs) × (o ≡ some ((q, []), t)))

finish-NoName : (parent cur : Ptr) (s : Fs) → NoName (finish true parent cur s)
unfolding finish
finish-NoName none cur s = (cur, (s, refl))
finish-NoName (some p) cur s = (some p, (s, refl))

abbrev next_step : ℕ → Bool → CString → CString → Ptr → Ptr → FsM (Ptr × CString)
next_step fuel want comp rest cur none = missing want comp rest cur
next_step fuel want comp rest cur (some i) = resolve_from fuel rest want cur (some i)

resolve_from-NoName :
    (fuel : ℕ) (p : CString) (parent cur : Ptr) (s : Fs)
    → Finds (resolve_from fuel p false parent cur s)
    → NoName (resolve_from fuel p true parent cur s)
unfolding resolve_from missing
resolve_from-NoName zero p parent cur s (i, (x, (t, e))) = absurd (cc e)
resolve_from-NoName (suc fuel) p parent cur s h = elim (Option-cases (next_component p)) [
  | inl e ↦ rw (e, resolve_from) (finish-NoName parent cur s)
  | inr ((comp, rest), e) ↦
      let h1 = rw (e, resolve_from) at h in
      elim (Option-cases (find_in_dir cur comp s)) [
        | inl f ↦ let (i, (x, (t, g))) = rw f at h1 in absurd (cc g)
        | inr ((none, t), f) ↦ let (i, (x, (t', g))) = rw f at h1 in absurd (cc g)
        | inr ((some i, t), f) ↦
            rw (e, resolve_from, f) (resolve_from-NoName fuel rest cur (some i) t (rw f at h1))
      ]
]

-- When a path leads to a node, the lookup of its parent gives an empty last name.
pub resolve-NoName :
    (path : Option CString) (s : Fs) → Finds (resolve path false s) → NoName (resolve path true s)
unfolding resolve
resolve-NoName none s h = (none, (s, refl))
resolve-NoName (some []) s h = (none, (s, refl))
resolve-NoName (some (c ∷ path)) s h =
    resolve_from-NoName (length (c ∷ path) + 1) (c ∷ path) none (start (c ∷ path) s) s h
