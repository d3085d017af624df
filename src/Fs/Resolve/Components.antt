-- ===== src/Fs/Resolve/Components.antt =====
-- What `fs_next_component` cuts off a path.
use hypnos.Base.{
  eq_of_some, length-append, ℕ, zero, suc, ◌<◌, ◌≤◌, ◌≡◌, ◌≢◌, refl, ap, sym, some, [], ◌∷◌, ◌++◌,
  arith, ◌==◌, length, All, Bool-cases, inl, inr,
}
use hypnos.CStr.{CString}
use hypnos.Fs.Resolve.{slash, skip_slashes, take_component, component, next_component}

-- A component: not empty, short enough for a buffer of 32 bytes, and without a slash.
pub record IsComponent (path : CString) (comp rest : CString) : Type 0 where
  pub not_empty : 0 < length comp
  pub fits : length comp < 32
  pub no_slash : All (λ c. c ≢ slash) comp
  pub shorter : length rest < length path

length-skip_slashes : (s : CString) → length (skip_slashes s) ≤ length s
unfolding skip_slashes
length-skip_slashes [] = omega arith
length-skip_slashes (c ∷ s) = ground (arith, length-skip_slashes s)

skip_slashes-head : (s : CString) (c : ℕ) (t : CString) → skip_slashes s ≡ c ∷ t → c ≢ slash
unfolding skip_slashes
skip_slashes-head [] c t h = absurd (cc)
skip_slashes-head (b ∷ s) c t h = elim (Bool-cases (b == slash)) [
  | inl e ↦ skip_slashes-head s c t (rw (e, skip_slashes) at h)
  | inr e ↦ let h' : b ∷ s ≡ c ∷ t = rw (e, skip_slashes) at h in ground arith
]

take_component-append :
    (s : CString) (room : ℕ) → (take_component s room).0 ++ (take_component s room).1 ≡ s
unfolding take_component
take_component-append s zero = refl
take_component-append [] (suc room) = refl
take_component-append (c ∷ s) (suc room) = ground (arith, take_component-append s room)

length-take_component : (s : CString) (room : ℕ) → length (take_component s room).0 ≤ room
unfolding take_component
length-take_component s zero = omega arith
length-take_component [] (suc room) = omega arith
length-take_component (c ∷ s) (suc room) = ground (arith, length-take_component s room)

take_component-no_slash : (s : CString) (room : ℕ) → All (λ c. c ≢ slash) (take_component s room).0
unfolding take_component
take_component-no_slash s zero = tt
take_component-no_slash [] (suc room) = tt
take_component-no_slash (c ∷ s) (suc room) = elim (Bool-cases (c == slash)) [
  | inl e ↦ rw e tt
  | inr e ↦ rw e (ground arith, take_component-no_slash s room)
]

starts :
    (c : ℕ) (s : CString) (room : ℕ) → c ≢ slash → 0 < length (take_component (c ∷ s) (suc room)).0
unfolding take_component
starts c s room ne = ground arith

component-IsComponent :
    (t comp rest : CString)
    → ((c : ℕ) (u : CString) → t ≡ c ∷ u → c ≢ slash)
    → component t ≡ some (comp, rest)
    → IsComponent t comp rest
unfolding component
component-IsComponent [] comp rest head h = absurd (cc)
component-IsComponent (c ∷ s) comp rest head h =
    let out = (take_component (c ∷ s) 31).0 in
    let back = (take_component (c ∷ s) 31).1 in
    let same : (out, skip_slashes back) ≡ (comp, rest) = eq_of_some h in
    let e : comp ≡ out = sym (ap (λ p. p.0) same) in
    let f : rest ≡ skip_slashes back = sym (ap (λ p. p.1) same) in
    let pos : 0 < length out = starts c s 30 (head c s refl) in
    let whole = ap length (take_component-append (c ∷ s) 31) in
    record {
      not_empty = rw e pos;
      fits = rw e (omega (arith, length-take_component (c ∷ s) 31));
      no_slash = rw e (take_component-no_slash (c ∷ s) 31);
      shorter = rw f (omega (arith, whole, length-append out back, pos, length-skip_slashes back));
    }

-- A component that is cut off a path is not empty, has at most 31 bytes and no slash, and the rest of
-- the path is shorter than the path.
pub next_component-IsComponent :
    (path comp rest : CString)
    → next_component path ≡ some (comp, rest)
    → IsComponent path comp rest
unfolding next_component
next_component-IsComponent path comp rest h =
    let c = component-IsComponent (skip_slashes path) comp rest (skip_slashes-head path) h in
    record {
      not_empty = c.not_empty;
      fits = c.fits;
      no_slash = c.no_slash;
      shorter = omega (arith, c.shorter, length-skip_slashes path);
    }
