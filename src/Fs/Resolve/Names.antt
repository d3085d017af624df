-- ===== src/Fs/Resolve/Names.antt =====
-- A path that is a single name.
use hypnos.Base.{
  ℕ, zero, suc, ◌+◌, ◌<◌, ◌≡◌, ◌≢◌, refl, false, none, some, List, [], ◌∷◌, All, arith, length,
  ◌==◌, ap, ◌∙◌,
}
use hypnos.CStr.{CString}
use hypnos.Fs.{Fs}
use hypnos.Fs.Shape.{find_child}
use hypnos.Fs.Resolve.{
  slash, skip_slashes, take_component, component, next_component, resolve_from, resolve, finish,
  start,
}
use hypnos.Fs.Valid.{IsValid}
use hypnos.Fs.Valid.Lookup.{find_in_dir_lem}

-- A name that a path can consist of: not empty, at most 31 bytes, no slash.
pub record IsName (name : CString) : Type 0 where
  pub not_empty : 0 < length name
  pub fits : length name < 32
  pub no_slash : All (λ c. c ≢ slash) name

take_component-whole :
    (name : CString) (room : ℕ)
    → length name < room + 1
    → All (λ c. c ≢ slash) name
    → take_component name room ≡ (name, [])
unfolding take_component
take_component-whole [] zero h a = refl
take_component-whole (c ∷ name) zero h a = absurd (omega arith)
take_component-whole [] (suc room) h a = refl
take_component-whole (c ∷ name) (suc room) h a =
    ground (arith, take_component-whole name room (omega arith) a.1, a.0)

next_component_name : (name : CString) → IsName name → next_component name ≡ some (name, [])
unfolding next_component skip_slashes component
next_component_name [] h = absurd (omega (arith, h.not_empty))
next_component_name (c ∷ name) h =
    let e : (c == slash) ≡ false = ground (arith, h.no_slash.0) in
    rw
      (
        e,
        skip_slashes,
        component,
        take_component-whole (c ∷ name) 31 (omega (arith, h.fits)) h.no_slash,
      )
      refl

module _ {kids : ℕ → List ℕ} {s : Fs} (v : IsValid kids s) (d i : ℕ) (cwd : s.cwd ≡ some d)
    (lt : d < length s.nodes) where
  follow-name :
      (fuel : ℕ) (name : CString)
      → IsName name
      → find_child s.nodes (kids d) name ≡ some i
      → resolve_from (suc (suc fuel)) name false none (some d) s ≡ some ((some i, []), s)
  unfolding resolve_from next_component component skip_slashes finish
  follow-name fuel name h found =
      rw (resolve_from, next_component_name name h, find_in_dir_lem v d name lt, found) refl

  -- A name leads to the node that has it in the current directory.
  pub resolve-name :
      (name : CString)
      → IsName name
      → find_child s.nodes (kids d) name ≡ some i
      → resolve (some name) false s ≡ some ((some i, []), s)
  unfolding resolve start
  resolve-name [] h found = absurd (omega (arith, h.not_empty))
  resolve-name (c ∷ name) h found =
      let e : (c == slash) ≡ false = ground (arith, h.no_slash.0) in
      let more : length (c ∷ name) + 1 ≡ suc (suc (length name)) = omega arith in
      let at : start (c ∷ name) s ≡ some d = rw (e, start) cwd in
      ap (λ p. resolve_from (length (c ∷ name) + 1) (c ∷ name) false none p s) at
      ∙ (ap (λ f. resolve_from f (c ∷ name) false none (some d) s) more
          ∙ follow-name (length name) (c ∷ name) h found)
