-- ===== src/Fs/Files/Existing.antt =====
-- `fs_write` of a path that leads to a node that exists.
use mathlib.Core.Path.{subst}
use hypnos.Base.{
  ap, sym, ◌∙◌, eq_of_some, ℕ, ◌≡◌, refl, true, false, ◌||◌, Option, none, some, List, [],
  Bool-cases, inl, inr, get_elem?_of_lt,
}
use hypnos.CStr.{CString}
use hypnos.Fs.{Fs, Ptr, err}
use hypnos.Fs.Files.{is_null, usable, write}
use hypnos.Fs.Resolve.{resolve}
use hypnos.Fs.Resolve.Existing.{Finds, resolve-NoName}
use hypnos.Fs.Resolve.Follow.{resolve-Found}
use hypnos.Fs.Valid.{outcome, IsValid, IsNullOrNode}
use hypnos.Fs.Valid.Lookup.{load_ok}

module _ {kids : ℕ → List ℕ} {s : Fs} (v : IsValid kids s) where
  unusable : (q : Ptr) → IsNullOrNode s q → usable q [] s ≡ some (false, s)
  unfolding usable
  unusable none h = refl
  unusable (some i) h = let (n, e) = get_elem?_of_lt s.nodes i h in rw (load_ok s i n e) refl

  -- On a well-formed filesystem, writing to a path that leads to a node, be it a file or a directory,
  -- returns -1 and changes nothing.
  pub write_existing :
      (path bytes : Option CString)
      → Finds (resolve path false s)
      → write path bytes s ≡ some (err, s)
  unfolding write
  write_existing path bytes h = elim (Bool-cases (is_null path || is_null bytes)) [
    | inl e ↦ rw e refl
    | inr e ↦
        let (q, (t, f)) = resolve-NoName path s h in
        let (r, (t', (g, found))) = outcome (resolve-Found v path true) in
        let both : ((q, []), t) ≡ (r, t') = eq_of_some (sym f ∙ g) in
        let here : t ≡ s = ap (λ x. x.1) both ∙ found.0 in
        let exists : IsNullOrNode s q =
          subst (λ p. IsNullOrNode s p) (sym (ap (λ x. x.0.0) both)) found.1 in
        rw (e, f, here, unusable q exists) refl
  ]
