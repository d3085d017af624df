-- ===== src/Fs/Dirs/Listing.antt =====
-- `fs_getcwd` and `fs_list` end on every well-formed filesystem and change nothing.
use hypnos.Base.{
  ℕ, zero, suc, ◌+◌, ◌<◌, ◌≡◌, refl, Bool, none, some, List, [], ◌∷◌, ◌++◌, arith, leb, length,
  length-append, get_elem?, get_elem?_of_lt, Bool-cases, Option-cases, inl, inr,
}
use hypnos.CStr.{CString, kstrlen}
use hypnos.CStr.Laws.{kstrlen-eq-length}
use hypnos.Fs.{Fs, FsNode, Ptr, max_path_len}
use hypnos.Fs.Dirs.{same, getcwd_from, getcwd, list_from, list, load, ◌>>=◌}
use hypnos.Fs.Resolve.{slash}
use hypnos.Fs.Shape.{Below, Chain}
use hypnos.Fs.Shape.Count.{length-Chain}
use hypnos.Fs.Valid.{Returns, returns, bind, IsNode, IsNullOrNode, IsValid}
use hypnos.Fs.Valid.Lookup.{load_ok}

Below-IsNullOrNode : (s : Fs) (p : Ptr) → Below p (length s.nodes) → IsNullOrNode s p
Below-IsNullOrNode s none h = tt
Below-IsNullOrNode s (some i) h = h

IsNode-IsNullOrNode : (s : Fs) (p : Ptr) → IsNode s p → IsNullOrNode s p
IsNode-IsNullOrNode s none h = tt
IsNode-IsNullOrNode s (some i) h = h

-- The name and the kind of each node of a list.
unfoldable pub entries : List FsNode → List ℕ → List (CString × Bool)
entries ns [] = []
entries ns (i ∷ is) = elim (get_elem? ns i) [
  | none ↦ entries ns is
  | some n ↦ (n.name, n.is_dir) ∷ entries ns is
]

entries-cons :
    (ns : List FsNode) (i : ℕ) (is : List ℕ) (n : FsNode)
    → get_elem? ns i ≡ some n
    → entries ns (i ∷ is) ≡ (n.name, n.is_dir) ∷ entries ns is
unfolding entries
entries-cons ns i is n h = rw (entries, h)

list_from-entries :
    (s : Fs) (fuel : ℕ) (p : Ptr) (is : List ℕ)
    → Chain s.nodes p is
    → length is < fuel
    → list_from fuel p s ≡ some (entries s.nodes is, s)
unfolding list_from entries
list_from-entries s zero p is c h = absurd (omega arith)
list_from-entries s (suc fuel) p [] c h = rw (c, list_from, entries)
list_from-entries s (suc fuel) p (i ∷ is) (e, (n, en, c)) h = rw (
  e,
  list_from,
  load_ok s i n en,
  list_from-entries s fuel n.sibling is c (omega arith),
  entries-cons s.nodes i is n en,
)

module _ {kids : ℕ → List ℕ} {s : Fs} (v : IsValid kids s) where
  getcwd_from-Returns :
      (fuel : ℕ) (p : Ptr) (tmp : CString)
      → 128 < fuel + length tmp
      → length tmp < 128
      → IsNullOrNode s p
      → Returns (λ r s'. s' ≡ s) (getcwd_from fuel p tmp s)
  unfolding getcwd_from
  getcwd_from-Returns zero p tmp h lt hp = absurd (omega arith)
  getcwd_from-Returns (suc fuel) none tmp h lt hp = returns refl
  getcwd_from-Returns (suc fuel) (some i) tmp h lt hp = elim (Bool-cases (same (some i) s.root)) [
    | inl e ↦ rw e (returns refl)
    | inr e ↦
        let (n, en) = get_elem?_of_lt s.nodes i hp in
        let up = Below-IsNullOrNode s n.parent (v.shape.parents i n en) in
        elim (Bool-cases (leb max_path_len (length tmp + kstrlen n.name + 1))) [
          | inl q ↦ rw (e, load_ok s i n en, q) (returns refl)
          | inr q ↦
              rw (e, load_ok s i n en, q)
                (getcwd_from-Returns fuel n.parent (slash ∷ n.name ++ tmp)
                  (omega (arith, length-append n.name tmp))
                  (ground (arith, length-append n.name tmp, kstrlen-eq-length n.name)) up)
        ]
  ]

  -- In a well-formed filesystem `fs_getcwd` ends without a fault and changes nothing.
  pub getcwd-Returns : Returns (λ r s'. s' ≡ s) (getcwd s)
  unfolding getcwd
  getcwd-Returns = elim (Bool-cases (same s.cwd s.root)) [
    | inl e ↦ rw e (returns refl)
    | inr e ↦ rw e (
        bind
          (getcwd_from-Returns 129 s.cwd [] (omega arith) (omega arith)
            (IsNode-IsNullOrNode s s.cwd v.cwd_in))
          λ r t q. returns q)
  ]

  listed :
      (p : Ptr) (d : ℕ)
      → p ≡ some d
      → d < length s.nodes
      → (load p >>= λ n. list_from (length s.nodes + 1) n.child) s
        ≡ some (entries s.nodes (kids d), s)
  listed p d e h =
      let (n, en) = get_elem?_of_lt s.nodes d h in
      let c = v.shape.chains d n en in
      rw (e, load_ok s d n en)
        (list_from-entries s (length s.nodes + 1) n.child (kids d) c
          (omega (arith, length-Chain s.nodes n.child (kids d) c)))

  -- In a well-formed filesystem `fs_list` ends without a fault, changes nothing, and calls back with
  -- the name and the kind of each child of the current directory, first to last.
  pub list-entries : (d : ℕ) → s.cwd ≡ some d → list s ≡ some (entries s.nodes (kids d), s)
  unfolding list
  list-entries d e = listed s.cwd d e (rw e at v.cwd_in)

  pub list-Returns : Returns (λ r s'. s' ≡ s) (list s)
  list-Returns = elim (Option-cases s.cwd) [
    | inl e ↦ absurd (rw e at v.cwd_in)
    | inr (d, e) ↦ rw (list-entries d e) (returns refl)
  ]
