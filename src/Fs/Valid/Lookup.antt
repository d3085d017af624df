-- ===== src/Fs/Valid/Lookup.antt =====
-- Lookups in a well-formed filesystem end without a fault and change nothing.
use hypnos.Base.{
  ℕ, zero, suc, ◌+◌, ◌<◌, ◌≡◌, refl, true, none, some, List, [], ◌∷◌, arith, length, get_elem?,
  get_elem?_of_lt, lt_of_get_elem?, Bool-cases, inl, inr, if◌then◌else◌,
}
use hypnos.Base.Int.{is_zero}
use hypnos.CStr.{CString, kstrcmp}
use hypnos.Fs.{Fs, FsNode, Ptr}
use hypnos.Fs.Monad.{load}
use hypnos.Fs.Nodes.{find_from, find_in_dir}
use hypnos.Fs.Shape.{has, Chain, find_child}
use hypnos.Fs.Shape.Count.{length-Chain}
use hypnos.Fs.Valid.{Returns, returns, IsNullOrNode, IsValid}

pub load_ok :
    (s : Fs) (i : ℕ) (n : FsNode) → get_elem? s.nodes i ≡ some n → load (some i) s ≡ some (n, s)
unfolding load
load_ok s i n h = rw h

find_child_nil : (ns : List FsNode) (name : CString) → find_child ns [] name ≡ none
unfolding find_child
find_child_nil ns name = refl

pub find_child_cons :
    (ns : List FsNode) (i : ℕ) (is : List ℕ) (name : CString) (n : FsNode)
    → get_elem? ns i ≡ some n
    → find_child ns (i ∷ is) name
      ≡ (if is_zero (kstrcmp n.name name) then some i else find_child ns is name)
unfolding find_child
find_child_cons ns i is name n h = rw (h, find_child)

find_from-find_child :
    (s : Fs) (fuel : ℕ) (p : Ptr) (is : List ℕ) (name : CString)
    → Chain s.nodes p is
    → length is < fuel
    → find_from fuel p name s ≡ some (find_child s.nodes is name, s)
unfolding find_from
find_from-find_child s zero p is name c h = absurd (omega arith)
find_from-find_child s (suc fuel) p [] name c h = rw (c, find_from, find_child_nil s.nodes name)
find_from-find_child s (suc fuel) p (i ∷ is) name (e, (n, en, c)) h =
    elim (Bool-cases (is_zero (kstrcmp n.name name))) [
      | inl q ↦ rw (e, find_from, load_ok s i n en, q, find_child_cons s.nodes i is name n en, q)
      | inr q ↦
          rw (e, find_from, load_ok s i n en, q, find_child_cons s.nodes i is name n en, q)
            (find_from-find_child s fuel n.sibling is name c (omega arith))
    ]

-- What is found is one of the children.
pub find_child-has :
    (ns : List FsNode) (is : List ℕ) (name : CString) (j : ℕ)
    → find_child ns is name ≡ some j
    → has j is ≡ true
unfolding find_child
find_child-has ns [] name j h = absurd (cc)
find_child-has ns (i ∷ is) name j h = ground (arith, find_child-has ns is name j)

module _ {kids : ℕ → List ℕ} {s : Fs} (v : IsValid kids s) where
  -- In a well-formed filesystem the search of a directory that exists ends without a fault, changes
  -- nothing, and gives the first of its children that has the name, or null when none has it.
  pub find_in_dir_lem :
      (d : ℕ) (name : CString)
      → d < length s.nodes
      → find_in_dir (some d) name s ≡ some (find_child s.nodes (kids d) name, s)
  unfolding find_in_dir
  find_in_dir_lem d name h =
      let (n, e) = get_elem?_of_lt s.nodes d h in
      let c = v.shape.chains d n e in
      rw (load_ok s d n e) (
        find_from-find_child s (length s.nodes + 1) n.child (kids d) name c
          (omega (arith, length-Chain s.nodes n.child (kids d) c)))

  pub found_in :
      (d : ℕ) (name : CString) (p : Ptr) → find_child s.nodes (kids d) name ≡ p → IsNullOrNode s p
  found_in d name none e = tt
  found_in d name (some j) e =
      let (n, f, q) = v.shape.owned d j (find_child-has s.nodes (kids d) name j e) in
      lt_of_get_elem? s.nodes j n f

  pub find_in_dir-Returns :
      (d : ℕ) (name : CString)
      → d < length s.nodes
      → Returns (λ p s'. (s' ≡ s) × IsNullOrNode s p) (find_in_dir (some d) name s)
  find_in_dir-Returns d name h =
      rw (find_in_dir_lem d name h)
        (returns (refl, found_in d name (find_child s.nodes (kids d) name) refl))
