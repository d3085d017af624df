-- ===== src/Fs/Files/Again.antt =====
-- `fs_write_cwd` and then `fs_read` of the same name.
use mathlib.Core.Path.{subst}
use hypnos.Base.{
  ap, sym, ◌∙◌, eq_of_some, ℕ, ◌+◌, ◌<◌, ◌^◌, ◌≡◌, refl, Bool, false, ◌==◌, Option, none, some,
  List, [], ◌∷◌, arith, length, take_all, Bool-cases, inl, inr, get_elem?, get_elem?_of_lt,
  if◌then◌else◌,
}
use hypnos.CStr.{CString, IsCString}
use hypnos.CStr.Laws.{kstrncpy-take, kstrcmp_refl}
use hypnos.Fs.{Fs, FsNode, Ptr, Status, ok}
use hypnos.Fs.Nodes.{fresh}
use hypnos.Fs.Nodes.Make.{Made, new_node-Made, link-Returns}
use hypnos.Fs.Nodes.Fresh.{Fresh, new_node-Fresh, link-Linked}
use hypnos.Fs.Files.{set_contents, write_in, write_cwd, cwd_target, link_in_cwd, is_blank, read}
use hypnos.Fs.Files.Held.{IsFile, set_contents-Written, read-Holds}
use hypnos.Fs.Resolve.Names.{IsName}
use hypnos.Fs.Shape.{find_child}
use hypnos.Fs.Valid.{both, Returns, returns, bind, mono, outcome, IsNode, IsValid}
use hypnos.Fs.Valid.Lookup.{load_ok, find_in_dir_lem, found_in, find_child_cons}
use hypnos.Mm.Kmalloc.{Kheap, kmalloc}

-- A name of at most 31 bytes is kept whole.
fresh-name : (name : CString) (is_dir : Bool) → IsName name → (fresh name is_dir).name ≡ name
fresh-name name is_dir h =
    kstrncpy-take name 32 (omega arith) ∙ take_all 31 name (omega (arith, h.fits))

-- What the search for the file of that name, or its making, gives.
abbrev Target : ℕ → CString → Ptr → Fs → Type 0
Target d name none t = Unit {0}
Target d name (some i) t =
    (kids : ℕ → List ℕ) × ((n : FsNode) × ((t.cwd ≡ some d)
        × ((d < length t.nodes)
            × (IsValid kids t
                × ((find_child t.nodes (kids d) name ≡ some i) × (get_elem? t.nodes i ≡ some n))))))

module _ {kids : ℕ → List ℕ} {s : Fs} (v : IsValid kids s) (d : ℕ) (cwd : s.cwd ≡ some d)
    (lt : d < length s.nodes) (name : CString) (is_name : IsName name) where
  linked-Target :
      (r : Option ℕ) (t : Fs)
      → Made kids s r t × Fresh name false s r t
      → Returns (λ p t'. Target d name p t') (link_in_cwd d r t)
  unfolding link_in_cwd
  linked-Target none t m = returns {a = none} tt
  linked-Target (some i) t ((w, le, hi, loose), (c, (last, (at_i, more)))) =
      bind
        (both (link-Returns w d i (omega arith) hi loose)
          (link-Linked t d i _ (omega arith) at_i (λ e. omega arith)))
        λ u t' q.
          let (cwd', (m, (at', (name', dir')))) = q.1 in
          let whole : m.name ≡ name = name' ∙ fresh-name name false is_name in
          let first : find_child t'.nodes (i ∷ kids d) name ≡ some i =
            rw (find_child_cons t'.nodes i (kids d) name m at', whole, kstrcmp_refl name) refl in
          let here : (if d == d then i ∷ kids d else kids d) ≡ i ∷ kids d = ground arith in
          returns {a = some i} (
            (λ x. if x == d then i ∷ kids d else kids x),
            (
              m,
              (
                cwd' ∙ (c ∙ cwd),
                (
                  omega (arith, q.0.1),
                  (q.0.0, (ap (λ xs. find_child t'.nodes xs name) here ∙ first, at')),
                ),
              ),
            ),
          )

  cwd_target-Target :
      (old : Ptr)
      → find_child s.nodes (kids d) name ≡ old
      → Returns (λ p t. Target d name p t) (cwd_target d name old s)
  unfolding cwd_target
  cwd_target-Target none e =
      bind (both (new_node-Made v name false) (new_node-Fresh s name false)) linked-Target
  cwd_target-Target (some i) e =
      let (n, at_i) = get_elem?_of_lt s.nodes i (found_in v d name (some i) e) in
      returns {a = some i} (kids, (n, (cwd, (lt, (v, (e, at_i))))))

IsName-not_blank : (name : CString) → IsName name → is_blank (some name) ≡ false
IsName-not_blank [] h = absurd (omega (arith, h.not_empty))
IsName-not_blank (c ∷ name) h = refl

-- What the call leaves for a read of the same name.
abbrev Readable : CString → CString → Status → Fs → Type 0
Readable name bytes st t =
    st ≡ ok
    → (buf : ℕ) (heap : Kheap) → kmalloc (length bytes + 1) t.kheap ≡ (some buf, heap)
    → read (some name) t ≡ some (some bytes, record t { kheap = heap })

module _ (name bytes : CString) (is_name : IsName name) (pos : 0 < length bytes)
    (small : length bytes < 2 ^ 32) (text : IsCString bytes) where
  set_contents-Readable :
      (d : ℕ) (p : Ptr) (t : Fs)
      → Target d name p t
      → Returns (Readable name bytes) (set_contents p bytes t)
  unfolding set_contents
  set_contents-Readable d none t h = returns λ e. absurd (cc e)
  set_contents-Readable d (some i) t (kids, (n, (cwd, (lt, (v, (found, at_i)))))) =
      elim (Bool-cases n.is_dir) [
        | inl q ↦ rw (load_ok t i n at_i, q) (returns λ e. absurd (cc e))
        | inr q ↦
            let f : IsFile kids t d i n name = record {
              valid = v;
              cwd = cwd;
              exists = lt;
              found = found;
              node = at_i;
              file = q;
            } in
            mono (set_contents-Written f bytes) λ st t' w e buf heap room.
              let (n', (f', h)) = w e in read-Holds f' is_name bytes pos small text h buf heap room
      ]

  module _ {kids : ℕ → List ℕ} {s : Fs} (v : IsValid kids s) where
    write_in-Readable :
        (p : Ptr) → s.cwd ≡ p → IsNode s p → Returns (Readable name bytes) (write_in p name bytes s)
    unfolding write_in
    write_in-Readable none cwd h = absurd h
    write_in-Readable (some d) cwd h =
        let (c, e) = get_elem?_of_lt s.nodes d h in
        rw (load_ok s d c e) (elim (Bool-cases c.is_dir) [
          | inl q ↦
              rw (q, find_in_dir_lem v d name h)
                (bind
                  (cwd_target-Target v d cwd h name is_name (find_child s.nodes (kids d) name) refl)
                  (set_contents-Readable d))
          | inr q ↦ rw q (returns λ e. absurd (cc e))
        ])

    write_cwd-Readable : Returns (Readable name bytes) (write_cwd (some name) (some bytes) s)
    unfolding write_cwd
    write_cwd-Readable = rw (IsName-not_blank name is_name) (write_in-Readable s.cwd refl v.cwd_in)

    -- On a well-formed filesystem, when `fs_write_cwd` of a name of 1 to 31 bytes without a slash
    -- succeeds with a text that is not empty and shorter than 2 ^ 32 bytes, and the kernel heap has room
    -- for the copy, then `fs_read` of the name gives back the text and changes only the heap. The file
    -- may be new or have had other contents.
    pub read-write_cwd :
        (t : Fs)
        → write_cwd (some name) (some bytes) s ≡ some (ok, t)
        → (buf : ℕ) (heap : Kheap) → kmalloc (length bytes + 1) t.kheap ≡ (some buf, heap)
        → read (some name) t ≡ some (some bytes, record t { kheap = heap })
    read-write_cwd t h buf heap room =
        let (st, (t', (e, r))) = outcome write_cwd-Readable in
        let same : (st, t') ≡ (ok, t) = eq_of_some (sym e ∙ h) in
        subst (λ x. Readable name bytes x.0 x.1) same r refl buf heap room
