-- ===== src/Fs/Calls/Trees.antt =====
-- Calls that only make nodes and move leave a tree, which `fs_tree_cwd` lists.
use hypnos.Base.{ℕ, ◌≡◌, refl, Option, none, some, List, [], ◌∷◌, All, get_elem?, if◌then◌else◌}
use hypnos.Crypto.{set_key}
use hypnos.Crypto.Laws.{length-set_key}
use hypnos.Mm.Kmalloc.{kmalloc_init, kheap_start}
use hypnos.Fs.{Fs, FsNode, Ptr, unmounted}
use hypnos.Fs.Monad.{FsM, pure, ◌>>=◌, ◌>>◌}
use hypnos.Fs.Files.{init}
use hypnos.Fs.Files.Mount.{init-Alone, no_kids, first_room}
use hypnos.Fs.Files.Planted.{Planted, mkdir-Planted, touch-Planted, chdir-Planted}
use hypnos.Fs.Calls.{FsCall, call_mkdir, call_touch, call_chdir, run_call, run_calls}
use hypnos.Fs.Valid.{Returns, returns, bind, mono, IsNode, IsValid}
use hypnos.Fs.Walks.{tree_cwd}
use hypnos.Fs.Walks.Tree.{Entry, Lists, tree_cwd-Lists}

-- `fs_mkdir`, `fs_touch` and `fs_chdir`
abbrev pub IsMaking : FsCall → Type 0
IsMaking (call_mkdir path) = Unit {0}
IsMaking (call_touch path) = Unit {0}
IsMaking (call_chdir path) = Unit {0}
IsMaking _ = ⊥

dropped :
    {A : Type 0} {P : Fs → Type 0} {o : Option (A × Fs)}
    → Returns (λ a s. P s) o
    → Returns (λ u s. P s) (hypnos.Fs.Monad.and_then o (λ a. pure tt))
dropped (returns p) = returns p

run_call-Planted :
    (c : FsCall) (s : Fs) → IsMaking c → Planted s → Returns (λ u t. Planted t) (run_call c s)
unfolding run_call
run_call-Planted (call_mkdir path) s h (kids, (order, (v, tree))) =
    dropped (mkdir-Planted v order tree path)
run_call-Planted (call_touch path) s h (kids, (order, (v, tree))) =
    dropped (touch-Planted v order tree path)
run_call-Planted (call_chdir path) s h (kids, (order, (v, tree))) =
    dropped (chdir-Planted v order tree path)
run_call-Planted _ s h p = absurd h

run_calls-Planted :
    (cs : List FsCall) (s : Fs)
    → All IsMaking cs
    → Planted s
    → Returns (λ u t. Planted t) (run_calls cs s)
unfolding run_calls
run_calls-Planted [] s h p = returns p
run_calls-Planted (c ∷ cs) s h p =
    bind (run_call-Planted c s h.0 p) λ u t q. run_calls-Planted cs t h.1 q

somewhere : (s : Fs) (p : Ptr) → IsNode s p → (d : ℕ) × (p ≡ some d)
somewhere s none h = absurd h
somewhere s (some d) h = (d, refl)

init-Planted :
    (key : List ℕ) → Returns (λ u s. Planted s) (init (unmounted kmalloc_init (set_key key)))
init-Planted key =
    mono
      (init-Alone (set_key key) kmalloc_init (record { heap_offset = 56 }) kheap_start first_room
        (length-set_key key).0)
      λ u s g. (no_kids, ((λ x. 0), (g.0, record { descends = λ d. tt; bounded = λ d h. g.1 })))

-- The listing is that of the tree below the current directory.
abbrev pub Listed : List Entry → Fs → Type 0
Listed out s =
    (kids : ℕ → List ℕ) × ((d : ℕ) × ((n : FsNode) × (IsValid kids s
          × ((s.cwd ≡ some d)
              × ((get_elem? s.nodes d ≡ some n)
                  × Lists s.nodes kids (if n.is_dir then kids d else []) 0 out)))))

tree_cwd-Listed : (s : Fs) → Planted s → Returns Listed (tree_cwd s)
tree_cwd-Listed s (kids, (order, (v, tree))) =
    let (d, cwd) = somewhere s s.cwd v.cwd_in in
    mono (tree_cwd-Lists v order tree d cwd)
      λ out s' g. rw g.0 (kids, (d, (g.1.0, (v, (cwd, (g.1.1.0, g.1.1.1))))))

-- Whatever key is installed, after `fs_init` on the heap of the start and any sequence of `fs_mkdir`,
-- `fs_touch` and `fs_chdir`, `fs_tree_cwd` ends without a fault and calls back with every node below the
-- current directory, each directory followed by its nodes, one level deeper.
pub tree_cwd-run_calls :
    (key : List ℕ) (cs : List FsCall)
    → All IsMaking cs
    → Returns Listed ((init >> run_calls cs >> tree_cwd) (unmounted kmalloc_init (set_key key)))
tree_cwd-run_calls key cs h =
    bind (bind (init-Planted key) λ u s p. run_calls-Planted cs s h p) λ u s p. tree_cwd-Listed s p
