-- ===== src/Fs/Calls/Tests.antt =====
-- The theorems on the calls, at a filesystem with one file and at the calls that make, fill, move and
-- remove a file.
use hypnos.Base.{
  ap, sym, eq_of_some, ℕ, zero, suc, ◌≡◌, refl, true, false, none, some, List, [], ◌∷◌, get_elem?,
  arith, codes,
}
use hypnos.CStr.{kstrcmp}
use hypnos.Crypto.{set_key}
use hypnos.Mm.Kmalloc.{kmalloc_init}
use hypnos.Fs.{Fs, FsNode, err, unmounted}
use hypnos.Fs.Monad.{◌>>◌, load}
use hypnos.Fs.Nodes.{find_in_dir, find_from}
use hypnos.Fs.Files.{init, write}
use hypnos.Fs.Files.Existing.{write_existing}
use hypnos.Fs.Dirs.{detach, list}
use hypnos.Fs.Dirs.Detach.Walk.{Detached, detach-Detached}
use hypnos.Fs.Dirs.Listing.{entries, list-entries}
use hypnos.Fs.Calls.{
  FsCall, call_mkdir, call_touch, call_chdir, call_write, call_rename, call_unlink, call_rmdir,
  run_calls, run_calls-Keeps, run_calls-init,
}
use hypnos.Fs.Calls.Trees.{Listed, tree_cwd-run_calls}
use hypnos.Fs.Walks.{tree_cwd}
use hypnos.Fs.Resolve.{resolve, resolve_from, next_component, skip_slashes, take_component}
use hypnos.Fs.Shape.{has, Child, Below, Chain}
use hypnos.Fs.Valid.{Returns, Grown, IsValid}

abbrev pub root_node : FsNode
root_node = record {
  name = codes "/";
  is_dir = true;
  contents = none;
  size = 0;
  parent = some 0;
  child = some 1;
  sibling = none;
}

abbrev pub file_node : FsNode
file_node = record {
  name = codes "a";
  is_dir = false;
  contents = none;
  size = 0;
  parent = some 0;
  child = none;
  sibling = none;
}

abbrev pub one_file : Fs
one_file = record {
  nodes = root_node ∷ file_node ∷ [];
  root = some 0;
  cwd = some 0;
  snaps = [];
  kheap = kmalloc_init;
  key = codes "k";
}

abbrev pub one_child : ℕ → List ℕ
one_child zero = 1 ∷ []
one_child (suc d) = []

chains_ok :
    (d : ℕ) (n : FsNode)
    → get_elem? one_file.nodes d ≡ some n
    → Chain one_file.nodes n.child (one_child d)
chains_ok zero n e = (ap (λ x. x.child) (sym (eq_of_some e)), (file_node, refl, refl))
chains_ok (suc zero) n e = ap (λ x. x.child) (sym (eq_of_some e))
chains_ok (suc (suc d)) n e = absurd (cc e)

owned_ok : (d i : ℕ) → has i (one_child d) ≡ true → Child one_file.nodes d i
owned_ok zero i e = let same : i ≡ 1 = ground arith in rw same (file_node, refl, refl)
owned_ok (suc d) i e = absurd (cc e)

absent_ok : (d : ℕ) → get_elem? one_file.nodes d ≡ none → one_child d ≡ []
absent_ok zero e = absurd (cc e)
absent_ok (suc d) e = refl

parents_ok : (d : ℕ) (n : FsNode) → get_elem? one_file.nodes d ≡ some n → Below n.parent 2
parents_ok zero n e =
    let same : n.parent ≡ some 0 = ap (λ x. x.parent) (sym (eq_of_some e)) in rw same (omega arith)
parents_ok (suc zero) n e =
    let same : n.parent ≡ some 0 = ap (λ x. x.parent) (sym (eq_of_some e)) in rw same (omega arith)
parents_ok (suc (suc d)) n e = absurd (cc e)

pub one_file-IsValid : IsValid one_child one_file
unfolding codes
one_file-IsValid = record {
  shape = record { chains = chains_ok; owned = owned_ok; absent = absent_ok; parents = parents_ok };
  root_in = omega arith;
  cwd_in = omega arith;
  keyed = omega arith;
}

abbrev script : List FsCall
script =
    call_mkdir (some (codes "/home"))
    ∷ call_write (some (codes "/home/note")) (some (codes "hello"))
    ∷ call_chdir (some (codes "/home"))
    ∷ call_rename (some (codes "note")) (some (codes "/memo"))
    ∷ call_unlink (some (codes "/memo"))
    ∷ call_rmdir (some (codes "/home"))
    ∷ []

run_calls-Keeps_example : Returns (λ u s'. Grown one_file s') (run_calls script one_file)
run_calls-Keeps_example = run_calls-Keeps script one_file-IsValid

run_calls-init_example :
    Returns
      (λ u s. (kids : ℕ → List ℕ) × IsValid kids s)
      ((init >> run_calls script) (unmounted kmalloc_init (set_key (codes "key"))))
run_calls-init_example = run_calls-init (codes "key") script

detach-Detached_example : Returns (λ u s'. Detached 1 one_file s') (detach 1 one_file)
detach-Detached_example = detach-Detached one_file-IsValid 1 (omega arith)

list-entries_example : list one_file ≡ some (entries one_file.nodes (1 ∷ []), one_file)
list-entries_example = list-entries one_file-IsValid 0 refl

write_existing_example :
    write (some (codes "/a")) (some (codes "text")) one_file ≡ some (err, one_file)
unfolding codes kstrcmp resolve resolve_from next_component skip_slashes take_component find_in_dir
    find_from load
write_existing_example =
    write_existing one_file-IsValid (some (codes "/a")) (some (codes "text"))
      (1, ([], (one_file, refl)))

abbrev making : List FsCall
making =
    call_mkdir (some (codes "/home"))
    ∷ call_chdir (some (codes "/home"))
    ∷ call_touch (some (codes "note"))
    ∷ call_chdir (some (codes "/"))
    ∷ []

tree_cwd-run_calls_example :
    Returns Listed
      ((init >> run_calls making >> tree_cwd) (unmounted kmalloc_init (set_key (codes "key"))))
tree_cwd-run_calls_example = tree_cwd-run_calls (codes "key") making (tt, (tt, (tt, (tt, tt))))
