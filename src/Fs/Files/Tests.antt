-- ===== src/Fs/Files/Tests.antt =====
-- A text that is written to the file `a` and read back.
use hypnos.Base.{ℕ, ◌+◌, ◌≡◌, refl, some, List, [], ◌∷◌, arith, codes}
use hypnos.CStr.{kstrcmp, kstrlen}
use hypnos.Crypto.{encrypt, apply}
use hypnos.Mm.Kmalloc.{kmalloc_init, Kheap, kmalloc, kheap_start}
use hypnos.Fs.{Fs, FsNode, ok}
use hypnos.Fs.Monad.{load, store, alloc}
use hypnos.Fs.Nodes.{find_in_dir, find_from}
use hypnos.Fs.Files.{read, write_cwd, write_in, set_contents, cwd_target, fill}
use hypnos.Fs.Files.Again.{read-write_cwd}
use hypnos.Fs.Calls.Tests.{file_node, root_node, one_file, one_file-IsValid}
use hypnos.Fs.Resolve.Names.{IsName}

abbrev text : List ℕ
text = 104 ∷ 105 ∷ []

abbrev written_file : FsNode
written_file = record file_node { contents = some (3 ∷ 2 ∷ []); size = 2 }

abbrev written : Fs
written = record one_file {
  nodes = root_node ∷ written_file ∷ [];
  kheap = record { heap_offset = 3 };
}

abbrev read_heap : Kheap
read_heap = record { heap_offset = 6 }

a-IsName : IsName (97 ∷ [])
a-IsName = record {
  not_empty = omega arith;
  fits = omega arith;
  no_slash = ((λ e. omega arith), tt);
}

write_a : write_cwd (some (97 ∷ [])) (some text) one_file ≡ some (ok, written)
unfolding codes kstrcmp kstrlen write_cwd write_in set_contents cwd_target fill find_in_dir
    find_from load store alloc encrypt apply kmalloc kmalloc_init
write_a = refl

room_a : kmalloc (2 + 1) written.kheap ≡ (some (kheap_start + 3), read_heap)
unfolding kmalloc
room_a = refl

read-write_cwd_example :
    read (some (97 ∷ [])) written ≡ some (some text, record written { kheap = read_heap })
read-write_cwd_example =
    read-write_cwd (97 ∷ []) text a-IsName (omega arith) (omega arith)
      (omega arith, (omega arith, tt)) one_file-IsValid written write_a (kheap_start + 3) read_heap
      room_a
