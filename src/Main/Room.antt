-- ===== src/Main/Room.antt =====
-- The kernel heap behind the first start of the filesystem.
use hypnos.Base.{◌≡◌, refl, Option, none, some, codes}
use hypnos.Boot.{
  fs_bootstrap, make_dirs, put_files, motd, root_readme, student_readme, unless_initialized,
}
use hypnos.CStr.{kstrcmp, kstrlen, kstrncpy}
use hypnos.Crypto.{set_key, encrypt, decrypt, apply}
use hypnos.Fs.{Fs, unmounted}
use hypnos.Fs.Dirs.{getcwd}
use hypnos.Fs.Files.{
  init, chdir, read, mkdir, add_node, set_contents, touch, up_to_zero, usable, write,
}
use hypnos.Fs.Monad.{◌>>◌, alloc, push_node, load, store}
use hypnos.Fs.Nodes.{new_node, find_in_dir, find_from, link}
use hypnos.Fs.Resolve.{resolve, resolve_from, next_component, skip_slashes, take_component}
use hypnos.Mm.Kmalloc.{Kheap, kmalloc}

abbrev pub heap_of : Option (Unit {0} × Fs) → Kheap
heap_of none = record { heap_offset = 0 }
heap_of (some (u, s)) = s.kheap

-- The heap behind the heap test.
abbrev pub first_heap : Kheap
first_heap = record { heap_offset = 32 }

-- The first start takes 1186 bytes of the heap.
pub boot_heap :
    heap_of ((init >> fs_bootstrap) (unmounted first_heap (set_key (codes "hypnos-default-key"))))
    ≡ record { heap_offset = 1218 }
unfolding init fs_bootstrap new_node alloc kmalloc push_node load store getcwd chdir codes resolve
    resolve_from next_component read find_in_dir find_from mkdir kstrlen make_dirs motd put_files
    root_readme student_readme unless_initialized kstrcmp kstrncpy apply decrypt encrypt add_node
    set_contents touch up_to_zero usable write link skip_slashes take_component set_key
boot_heap = refl
