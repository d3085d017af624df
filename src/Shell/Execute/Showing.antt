-- ===== src/Shell/Execute/Showing.antt =====
-- The commands that show the state return and keep the filesystem well formed.
use hypnos.Base.{
  ◌≡◌, refl, ◌*◌, ◌-◌, ◌≤◌, length, length-append, length-replicate, replicate, arith, ℕ, Bool,
  true, false, Option, none, some, List, [], ◌∷◌, String, take,
}
use hypnos.Blockdev.{BlockDevice, blockdev_get_root}
use hypnos.CStr.{CString}
use hypnos.Fs.Dirs.{getcwd, list}
use hypnos.Fs.Dirs.Listing.{getcwd-Returns, list-Returns}
use hypnos.Fs.Files.Create.{same}
use hypnos.Fs.Snaps.{snap_list}
use hypnos.Fs.Valid.{mono, Keeps}
use hypnos.Kernel.{Kernel, KernelM, ◌>>=◌, write_text, put_char, on_fs}
use hypnos.Kernel.Kept.{
  Kept, Ready, Sound, Sound-pure, Sound-bind, Sound-then, Sound-on_fs, Sound-call, Sound-print,
}
use hypnos.Log.{log_dump}
use hypnos.Shell.Command.{skip_spaces}
use hypnos.Shell.Disk.{
  number_from, shown_byte, sector_of, put_bytes, show_sector, read_from, cmd_diskread, wrote,
  on_disk, write_to, cmd_diskwrite,
}
use hypnos.Shell.Execute.Show.{
  say_lines, slash_if, ls_printer, cmd_ls, cmd_pwd, cmd_whoami, cmd_uptime, cmd_log_show, indented,
  cmd_snap_list, cmd_echo, say_all,
}

pub getcwd-Keeps : Keeps getcwd
getcwd-Keeps kids s v = mono (getcwd-Returns v) λ r s' q. rw q (same v)

list-Keeps : Keeps list
list-Keeps kids s v = mono (list-Returns v) λ r s' q. rw q (same v)

-- The sector is full.
le-length-sector_of : (text : CString) → 1 * 512 ≤ length (sector_of text)
unfolding sector_of
le-length-sector_of text =
    let t = take 511 text in
    omega (
      arith,
      length-append t (replicate (512 - length t) 0),
      length-replicate {A = ℕ} (512 - length t) 0,
    )

module _ {D : Type 0} {R : D → Type 0} where
  pub Sound-getcwd : Sound R (on_fs getcwd)
  Sound-getcwd = Sound-on_fs getcwd getcwd-Keeps

  pub Sound-say_all : (ss : List String) → Sound R (say_all ss)
  unfolding say_all
  Sound-say_all [] = Sound-pure tt
  Sound-say_all (s ∷ ss) = Sound-then _ _ (Sound-print s) (Sound-say_all ss)

  Sound-say_lines : (ss : List CString) → Sound R (say_lines ss)
  unfolding say_lines
  Sound-say_lines [] = Sound-pure tt
  Sound-say_lines (s ∷ ss) =
      Sound-then _ _ (Sound-call (write_text s))
        (Sound-then _ _ (Sound-print "\n") (Sound-say_lines ss))

  Sound-indented : (ss : List CString) → Sound R (indented ss)
  unfolding indented
  Sound-indented [] = Sound-pure tt
  Sound-indented (s ∷ ss) = Sound-then _ _ (Sound-print "  ") (
      Sound-then _ _ (Sound-call (write_text s))
        (Sound-then _ _ (Sound-print "\n") (Sound-indented ss)))

  Sound-slash_if : (b : Bool) → Sound R (slash_if b)
  unfolding slash_if
  Sound-slash_if true = Sound-print "/"
  Sound-slash_if false = Sound-pure tt

  Sound-ls_printer : (es : List (CString × Bool)) → Sound R (ls_printer es)
  unfolding ls_printer
  Sound-ls_printer [] = Sound-pure tt
  Sound-ls_printer ((name, is_dir) ∷ es) = Sound-then _ _ (Sound-print "  ") (
      Sound-then _ _ (Sound-call (write_text name)) (
        Sound-then _ _ (Sound-slash_if is_dir)
          (Sound-then _ _ (Sound-print "\n") (Sound-ls_printer es))))

  pub Sound-ls : Sound R cmd_ls
  unfolding cmd_ls
  Sound-ls = Sound-then _ _ (Sound-print "Listing ") (
      Sound-bind _ _ Sound-getcwd λ cwd. Sound-then _ _ (Sound-call (write_text cwd)) (
        Sound-then _ _ (Sound-print ":\n")
          (Sound-bind _ ls_printer (Sound-on_fs list list-Keeps) Sound-ls_printer)))

  pub Sound-pwd : Sound R cmd_pwd
  unfolding cmd_pwd
  Sound-pwd =
      Sound-bind _ _ Sound-getcwd
        λ cwd. Sound-then _ _ (Sound-call (write_text cwd)) (Sound-print "\n")

  pub Sound-whoami : Sound R cmd_whoami
  unfolding cmd_whoami
  Sound-whoami =
      Sound-then _ _ (Sound-print "Current user: ")
        λ k kids v. Sound-then _ _ (Sound-call _) (Sound-print "\n") k kids v

  pub Sound-uptime : Sound R cmd_uptime
  unfolding cmd_uptime
  Sound-uptime k kids v =
      Sound-then _ _ (Sound-print "Uptime ticks: ")
        (Sound-then _ _ (Sound-call _) (Sound-print "\n")) k kids v

  pub Sound-log : Sound R cmd_log_show
  unfolding cmd_log_show
  Sound-log k kids v =
      Sound-then _ _ (Sound-print "=== Hypnos audit log ===\n")
        (Sound-then _ _ (Sound-say_lines (log_dump k.log)) (Sound-print "=== end ===\n")) k kids v

  pub Sound-snap_list : Sound R cmd_snap_list
  unfolding cmd_snap_list
  Sound-snap_list k kids v =
      Sound-then _ _ (Sound-print "Snapshots:\n") (Sound-indented (snap_list k.fs)) k kids v

  pub Sound-echo : (msg : CString) → Sound R (cmd_echo msg)
  unfolding cmd_echo
  Sound-echo msg = Sound-then _ _ (Sound-call (write_text msg)) (Sound-print "\n")

  Sound-put_bytes : (bs : List ℕ) → Sound R (put_bytes bs)
  unfolding put_bytes
  Sound-put_bytes [] = Sound-pure tt
  Sound-put_bytes (c ∷ bs) =
      Sound-then _ _ (Sound-call (put_char (shown_byte c))) (Sound-put_bytes bs)

  Sound-show_sector : (r : Option (List ℕ)) → Sound R (show_sector r)
  unfolding show_sector
  Sound-show_sector none = Sound-print "diskread: read error\n"
  Sound-show_sector (some bytes) =
      Sound-then _ _ (Sound-print "Sector ")
        (Sound-then _ _ (Sound-put_bytes (take 64 bytes)) (Sound-print "\n"))

  -- A call of the driver that returns, and what follows it.
  on_disk-Kept :
      {A : Type 0} {o : Option (A × D)} (f : A → KernelM D (Unit {0})) (k : Kernel D)
      {kids : ℕ → List ℕ}
      → Ready R kids k
      → (a : A) × (d : D) × (o ≡ some (a, d)) × R d
      → ((a : A) → Sound R (f a))
      → Kept R k.fs ((on_disk o >>= f) k)
  unfolding on_disk
  on_disk-Kept f k {kids} v (a, d, e, ready) h =
      rw e (h a (record k { root = record k.root { disk = d } }) kids (v.0, (v.1.0, ready)))

  read_from-Kept :
      (dev : Option (BlockDevice D)) (lba : ℕ) (k : Kernel D) {kids : ℕ → List ℕ}
      → k.root.device ≡ dev
      → Ready R kids k
      → Kept R k.fs (read_from dev lba k)
  unfolding read_from
  read_from-Kept none lba k {kids} e v = Sound-print "diskread: no root block device\n" k kids v
  read_from-Kept (some dev) lba k e v =
      on_disk-Kept show_sector k v ((v.1.0 dev e).reads lba 1 k.root.disk v.1.1) Sound-show_sector

  pub Sound-diskread : (arg : CString) → Sound R (cmd_diskread arg)
  unfolding cmd_diskread blockdev_get_root
  Sound-diskread arg k kids v =
      read_from-Kept (blockdev_get_root k.root) (number_from 0 (skip_spaces arg)).0 k refl v

  Sound-wrote : (r : Bool) → Sound R (wrote r)
  unfolding wrote
  Sound-wrote false = Sound-print "diskwrite: write error\n"
  Sound-wrote true = Sound-print "diskwrite: wrote sector\n"

  write_to-Kept :
      (dev : Option (BlockDevice D)) (lba : ℕ) (text : CString) (k : Kernel D) {kids : ℕ → List ℕ}
      → k.root.device ≡ dev
      → Ready R kids k
      → Kept R k.fs (write_to dev lba text k)
  unfolding write_to
  write_to-Kept none lba text k {kids} e v =
      Sound-print "diskwrite: no root block device\n" k kids v
  write_to-Kept (some dev) lba text k e v =
      on_disk-Kept wrote k v
        ((v.1.0 dev e).writes lba 1 (sector_of text) k.root.disk v.1.1 (le-length-sector_of text))
        Sound-wrote

  pub Sound-diskwrite : (arg : CString) → Sound R (cmd_diskwrite arg)
  unfolding cmd_diskwrite blockdev_get_root
  Sound-diskwrite arg k kids v =
      let r = number_from 0 (skip_spaces arg) in
      write_to-Kept (blockdev_get_root k.root) r.0 (skip_spaces r.1) k refl v
