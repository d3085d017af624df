-- ===== src/Kernel/Kept.antt =====
-- Calls on the parts that return and keep the filesystem well formed, on a root device that answers.
use hypnos.Base.{
  ℕ, ◌≤◌, Bool, true, false, Option, some, List, arith, length, String, codes, if◌then◌else◌,
}
use hypnos.Base.Int.{ℤ, pos, negsuc}
use hypnos.Blockdev.{HasAnswers}
use hypnos.CStr.{CString}
use hypnos.Fs.{Fs}
use hypnos.Fs.Monad.{FsM}
use hypnos.Fs.Valid.{IsValid, Returns, returns, Grown, Keeps}
use hypnos.Security.{sec_check_perm, sec_login}
use hypnos.Kernel.{
  Kernel, KernelM, Call, write_text, pure, and_then, ◌>>=◌, ◌>>◌, with_fs, on_fs, call, note,
  require, login_messages, login,
}

-- The call returns, its filesystem is well formed with all nodes of the first, and the root device
-- still answers, where `IsReady` is what its driver keeps true of its state.
pub data Kept {D A : Type 0} (IsReady : D → Type 0) (s : Fs) : Option (A × Kernel D) → Type 0 where
  kept :
      {a : A} {after : Kernel D}
      → Grown s after.fs
      → HasAnswers IsReady after.root
      → Kept IsReady s (some (a, after))

-- What a call starts from: a well-formed filesystem, and a root device that answers.
abbrev pub Ready : {D : Type 0} → (D → Type 0) → (ℕ → List ℕ) → Kernel D → Type 0
Ready IsReady kids k = IsValid kids k.fs × HasAnswers IsReady k.root

-- The call returns from every such state, and keeps it so.
abbrev pub Sound : {D A : Type 0} → (D → Type 0) → KernelM D A → Type 0
Sound {D} IsReady m =
    (k : Kernel D) (kids : ℕ → List ℕ) → Ready IsReady kids k → Kept IsReady k.fs (m k)

module _ {D : Type 0} {R : D → Type 0} where
  wider :
      {B : Type 0} (s t : Fs) {o : Option (B × Kernel D)}
      → length s.nodes ≤ length t.nodes
      → Kept R t o
      → Kept R s o
  wider s t le (kept g h) = kept (g.0, omega (arith, g.1)) h

  module _ {A : Type 0} where
    pub Sound-pure : (a : A) → Sound R (pure a)
    Sound-pure a k kids v = kept ((kids, v.0), omega arith) v.1

    after-Kept :
        {B : Type 0} (s : Fs) (f : A → KernelM D B) {o : Option (A × Kernel D)}
        → Kept R s o
        → ((a : A) → Sound R (f a))
        → Kept R s (and_then o f)
    after-Kept s f (kept {a} {after} g r) h = wider s after.fs g.1 (h a after g.0.0 (g.0.1, r))

    pub Sound-bind :
        {B : Type 0} (m : KernelM D A) (f : A → KernelM D B)
        → Sound R m
        → ((a : A) → Sound R (f a))
        → Sound R (m >>= f)
    Sound-bind m f hm hf k kids v = after-Kept k.fs f (hm k kids v) hf

    on-Kept :
        (k : Kernel D) {o : Option (A × Fs)}
        → Returns (λ a s'. Grown k.fs s') o
        → HasAnswers R k.root
        → Kept R k.fs (with_fs o k)
    on-Kept k (returns g) h = kept g h

    pub Sound-on_fs : (m : FsM A) → Keeps m → Sound R (on_fs m)
    Sound-on_fs m h k kids v = on-Kept k (h kids k.fs v.0) v.1

    pub Sound-if :
        (b : Bool) (m n : KernelM D A) → Sound R m → Sound R n → Sound R (if b then m else n)
    Sound-if true m n hm hn = hm
    Sound-if false m n hm hn = hn

  pub Sound-then :
      {B : Type 0} (m : KernelM D (Unit {0})) (n : KernelM D B)
      → Sound R m
      → Sound R n
      → Sound R (m >> n)
  Sound-then m n hm hn = Sound-bind m (λ u. n) hm (λ u. hn)

  pub Sound-call : (c : Call) → Sound R (call c)
  unfolding call
  Sound-call c k kids v = kept ((kids, v.0), omega arith) v.1

  pub Sound-print : (s : String) → Sound R (call (write_text (codes s)))
  Sound-print s = Sound-call (write_text (codes s))

  pub Sound-note : (s : CString) → Sound R (note s)
  unfolding note
  Sound-note s k kids v = kept ((kids, v.0), omega arith) v.1

  pub Sound-require : (perm : ℕ) (action : String) → Sound R (require perm action)
  unfolding require
  Sound-require perm action k kids v =
      Sound-if (sec_check_perm perm k.sec) _ _ (Sound-pure true)
        (Sound-then _ _ (Sound-print "Permission denied: ") (
          Sound-then _ _ (Sound-print action) (
            Sound-then _ _ (Sound-print "\n") (
              Sound-then _ _ (Sound-note (codes "security: permission denied"))
                (Sound-pure false)))))
        k kids v

  Sound-login_messages : (r : ℤ) (name : CString) → Sound R (login_messages r name)
  unfolding login_messages
  Sound-login_messages (pos n) name = Sound-then _ _ (Sound-note (codes "security: user login")) (
      Sound-then _ _ (Sound-print "Logged in as ")
        (Sound-then _ _ (Sound-call (write_text name)) (Sound-print "\n")))
  Sound-login_messages (negsuc n) name =
      Sound-then _ _ (Sound-print "No such user.\n")
        (Sound-note (codes "security: failed login attempt"))

  pub Sound-login : (name : CString) → Sound R (login name)
  unfolding login
  Sound-login name k kids v =
      let r = sec_login (some name) k.sec in
      Sound-login_messages r.0 name (record k { sec = r.1 }) kids v
