-- ===== src/Kernel.antt =====
-- The state of the parts that the shell drives, and calls on it. `none` is a fault, a loop without end
-- or a call that never returns.
pub mod Kept
use hypnos.Base.{
  ◌≡◌, refl, ℕ, Bool, true, false, Option, none, some, List, ◌∷◌, String, codes, if◌then◌else◌,
}
use hypnos.Base.Int.{ℤ, pos, negsuc}
use hypnos.CStr.{CString}
use hypnos.Blockdev.{Root}
use hypnos.Fs.{Fs}
use hypnos.Fs.Monad.{FsM}
use hypnos.Log.{Log, log_event}
use hypnos.Security.{Security, sec_check_perm, sec_login}

-- A call of the console, or the drawing of a line on the status row.
pub data Call : Type 0 where
  write_text : CString → Call
  put_char : ℕ → Call
  clear_screen : Call
  set_color : ℕ → ℕ → Call
  draw_bar : CString → Call

-- The variables of kernel/shell/editor.c: the first `editor_len` bytes of `editor_buf`, the name and
-- `editor_active`.
pub record Editor : Type 0 where
  pub buf : CString
  pub name : CString
  pub active : Bool

-- `input` is the first `input_len` bytes of `input_buffer`, `counter` that of `shell_tick`, and `ticks`
-- that of the timer. `out` holds the calls of the console, the last first.
pub record Kernel (D : Type 0) : Type 0 where
  pub fs : Fs
  pub sec : Security
  pub log : Log
  pub root : Root D
  pub editor : Editor
  pub input : CString
  pub counter : ℕ
  pub ticks : ℕ
  pub out : List Call

abbrev pub KernelM : Type 0 → Type 0 → Type 0
KernelM D A = Kernel D → Option (A × Kernel D)

module _ {D : Type 0} where
  abbrev pub pure : {A : Type 0} → A → KernelM D A
  pure a k = some (a, k)

  -- A fault, or a call that never returns.
  abbrev pub stuck : {A : Type 0} → KernelM D A
  stuck k = none

  abbrev pub and_then :
      {A B : Type 0} → Option (A × Kernel D) → (A → KernelM D B) → Option (B × Kernel D)
  and_then none f = none
  and_then (some (a, k)) f = f a k

  infixl 5 ◌>>=◌ ◌>>◌
  abbrev pub ◌>>=◌ : {A B : Type 0} → KernelM D A → (A → KernelM D B) → KernelM D B
  ◌>>=◌ m f k = and_then (m k) f

  abbrev pub ◌>>◌ : {B : Type 0} → KernelM D (Unit {0}) → KernelM D B → KernelM D B
  m >> n = m >>= λ _. n

  abbrev pub gets : {A : Type 0} → (Kernel D → A) → KernelM D A
  gets f k = some (f k, k)

  abbrev pub modify : (Kernel D → Kernel D) → KernelM D (Unit {0})
  modify f k = some (tt, f k)

  abbrev pub with_fs : {A : Type 0} → Option (A × Fs) → Kernel D → Option (A × Kernel D)
  with_fs none k = none
  with_fs (some (a, s)) k = some (a, record k { fs = s })

  -- The branch that a test takes.
  pub chosen :
      (b : Bool) (m n : KernelM D (Unit {0})) (k : Kernel D)
      → b ≡ true
      → (if b then m else n) k ≡ m k
  chosen b m n k h = rw h refl

  pub otherwise :
      (b : Bool) (m n : KernelM D (Unit {0})) (k : Kernel D)
      → b ≡ false
      → (if b then m else n) k ≡ n k
  otherwise b m n k h = rw h refl

  -- A call of the filesystem.
  abbrev pub on_fs : {A : Type 0} → FsM A → KernelM D A
  on_fs m k = with_fs (m k.fs) k

  -- One call of the console.
  unfoldable pub call : Call → KernelM D (Unit {0})
  call c k = some (tt, record k { out = c ∷ k.out })

  -- `console_write` of a string, and of a text of the source.
  abbrev pub say : CString → KernelM D (Unit {0})
  say s = call (write_text s)

  abbrev pub print : String → KernelM D (Unit {0})
  print s = call (write_text (codes s))

  -- `log_event`
  unfoldable pub note : CString → KernelM D (Unit {0})
  note s k = some (tt, record k { log = log_event (some s) k.log })

  -- `sec_require_perm`, with its messages: whether the permission is there.
  unfoldable pub require : ℕ → String → KernelM D Bool
  unfolding call note
  require required action = do
    k ← gets (λ k. k)
    if sec_check_perm required k.sec then pure true else do
      print "Permission denied: "
      print action
      print "\n"
      note (codes "security: permission denied")
      pure false

  unfoldable pub login_messages : ℤ → CString → KernelM D (Unit {0})
  unfolding call note
  login_messages (pos n) name = do
    note (codes "security: user login")
    print "Logged in as "
    say name
    print "\n"
  login_messages (negsuc n) name = do
    print "No such user.\n"
    note (codes "security: failed login attempt")

  -- `sec_login` of a name that is not empty, with its messages. The name that it prints compares equal
  -- to the one it was given.
  unfoldable pub login : CString → KernelM D (Unit {0})
  unfolding login_messages
  login name = do
    k ← gets (λ k. k)
    let (r, s) = sec_login (some name) k.sec
    modify (λ k. record k { sec = s })
    login_messages r name
