-- ===== src/Timer/Ticks.antt =====
-- What any number of ticks does.
use hypnos.Base.{
  ℕ, zero, suc, ◌+◌, ◌%◌, ◌^◌, ◌<◌, ◌≡◌, refl, Option, some, List, arith, leb, Bool-cases, inl, inr,
}
use hypnos.CStr.{CString}
use hypnos.Fs.{Fs}
use hypnos.Fs.Dirs.{getcwd}
use hypnos.Fs.Dirs.Listing.{getcwd-Returns}
use hypnos.Fs.Valid.{IsValid, outcome}
use hypnos.Base.{◌∷◌, ◌/◌}
use hypnos.Security.{sec_get_current_username}
use hypnos.Kernel.{gets, Kernel, KernelM, Call, pure, ◌>>=◌, ◌>>◌, call, with_fs, and_then}
use hypnos.Shell.Bar.{shell_tick, shell_draw_status_bar, bar_line}
use hypnos.Timer.{timer_callback}

module _ {D : Type 0} where
  -- Interrupts of the timer one after the other.
  unfoldable pub tick : ℕ → KernelM D (Unit {0})
  tick zero = pure tt
  tick (suc n) = do timer_callback; tick n

  -- After `n` ticks: they are counted modulo 2 ^ 32, the counter of the bar stays below 100, and nothing
  -- else but the screen changed.
  pub record Ticked (n : ℕ) (k after : Kernel D) : Type 0 where
    pub ticks : after.ticks % 2 ^ 32 ≡ (k.ticks + n) % 2 ^ 32
    pub counter : after.counter < 100
    pub fs : after.fs ≡ k.fs
    pub sec : after.sec ≡ k.sec
    pub log : after.log ≡ k.log
    pub root : after.root ≡ k.root
    pub editor : after.editor ≡ k.editor
    pub input : after.input ≡ k.input

  -- A drawing of the bar changes the screen only.
  abbrev Draws : Kernel D → Option (Unit {0} × Kernel D) → Type 0
  Draws k o = (out : List Call) × (o ≡ some (tt, record k { out = out }))

  draw_of :
      (k : Kernel D) (cwd : CString) (f : CString → Kernel D → CString) (o : Option (CString × Fs))
      → o ≡ some (cwd, k.fs)
      → Draws k
          (and_then (with_fs o k) λ c. gets (λ k'. k') >>= λ k'. call (Call.draw_bar (f c k')))
  unfolding call
  draw_of k cwd f o e = rw e (Call.draw_bar (f cwd k) ∷ k.out, refl)

  draw_returns :
      {kids : ℕ → List ℕ} (k : Kernel D) → IsValid kids k.fs → Draws k (shell_draw_status_bar k)
  unfolding shell_draw_status_bar
  draw_returns k v =
      let (cwd, (s, (e, same))) = outcome (getcwd-Returns v) in
      let e' : getcwd k.fs ≡ some (cwd, k.fs) = rw same at e in
      draw_of k cwd (λ c k'. bar_line (k'.ticks / 100) (sec_get_current_username k'.sec) c)
        (getcwd k.fs) e'

  -- A state after a tick: the ticks and the counter, and perhaps the screen, are new.
  abbrev later : Kernel D → ℕ → ℕ → List Call → Kernel D
  later k t c out = record k { ticks = t; counter = c; out = out }

  shell_tick-returns :
      {kids : ℕ → List ℕ} (k : Kernel D)
      → IsValid kids k.fs
      → k.counter < 100
      → (c : ℕ) × ((out : List Call) × ((c < 100)
            × (shell_tick k ≡ some (tt, later k k.ticks c out))))
  unfolding shell_tick
  shell_tick-returns k v h = elim (Bool-cases (leb 100 (k.counter + 1))) [
    | inl e ↦
        let (out, d) = draw_returns (record k { counter = 0 }) v in
        (0, (out, (omega arith, rw (e, d) refl)))
    | inr e ↦ (k.counter + 1, (k.out, (ground arith, rw e refl)))
  ]

  timer_callback-returns :
      {kids : ℕ → List ℕ} (k : Kernel D)
      → IsValid kids k.fs
      → k.counter < 100
      → (c : ℕ) × ((out : List Call) × ((c < 100)
            × (timer_callback k ≡ some (tt, later k ((k.ticks + 1) % 2 ^ 32) c out))))
  unfolding timer_callback
  timer_callback-returns k v h =
      shell_tick-returns (record k { ticks = (k.ticks + 1) % 2 ^ 32 }) v h

  -- On a well-formed filesystem, with the counter below 100, any number of ticks return; they are counted
  -- modulo 2 ^ 32, the counter stays below 100, and nothing else but the screen changes, also not the
  -- root device and its disk.
  pub tick-Ticked :
      (n : ℕ) {kids : ℕ → List ℕ} (k : Kernel D)
      → IsValid kids k.fs
      → k.counter < 100
      → (after : Kernel D) × ((tick n k ≡ some (tt, after)) × Ticked n k after)
  unfolding tick
  tick-Ticked zero k v h = (
    k,
    (
      refl,
      record {
        ticks = omega arith;
        counter = h;
        fs = refl;
        sec = refl;
        log = refl;
        root = refl;
        editor = refl;
        input = refl;
      },
    ),
  )
  tick-Ticked (suc n) k v h =
      let (c, (out, (lt, e))) = timer_callback-returns k v h in
      let (after, (f, t)) = tick-Ticked n (later k ((k.ticks + 1) % 2 ^ 32) c out) v lt in
      (
        after,
        (
          rw e f,
          record {
            ticks = omega (arith, t.ticks);
            counter = t.counter;
            fs = t.fs;
            sec = t.sec;
            log = t.log;
            root = t.root;
            editor = t.editor;
            input = t.input;
          },
        ),
      )
