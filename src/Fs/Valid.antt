-- ===== src/Fs/Valid.antt =====
-- Well-formed states of the filesystem, and calls that return on them.
pub mod Lookup
pub mod Tests
use hypnos.Base.{ℕ, ◌<◌, ◌≤◌, ◌≡◌, refl, Option, none, some, List, arith, length}
use hypnos.Fs.{Fs, FsNode, Ptr}
use hypnos.Fs.Monad.{FsM, and_then}
use hypnos.Fs.Shape.{Shape}

-- The call returns, without a fault and without end-less loop, with a result and state of which `P`
-- holds.
pub data Returns {A : Type 0} (P : A → Fs → Type 0) : Option (A × Fs) → Type 0 where
  returns : {a : A} {s : Fs} → P a s → Returns P (some (a, s))

module _ {A B : Type 0} {P : A → Fs → Type 0} {Q : B → Fs → Type 0} where
  pub bind :
      {o : Option (A × Fs)} {f : A → FsM B}
      → Returns P o
      → ((a : A) (s : Fs) → P a s → Returns Q (f a s))
      → Returns Q (and_then o f)
  bind (returns p) next = next _ _ p

module _ {A : Type 0} {P Q : A → Fs → Type 0} where
  pub mono : {o : Option (A × Fs)} → Returns P o → ((a : A) (s : Fs) → P a s → Q a s) → Returns Q o
  mono (returns p) weaken = returns (weaken _ _ p)

-- A call that returns with two properties.
pub both :
    {A : Type 0} {P Q : A → Fs → Type 0} {o : Option (A × Fs)}
    → Returns P o
    → Returns Q o
    → Returns (λ a s. P a s × Q a s) o
both (returns p) (returns q) = returns (p, q)

-- The result and the state of a call that returns.
pub outcome :
    {A : Type 0} {P : A → Fs → Type 0} {o : Option (A × Fs)}
    → Returns P o
    → (a : A) × ((s : Fs) × ((o ≡ some (a, s)) × P a s))
outcome (returns p) = (_, (_, (refl, p)))

-- A pointer that can be followed.
abbrev pub IsNode : Fs → Ptr → Type 0
IsNode s none = ⊥
IsNode s (some i) = i < length s.nodes

-- A pointer that is null or can be followed.
abbrev pub IsNullOrNode : Fs → Ptr → Type 0
IsNullOrNode s none = Unit {0}
IsNullOrNode s (some i) = i < length s.nodes

-- The root and the current directory exist, a cipher key is set, and the lists of children are those of `kids`.
pub record IsValid (kids : ℕ → List ℕ) (s : Fs) : Type 0 where
  pub shape : Shape s.nodes kids
  pub root_in : IsNode s s.root
  pub cwd_in : IsNode s s.cwd
  pub keyed : 0 < length s.key

-- A well-formed state with all nodes of `s` and perhaps more.
abbrev pub Grown : Fs → Fs → Type 0
Grown s s' = ((kids : ℕ → List ℕ) × IsValid kids s') × (length s.nodes ≤ length s'.nodes)

-- The call returns on every well-formed filesystem and keeps it well formed, with all its nodes.
abbrev pub Keeps : {A : Type 0} → FsM A → Type 0
Keeps m = (kids : ℕ → List ℕ) (s : Fs) → IsValid kids s → Returns (λ a s'. Grown s s') (m s)
