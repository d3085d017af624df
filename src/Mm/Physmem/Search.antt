-- ===== src/Mm/Physmem/Search.antt =====
-- `first_free_frame` finds the lowest free frame.
use hypnos.Base.{
  ℕ, zero, suc, ◌+◌, ◌-◌, ◌*◌, ◌/◌, ◌%◌, ◌≤◌, ◌<◌, ◌≡◌, true, false, Option, none, some, arith,
  ◌==◌, Bool-cases, inl, inr, get_or,
}
use hypnos.Base.Bits.{bit-ones}
use native.Mathlib.Decide.{dec_lt}
use native.Mathlib.Nat.{add-zero}
use hypnos.Base.{ltb, lt→ltb, ==_iff}
use hypnos.Mm.Physmem.{
  Bitmap, num_words, max_frames, scan_bits, scan_words, or_else, first_free_frame,
}
use hypnos.Mm.Physmem.View.{used, test_frame-eq-zero}

-- The result of a search of the frames from `lo` up to `hi`.
abbrev pub Lowest : ℕ → ℕ → Bitmap → Option ℕ → Type 0
Lowest lo hi bm none = (g : ℕ) → lo ≤ g → g < hi → used bm g ≡ true
Lowest lo hi bm (some f) =
    (lo ≤ f) × (f < hi) × (used bm f ≡ false) × ((g : ℕ) → lo ≤ g → g < f → used bm g ≡ true)

Lowest-or_else :
    (lo mid hi : ℕ) (bm : Bitmap) (o p : Option ℕ)
    → lo ≤ mid
    → mid ≤ hi
    → Lowest lo mid bm o
    → Lowest mid hi bm p
    → Lowest lo hi bm (or_else o p)
unfolding or_else
Lowest-or_else lo mid hi bm (some f) p a b x y = (x.0, omega arith, x.2, x.3)
Lowest-or_else lo mid hi bm none none a b x y =
    λ g l h. elim (dec_lt g mid) [ yes q ↦ x g l q | no q ↦ y g (omega arith) h ]
Lowest-or_else lo mid hi bm none (some f) a b x y = (
  omega arith,
  y.1,
  y.2,
  λ g l h. elim (dec_lt g mid) [ yes q ↦ x g l q | no q ↦ y.3 g (omega arith) h ],
)

Lowest-skip :
    (lo hi : ℕ) (bm : Bitmap) (o : Option ℕ)
    → used bm lo ≡ true
    → Lowest (suc lo) hi bm o
    → Lowest lo hi bm o
Lowest-skip lo hi bm none u x =
    λ g l h. elim (dec_lt lo g) [ yes q ↦ x g q h | no q ↦ let e : g ≡ lo = omega arith in rw e u ]
Lowest-skip lo hi bm (some f) u x = (
  omega arith,
  x.1,
  x.2,
  λ g l h. elim (dec_lt lo g) [ yes q ↦ x.3 g q h | no q ↦ let e : g ≡ lo = omega arith in rw e u ],
)

scan_bits-Lowest :
    (bm : Bitmap) (i rounds : ℕ)
    → i < num_words
    → rounds ≤ 32
    → Lowest (i * 32 + (32 - rounds)) (i * 32 + 32) bm (scan_bits bm i rounds)
unfolding scan_bits
scan_bits-Lowest bm i zero hi hr = λ g l h. absurd (omega arith)
scan_bits-Lowest bm i (suc r) hi hr =
    let lo : ℕ = i * 32 + (31 - r) in
    let below : ltb lo max_frames ≡ true = lt→ltb lo max_frames (omega arith) in
    let start : i * 32 + (32 - suc r) ≡ lo = omega arith in
    let next : i * 32 + (32 - r) ≡ suc lo = omega arith in
    let rest = scan_bits-Lowest bm i r hi (omega arith) in
    elim (Bool-cases (used bm lo)) [
      | inl u ↦
          rw (start, below, test_frame-eq-zero, u)
            (Lowest-skip lo (i * 32 + 32) bm (scan_bits bm i r) u (rw next at rest))
      | inr u ↦
          rw (start, below, test_frame-eq-zero, u)
            (omega arith, omega arith, u, λ g l h. absurd (omega arith))
    ]

word_full :
    (bm : Bitmap) (i g : ℕ)
    → get_or bm i 0 ≡ 0xFFFFFFFF
    → i * 32 ≤ g
    → g < i * 32 + 32
    → used bm g ≡ true
unfolding used
word_full bm i g e lo hi =
    let q : g / 32 ≡ i = omega arith in rw (q, e, bit-ones 32 (g % 32) (omega arith))

scan_words-Lowest :
    (bm : Bitmap) (rounds : ℕ)
    → rounds ≤ num_words
    → Lowest ((num_words - rounds) * 32) max_frames bm (scan_words bm rounds)
unfolding scan_words
scan_words-Lowest bm zero h = λ g l k. absurd (omega arith)
scan_words-Lowest bm (suc r) h =
    let i : ℕ = num_words - suc r in
    let end : i * 32 + 32 ≡ (num_words - r) * 32 = omega arith in
    let rest = scan_words-Lowest bm r (omega arith) in
    let bits = scan_bits-Lowest bm i 32 (omega arith) (omega arith) in
    elim (Bool-cases (get_or bm i 0 == 0xFFFFFFFF)) [
      | inl full ↦ rw full (
          Lowest-or_else (i * 32) (i * 32 + 32) max_frames bm none (scan_words bm r) (omega arith)
            (omega arith) (λ g l k. word_full bm i g ((==_iff _ _).0 full) l k)
            (rw (← end) at rest))
      | inr room ↦ rw room (
          Lowest-or_else (i * 32) (i * 32 + 32) max_frames bm (scan_bits bm i 32) (scan_words bm r)
            (omega arith) (omega arith) (rw (add-zero (i * 32)) at bits) (rw (← end) at rest))
    ]

-- The search covers all frames: it gives the lowest free one, or none when all are used.
pub first_free_frame-Lowest : (bm : Bitmap) → Lowest 0 max_frames bm (first_free_frame bm)
unfolding first_free_frame
first_free_frame-Lowest bm = scan_words-Lowest bm num_words (omega arith)
