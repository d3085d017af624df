-- ===== src/Fs/Shape/Count.antt =====
-- A list of siblings is no longer than the store.
use hypnos.Base.{
  ==_iff, ℕ, zero, suc, ◌+◌, ◌<◌, ◌≤◌, ◌≡◌, refl, ap, true, false, some, List, [], ◌∷◌, arith, ◌==◌,
  length, All, if◌then◌else◌, Bool-cases, inl, inr, lt_of_get_elem?,
}
use hypnos.Fs.{FsNode, Ptr}
use hypnos.Fs.Shape.{has, Chain, Chain-unique}

abbrev pub NoRepeat : List ℕ → Type 0
NoRepeat [] = Unit
NoRepeat (x ∷ xs) = (has x xs ≡ false) × NoRepeat xs

without : ℕ → List ℕ → List ℕ
without i [] = []
without i (j ∷ js) = let rest = without i js in if i == j then js else j ∷ rest

length-without : (i : ℕ) (xs : List ℕ) → length xs ≤ length (without i xs) + 1
unfolding without
length-without i [] = omega arith
length-without i (x ∷ xs) = ground (arith, length-without i xs)

has-without : (i j : ℕ) (xs : List ℕ) → has j xs ≡ false → has j (without i xs) ≡ false
unfolding without
has-without i j [] h = refl
has-without i j (x ∷ xs) h = ground (arith, has-without i j xs)

NoRepeat-without : (i : ℕ) (xs : List ℕ) → NoRepeat xs → NoRepeat (without i xs)
unfolding without
NoRepeat-without i [] h = tt
NoRepeat-without i (x ∷ xs) h = elim (Bool-cases (i == x)) [
  | inl e ↦ rw e h.1
  | inr e ↦ rw e (has-without i x xs h.0, NoRepeat-without i xs h.1)
]

below_of_not_has :
    (n : ℕ) (xs : List ℕ) → has n xs ≡ false → All (λ x. x < suc n) xs → All (λ x. x < n) xs
below_of_not_has n [] h b = tt
below_of_not_has n (x ∷ xs) h b = (ground arith, below_of_not_has n xs (ground arith) b.1)

below-without :
    (n : ℕ) (xs : List ℕ) → NoRepeat xs → All (λ x. x < suc n) xs → All (λ x. x < n) (without n xs)
unfolding without
below-without n [] h b = tt
below-without n (x ∷ xs) h b = elim (Bool-cases (n == x)) [
  | inl e ↦ rw e (below_of_not_has n xs (ground arith) b.1)
  | inr e ↦ rw e (ground arith, below-without n xs h.1 b.1)
]

-- Distinct numbers below n are at most n.
pigeonhole : (n : ℕ) (xs : List ℕ) → NoRepeat xs → All (λ x. x < n) xs → length xs ≤ n
pigeonhole zero [] h b = omega arith
pigeonhole zero (x ∷ xs) h b = absurd (omega (arith, b.0))
pigeonhole (suc n) xs h b = omega (
  arith,
  length-without n xs,
  pigeonhole n (without n xs) (NoRepeat-without n xs h) (below-without n xs h b),
)

-- The part of a chain behind one of its nodes.
Chain-suffix :
    (ns : List FsNode) (p : Ptr) (i : ℕ) (xs : List ℕ)
    → Chain ns p xs
    → has i xs ≡ true
    → (ys : List ℕ) × Chain ns (some i) (i ∷ ys) × (length ys < length xs)
Chain-suffix ns p i [] c h = absurd (cc)
Chain-suffix ns p i (x ∷ xs) (e, (n, en, c)) h = elim (Bool-cases (i == x)) [
  | inl f ↦ (xs, (refl, (n, rw ((==_iff i x).0 f) en, c)), omega arith)
  | inr f ↦ let (ys, d, l) = Chain-suffix ns n.sibling i xs c (ground arith) in (ys, d, omega arith)
]

pub Chain-NoRepeat : (ns : List FsNode) (p : Ptr) (xs : List ℕ) → Chain ns p xs → NoRepeat xs
Chain-NoRepeat ns p [] c = tt
Chain-NoRepeat ns p (x ∷ xs) (e, (n, en, c)) = (
  elim (Bool-cases (has x xs)) [
    | inl h ↦
        let (ys, d, l) = Chain-suffix ns n.sibling x xs c h in
        let same = Chain-unique ns (some x) (x ∷ xs) (x ∷ ys) (refl, (n, en, c)) d in
        absurd (omega (arith, ap length same))
    | inr h ↦ h
  ],
  Chain-NoRepeat ns n.sibling xs c,
)

Chain-below :
    (ns : List FsNode) (p : Ptr) (xs : List ℕ) → Chain ns p xs → All (λ x. x < length ns) xs
Chain-below ns p [] c = tt
Chain-below ns p (x ∷ xs) (e, (n, en, c)) =
    (lt_of_get_elem? ns x n en, Chain-below ns n.sibling xs c)

-- Every chain of siblings is at most as long as the store.
pub length-Chain :
    (ns : List FsNode) (p : Ptr) (xs : List ℕ) → Chain ns p xs → length xs ≤ length ns
length-Chain ns p xs c =
    pigeonhole (length ns) xs (Chain-NoRepeat ns p xs c) (Chain-below ns p xs c)
