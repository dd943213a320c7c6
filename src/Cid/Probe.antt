-- ===== src/Cid/Probe.antt =====
-- What the probing loop of cid_allocator.go finds.
use spacetrek.Prelude.{
  ℕ, zero, suc, ◌+◌, ◌-◌, ◌%◌, ◌≤◌, ◌<◌, ◌≡◌, refl, ◌≢◌, ◌⊎◌, inl, inr, Bool, true, false, Option,
  none, some, Text, is_empty, arith,
}
use native.Mathlib.Decide.{dec_le}
use spacetrek.Fnv.{u32_mod}
use spacetrek.Cid.{
  ok, CidInUse, add32, sub32, hash_vm_id, range_size, candidate, probe, allocate_cid,
}

range_size_lem : (lo hi : ℕ) → 3 ≤ lo → lo ≤ hi → hi < u32_mod → range_size lo hi ≡ hi - lo + 1
unfolding range_size
range_size_lem lo hi a b c = omega arith

-- Every candidate lies in the range, also where the sum of offsets wraps.
candidate-InRange :
    (lo hi size start i : ℕ)
    → lo ≤ hi
    → hi < u32_mod
    → size ≡ hi - lo + 1
    → (lo ≤ candidate lo size start i) × (candidate lo size start i ≤ hi)
unfolding candidate
candidate-InRange lo hi size start i a b e =
    let small : add32 (sub32 start lo) i % size < size = grind arith in omega arith

answer-cases : (r : Option Bool) → (r ≡ none) ⊎ (r ≡ some true) ⊎ (r ≡ some false)
answer-cases none = inl refl
answer-cases (some true) = inr (inl refl)
answer-cases (some false) = inr (inr refl)

probe_ok :
    (in_use : CidInUse) (lo hi size start n i c : ℕ)
    → probe in_use lo hi size start n i ≡ ok c
    → (k : ℕ) × (c ≡ candidate lo size start k) × (in_use c ≡ some false)
unfolding probe
probe_ok in_use lo hi size start zero i c h = absurd (cc)
probe_ok in_use lo hi size start (suc n) i c h =
    elim (answer-cases (in_use (candidate lo size start i))) [
      | inl e ↦ absurd (ground arith)
      | inr (inl e) ↦ probe_ok in_use lo hi size start n (i + 1) c (ground arith)
      | inr (inr e) ↦ (i, ground arith, ground arith)
    ]

-- A callback that never fails.
abbrev pub Answers : CidInUse → Type 0
Answers in_use = (c : ℕ) → in_use c ≢ none

-- A free candidate within the rounds left is enough for the loop to return one.
probe_finds :
    (in_use : CidInUse) (lo hi size start n i k : ℕ)
    → Answers in_use
    → i ≤ k
    → k < i + n
    → in_use (candidate lo size start k) ≡ some false
    → (c : ℕ) × (probe in_use lo hi size start n i ≡ ok c)
unfolding probe
probe_finds in_use lo hi size start zero i k a p q free = absurd (omega arith)
probe_finds in_use lo hi size start (suc n) i k a p q free =
    elim (answer-cases (in_use (candidate lo size start i))) [
      | inl e ↦ absurd (a (candidate lo size start i) e)
      | inr (inl e) ↦
          let (c, found) =
            probe_finds in_use lo hi size start n (i + 1) k a (ground arith) (omega arith) free in
          (c, ground arith)
      | inr (inr e) ↦ (candidate lo size start i, ground arith)
    ]

probe_first :
    (in_use : CidInUse) (lo hi size start n : ℕ)
    → in_use (candidate lo size start 0) ≡ some false
    → probe in_use lo hi size start (suc n) 0 ≡ ok (candidate lo size start 0)
unfolding probe
probe_first in_use lo hi size start n free = ground arith

-- The round that looks at the CID `c`, when the offset of the start is `off`.
abbrev round_of : ℕ → ℕ → ℕ → ℕ
round_of size off d = (d + size - off) % size

mod_small : (a n : ℕ) → a < n → a % n ≡ a
mod_small a n h = grind arith

mod_wrap : (a n : ℕ) → a < n → (a + n) % n ≡ a
mod_wrap a n h = grind arith

-- From the offset `off` that many rounds lead to `d`, with or without passing the end.
round_of-lands : (off size d : ℕ) → off < size → d < size → (off + round_of size off d) % size ≡ d
round_of-lands off size d p q = elim (dec_le off d) [
  | yes le ↦
      let e : d + size - off ≡ (d - off) + size = omega arith in
      rw (e, mod_wrap (d - off) size (omega arith))
        (let f : off + (d - off) ≡ d = omega arith in rw f (mod_small d size q))
  | no gt ↦
      rw (mod_small (d + size - off) size (omega arith))
        (let f : off + (d + size - off) ≡ d + size = omega arith in rw f (mod_wrap d size q))
]

round_of-lt : (off size d : ℕ) → off < size → round_of size off d < size
round_of-lt off size d p = grind arith

-- Up to a range of 2^31 the sum of offsets does not wrap, and each CID has its round.
candidate-round_of :
    (lo hi off size d : ℕ)
    → lo + size ≡ hi + 1
    → hi < u32_mod
    → size ≤ 2147483648
    → off < size
    → d < size
    → candidate lo size (add32 lo off) (round_of size off d) ≡ lo + d
unfolding candidate
candidate-round_of lo hi off size d e b s p q =
    let start : sub32 (add32 lo off) lo ≡ off = omega arith in
    let sum : add32 off (round_of size off d) ≡ off + round_of size off d =
      omega (arith, round_of-lt off size d p) in
    rw (start, sum, round_of-lands off size d p q) (omega arith)

-- An allocated CID lies in the configured range, and the callback said that it is free.
pub allocate_cid-ok :
    (vm_id : Text) (lo hi c : ℕ) (in_use : CidInUse)
    → hi < u32_mod
    → allocate_cid vm_id lo hi (some in_use) ≡ ok c
    → (lo ≤ c) × (c ≤ hi) × (in_use c ≡ some false)
unfolding allocate_cid
allocate_cid-ok vm_id lo hi c in_use b h =
    let size = range_size lo hi in
    let start = add32 lo (hash_vm_id vm_id % size) in
    let g : 3 ≤ lo × (lo ≤ hi) × (probe in_use lo hi size start size 0 ≡ ok c) =
      (ground arith, ground arith, ground arith) in
    let (k, e, free) = probe_ok in_use lo hi size start size 0 c g.2 in
    let bounds = candidate-InRange lo hi size start k g.1 b (range_size_lem lo hi g.0 g.1 b) in
    (omega (arith, e, bounds), omega (arith, e, bounds), free)

-- In a range of at most 2^31 CIDs, with a callback that never fails, the allocation fails only if
-- every CID of the range is taken: one free CID, wherever it is, is enough.
pub allocate_cid_finds :
    (vm_id : Text) (lo hi c : ℕ) (in_use : CidInUse)
    → is_empty vm_id ≡ false
    → 3 ≤ lo
    → hi < u32_mod
    → hi - lo < 2147483648
    → Answers in_use
    → lo ≤ c
    → c ≤ hi
    → in_use c ≡ some false
    → (found : ℕ) × (allocate_cid vm_id lo hi (some in_use) ≡ ok found)
unfolding allocate_cid
allocate_cid_finds vm_id lo hi c in_use named low b small a p q free =
    let size = range_size lo hi in
    let size_lem = range_size_lem lo hi low (omega arith) b in
    let off = hash_vm_id vm_id % size in
    let off-lt : off < size = grind (arith, size_lem) in
    let at : candidate lo size (add32 lo off) (round_of size off (c - lo)) ≡ lo + (c - lo) =
      candidate-round_of lo hi off size (c - lo) (omega arith) b (omega arith) off-lt
        (omega arith) in
    let eq : lo + (c - lo) ≡ c = omega arith in
    let (found, e) =
      probe_finds in_use lo hi size (add32 lo off) size 0 (round_of size off (c - lo)) a
        (omega arith) (omega (arith, round_of-lt off size (c - lo) off-lt)) (rw (at, eq) free) in
    (found, ground arith)
