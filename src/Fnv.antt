-- ===== src/Fnv.antt =====
-- `hash/fnv`: 32-bit FNV-1a over bytes, as `hashVMID` of src/infrastructure/vm/firecracker/cid_allocator.go
-- and `suffix` of src/core/domain/vm/naming/generator.go call it.
use Prim.Native.Nat.{bit_xor}
use spacetrek.Prelude.{ℕ, ◌*◌, ◌%◌, ◌<◌, [], ◌∷◌, Text, arith}

abbrev pub u32_mod : ℕ
u32_mod = 4294967296

sum_from : ℕ → Text → ℕ
sum_from h [] = h
sum_from h (b ∷ bs) = sum_from (bit_xor h b * 16777619 % u32_mod) bs

unfoldable pub fnv1a32 : Text → ℕ
unfolding sum_from
fnv1a32 s = sum_from 2166136261 s

sum_from-lt : (h : ℕ) (s : Text) → h < u32_mod → sum_from h s < u32_mod
unfolding sum_from
sum_from-lt h [] p = p
sum_from-lt h (b ∷ bs) p = sum_from-lt (bit_xor h b * 16777619 % u32_mod) bs (omega arith)

pub fnv1a32-lt : (s : Text) → fnv1a32 s < u32_mod
unfolding fnv1a32
fnv1a32-lt s = sum_from-lt 2166136261 s (omega arith)
