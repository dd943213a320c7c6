-- ===== src/Service/Ips/Order.antt =====
-- Addresses as numbers: nextIP of src/service/vm/service.go.
use native.Mathlib.Nat.{pow-succ', suc-mul, mul-le-mul_right}
use spacetrek.Prelude.{
  ℕ, ◌+◌, ◌*◌, ◌%◌, ◌^◌, ◌<◌, ◌≤◌, ◌≡◌, refl, sym, [], ◌∷◌, length, ◌==◌, if◌then◌else◌, arith, All,
  Bool-cases, inl, inr,
}
use spacetrek.Service.Ips.{Ip, carry, next_ip}

-- An address as a number, most significant byte first.
abbrev pub value : Ip → ℕ
value [] = 0
value (b ∷ bs) = b * 256 ^ length bs + value bs

length-carry : (bs : Ip) → length (carry bs).0 ≡ length bs
unfolding carry
length-carry [] = refl
length-carry (b ∷ bs) = ground (arith, length-carry bs)

-- One byte on top of a carry.
byte_carry :
    (b p v w : ℕ)
    → b < 256
    → w + p ≡ v + 1
    → ((b + 1) % 256) * p + w + (if b + 1 == 256 then 256 * p else 0) ≡ b * p + v + 1
byte_carry b p v w small e = elim (Bool-cases (b + 1 == 256)) [
  | inl full ↦ let last : b ≡ 255 = ground arith in rw (full, last) (omega (arith, e))
  | inr more ↦ let next : (b + 1) % 256 ≡ b + 1 = ground arith in rw (more, next) (grind (arith, e))
]

-- The bytes as a number grow by one, modulo the carry out of them.
carry_lem :
    (bs : Ip)
    → All (λ b. b < 256) bs
    → value (carry bs).0 + (if (carry bs).1 then 256 ^ length bs else 0) ≡ value bs + 1
unfolding carry
carry_lem [] h = refl
carry_lem (b ∷ bs) (small, h) =
    let rest = carry_lem bs h in
    elim (Bool-cases (carry bs).1) [
      | inr no_carry ↦ rw (no_carry, carry, length-carry bs) (ground (arith, rest))
      | inl carried ↦
          let step =
            byte_carry b (256 ^ length bs) (value bs) (value (carry bs).0) small
              (rw carried at rest) in
          rw (carried, carry, length-carry bs, pow-succ' 256 (length bs)) step
    ]

abbrev pub IsBytes : Ip → Type 0
IsBytes ip = All (λ b. b < 256) ip

-- The next address is the number and one, below the last address of all.
pub next_ip_lem :
    (ip : Ip) → IsBytes ip → value ip + 1 < 256 ^ length ip → value (next_ip ip) ≡ value ip + 1
unfolding next_ip
next_ip_lem ip h below =
    let summed = carry_lem ip h in
    elim (Bool-cases (carry ip).1) [
      | inr stays ↦ ground (arith, summed)
      | inl over ↦ absurd (ground (arith, summed))
    ]

pub length-next_ip : (ip : Ip) → length (next_ip ip) ≡ length ip
unfolding next_ip
length-next_ip ip = length-carry ip

pub next_ip-IsBytes : (ip : Ip) → IsBytes ip → IsBytes (next_ip ip)
unfolding next_ip carry
next_ip-IsBytes [] h = tt
next_ip-IsBytes (b ∷ bs) (small, h) = elim (Bool-cases (carry bs).1) [
  | inl over ↦ rw (over, next_ip, carry) (ground arith, next_ip-IsBytes bs h)
  | inr stays ↦ rw (stays, next_ip, carry) (small, next_ip-IsBytes bs h)
]

pub value_bound : (ip : Ip) → IsBytes ip → value ip < 256 ^ length ip
value_bound [] h = ground arith
value_bound (b ∷ bs) (small, h) =
    let top : b ≤ 255 = omega (arith, small) in
    rw (pow-succ' 256 (length bs))
      (omega (arith, value_bound bs h, mul-le-mul_right (256 ^ length bs) top))

-- The leading byte of a number.
same_byte : (b c p v w : ℕ) → v < p → w < p → b * p + v ≡ c * p + w → ¬ (b < c)
same_byte b c p v w hv hw e less =
    absurd (omega (arith, e, hv, hw, suc-mul b p, mul-le-mul_right p less))

-- Two addresses of a length with the same number are the same.
pub value_inj : (a b : Ip) → IsBytes a → IsBytes b → length a ≡ length b → value a ≡ value b → a ≡ b
value_inj [] [] ha hb same e = refl
value_inj [] (c ∷ cs) ha hb same e = absurd (omega (arith, same))
value_inj (b ∷ bs) [] ha hb same e = absurd (omega (arith, same))
value_inj (b ∷ bs) (c ∷ cs) (hb, hbs) (hc, hcs) same e =
    let lengths : length bs ≡ length cs = omega (arith, same) in
    let p = 256 ^ length cs in
    let e' : b * p + value bs ≡ c * p + value cs = rw lengths at e in
    let vb : value bs < p = rw lengths at (value_bound bs hbs) in
    let vc = value_bound cs hcs in
    let b_not_less = same_byte b c p (value bs) (value cs) vb vc e' in
    let c_not_less = same_byte c b p (value cs) (value bs) vc vb (sym e') in
    let heads : b ≡ c = omega (arith, b_not_less, c_not_less) in
    let tails = value_inj bs cs hbs hcs lengths (ground (arith, e', heads)) in
    ground (arith, heads, tails)
