-- ===== src/Service/Ips/Free.antt =====
-- Which address the allocator of src/service/vm/service.go finds.
use spacetrek.Prelude.{
  ℕ, zero, suc, ◌+◌, ◌<◌, ◌≤◌, ◌≡◌, ◌≢◌, refl, sym, ap, ◌∙◌, true, false, List, Option, none, some,
  Text, text_eq, text_eq_iff, length, arith, Bool-cases, inl, inr, ◌⊎◌,
}
use spacetrek.Service.Ips.{Ip, next_ip, ip_eq, in_use, find_free}
use spacetrek.Service.Ips.Order.{
  value, IsBytes, next_ip_lem, length-next_ip, next_ip-IsBytes, value_bound, value_inj,
}

module _ (show : Ip → Text) (used : List Text) (end : Ip) (end_bytes : IsBytes end) where
  -- The address stands between two numbers, in the format of the last address.
  abbrev IsIn : ℕ → Ip → Type 0
  IsIn from ip = IsBytes ip × (length ip ≡ length end) × (from ≤ value ip) × (value ip ≤ value end)

  -- A walk that starts with that number ends with a free address of the range, or all are in use.
  abbrev Found : ℕ → Option Ip → Type 0
  Found from (some a) = (in_use (show a) used ≡ false) × IsIn from a
  Found from none = (a : Ip) → IsIn from a → in_use (show a) used ≡ true

  Found-later :
      (n m : ℕ) (ip : Ip) (o : Option Ip)
      → n ≤ m
      → ((a : Ip) → IsIn n a → (m ≤ value a) ⊎ (in_use (show a) used ≡ true))
      → Found m o
      → Found n o
  Found-later n m ip (some a) le gap (free, (bytes, size, low, high)) =
      (free, (bytes, size, omega (arith, le, low), high))
  Found-later n m ip none le gap h = λ a inside. elim (gap a inside) [
    | inl late ↦ h a (inside.0, inside.1, late, inside.3)
    | inr taken ↦ taken
  ]

  only_end :
      {n : ℕ} (a : Ip)
      → IsIn n a
      → n ≡ value end
      → in_use (show end) used ≡ true
      → in_use (show a) used ≡ true
  only_end a (bytes, size, low, high) level taken =
      let same = value_inj a end bytes end_bytes size (omega (arith, low, high, level)) in
      rw same taken

  -- Short of the last address, the next one is one further.
  step :
      (ip : Ip)
      → IsIn 0 ip
      → text_eq ip end ≡ false
      → (value (next_ip ip) ≡ value ip + 1) × IsIn 0 (next_ip ip)
  step ip (bytes, size, low, high) before =
      let other : value ip ≢ value end =
        λ e. ground (arith, value_inj ip end bytes end_bytes size e, text_eq_iff ip end) in
      let top = value_bound end end_bytes in
      let up = next_ip_lem ip bytes (rw size (omega (arith, other, high, top))) in
      (
        up,
        (
          next_ip-IsBytes ip bytes,
          length-next_ip ip ∙ size,
          omega arith,
          omega (arith, up, other, high),
        ),
      )

  passed :
      (ip a : Ip)
      → IsIn 0 ip
      → IsIn (value ip) a
      → value (next_ip ip) ≡ value ip + 1
      → in_use (show ip) used ≡ true
      → (value (next_ip ip) ≤ value a) ⊎ (in_use (show a) used ≡ true)
  passed ip a (bytes, size, low, high) (bytes', size', low', high') up taken =
      elim (Bool-cases (text_eq a ip)) [
        | inl same ↦ inr (rw ((text_eq_iff a ip).0 same) taken)
        | inr apart ↦
            let other : value a ≢ value ip = λ e.
              ground (arith, value_inj a ip bytes' bytes (size' ∙ sym size) e, text_eq_iff a ip) in
            inl (omega (arith, up, other, low'))
      ]

  walk-Found :
      (fuel : ℕ) (ip : Ip)
      → IsIn 0 ip
      → value end < value ip + fuel
      → (o : Option Ip) × (find_free fuel show used ip end ≡ some o) × Found (value ip) o
  unfolding find_free ip_eq
  walk-Found zero ip h short = absurd (omega (arith, h, short))
  walk-Found (suc fuel) ip h short = elim (Bool-cases (text_eq ip end)) [
    | inl last ↦
        let q = (text_eq_iff ip end).0 last in
        let level : value ip ≡ value end = ap value q in
        elim (Bool-cases (in_use (show end) used)) [
          | inl taken ↦ (none, ground arith, λ a inside. only_end a inside level taken)
          | inr free ↦
              (some end, ground arith, (free, (end_bytes, refl, omega (arith, level), omega arith)))
        ]
    | inr before ↦ elim (Bool-cases (in_use (show ip) used)) [
      | inr free ↦ (some ip, ground arith, (free, (h.0, h.1, omega arith, h.3)))
      | inl taken ↦
          let (up, inside) = step ip h before in
          let (o, walked, found) = walk-Found fuel (next_ip ip) inside (omega (arith, up, short)) in
          (
            o,
            ground (arith, walked),
            Found-later (value ip) (value (next_ip ip)) ip o (omega (arith, up))
                (λ a q. passed ip a h q up taken) found,
          )
    ]
  ]

-- In a range, with fuel for each address of it: if some address of the range is not in use, the
-- search ends with an address of the range that is not in use.
pub find_free_lem :
    (fuel : ℕ) (show : Ip → Text) (used : List Text) (ip_start ip_end spare : Ip)
    → IsBytes ip_start
    → IsBytes ip_end
    → IsBytes spare
    → length ip_start ≡ length ip_end
    → length spare ≡ length ip_end
    → value ip_end < value ip_start + fuel
    → value ip_start ≤ value spare
    → value spare ≤ value ip_end
    → in_use (show spare) used ≡ false
    → (found : Ip) × (find_free fuel show used ip_start ip_end ≡ some (some found))
      × (in_use (show found) used ≡ false)
      × (value ip_start ≤ value found)
      × (value found ≤ value ip_end)
find_free_lem fuel show used ip_start ip_end spare hs he h size size' enough low high free = split (
    walk-Found show used ip_end he fuel ip_start (hs, size, omega arith, omega (arith, low, high))
      enough)
  where
    split :
        ((o : Option Ip) × (find_free fuel show used ip_start ip_end ≡ some o)
          × Found show used ip_end he (value ip_start) o)
        → (found : Ip) × (find_free fuel show used ip_start ip_end ≡ some (some found))
          × (in_use (show found) used ≡ false)
          × (value ip_start ≤ value found)
          × (value found ≤ value ip_end)
    split (some a, e, (unused, (bytes, same, from, to))) = (a, e, unused, from, to)
    split (none, e, all) = absurd (ground (arith, all spare (h, size', low, high), free))
