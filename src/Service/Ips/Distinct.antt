-- ===== src/Service/Ips/Distinct.antt =====
-- No two live VMs share an address: Allocate of src/service/vm/service.go.
use spacetrek.Prelude.{
  ℕ, zero, suc, ◌≡◌, ◌≢◌, ◌⊎◌, sym, subst, true, false, List, [], ◌∷◌, none, some, Text, text_eq,
  text_eq_iff, text_eq_refl, Dict, lookup, insert, values, lookup-insert, arith, Bool-cases,
  Option-cases, inl, inr,
}
use spacetrek.Exception.{ok}
use spacetrek.Vm.{Vm}
use spacetrek.VmRepo.{Repo}
use spacetrek.Service.Ips.{
  Ip, next_ip, ip_eq, in_use, find_free, get_allocated_ips, addresses, is_live, set_ip_address,
  allocate,
}

-- A live VM with the address stands under the key.
abbrev pub Has : Repo → Text → Text → Type 0
Has r k ip = (v : Vm) × (lookup k r.vms ≡ some v) × (is_live v ≡ true) × (v.ip_address ≡ some ip)

pub record IsApart (r : Repo) : Type 0 where
  pub apart : (k j ip : Text) → Has r k ip → Has r j ip → k ≡ j

in_use-addresses :
    (ip k : Text) (m : Dict Vm) (v : Vm)
    → lookup k m ≡ some v
    → v.ip_address ≡ some ip
    → is_live v ≡ true
    → in_use ip (addresses (values m)) ≡ true
unfolding in_use addresses lookup
in_use-addresses ip k [] v e q live = absurd (cc)
in_use-addresses ip k ((j, w) ∷ m) v e q live =
    ground (arith, text_eq_refl ip, in_use-addresses ip k m v)

find_free-unused :
    (fuel : ℕ) (show : Ip → Text) (used : List Text) (ip end found : Ip)
    → find_free fuel show used ip end ≡ some (some found)
    → in_use (show found) used ≡ false
unfolding find_free
find_free-unused zero show used ip end found e = absurd (cc)
find_free-unused (suc fuel) show used ip end found e = elim (Bool-cases (ip_eq ip end)) [
  | inl last ↦ ground arith
  | inr before ↦ elim (Bool-cases (in_use (show ip) used)) [
    | inl taken ↦ find_free-unused fuel show used (next_ip ip) end found (ground arith)
    | inr free ↦ ground arith
  ]
]

-- What an allocation that succeeds has done.
allocate_cases :
    (fuel : ℕ) (show : Ip → Text) (ip_start ip_end : Ip) (id ip : Text) (r r' : Repo)
    → allocate fuel show ip_start ip_end id r ≡ some (ok (ip, r'))
    → (v : Vm) × (lookup id r.vms ≡ some v)
      × (in_use ip (get_allocated_ips r) ≡ false)
      × (r' ≡ record r { vms = insert id (record v { ip_address = some ip }) r.vms })
unfolding allocate set_ip_address
allocate_cases fuel show ip_start ip_end id ip r r' e =
    elim (Option-cases (find_free fuel show (get_allocated_ips r) ip_start ip_end)) [
      | inl out ↦ absurd (ground arith)
      | inr (none, exhausted) ↦ absurd (ground arith)
      | inr (some a, found) ↦ elim (Option-cases (lookup id r.vms)) [
        | inl gone ↦ absurd (ground arith)
        | inr (v, at) ↦
            let text : ip ≡ show a = ground arith in
            let unused = find_free-unused fuel show (get_allocated_ips r) ip_start ip_end a found in
            (v, at, rw text unused, ground arith)
      ]
    ]

-- If no two live VMs had the same address, none have after an allocation that succeeds, whatever
-- the range and the VM.
pub allocate-IsApart :
    (fuel : ℕ) (show : Ip → Text) (ip_start ip_end : Ip) (id ip : Text) (r r' : Repo)
    → allocate fuel show ip_start ip_end id r ≡ some (ok (ip, r'))
    → IsApart r
    → IsApart r'
allocate-IsApart fuel show ip_start ip_end id ip r r' e h =
    let (v, at, unused, put) = allocate_cases fuel show ip_start ip_end id ip r r' e in
    subst (λ s. IsApart s) (sym put) (record { apart = λ k j a x y. joined v at unused k j a x y })
  where
    put_repo : Vm → Repo
    put_repo v = record r { vms = insert id (record v { ip_address = some ip }) r.vms }

    -- A live VM of the new repository is the one that got the address, or was there.
    old :
        (v : Vm) (k a : Text)
        → Has (put_repo v) k a
        → ((k ≡ id) × (a ≡ ip)) ⊎ (Has r k a × (k ≢ id))
    old v k a (u, found, live, q) = elim (Bool-cases (text_eq id k)) [
      | inl same ↦ inl (
        sym ((text_eq_iff id k).0 same),
        ground (arith, lookup-insert id k (record v { ip_address = some ip }) r.vms),
      )
      | inr other ↦ inr (
        (u, ground (arith, lookup-insert id k (record v { ip_address = some ip }) r.vms), live, q),
        λ e. ground (arith, text_eq_iff id k),
      )
    ]

    clash : (k a : Text) → in_use ip (get_allocated_ips r) ≡ false → Has r k a → a ≡ ip → ⊥
    clash k a unused (u, found, live, q) e =
        let listed : in_use a (get_allocated_ips r) ≡ true =
          unfold get_allocated_ips in (in_use-addresses a k r.vms u found q live) in
        ground arith

    joined :
        (v : Vm)
        → lookup id r.vms ≡ some v
        → in_use ip (get_allocated_ips r) ≡ false
        → (k j a : Text) → Has (put_repo v) k a
        → Has (put_repo v) j a
        → k ≡ j
    joined v at unused k j a x y = elim (old v k a x) [
      | inl (kid, new) ↦ elim (old v j a y) [
        | inl (jid, _) ↦ ground arith
        | inr (there, _) ↦ absurd (clash j a unused there new)
      ]
      | inr (there, _) ↦ elim (old v j a y) [
        | inl (jid, new) ↦ absurd (clash k a unused there new)
        | inr (there', _) ↦ h.apart k j a there there'
      ]
    ]
