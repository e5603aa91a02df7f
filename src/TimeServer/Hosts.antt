-- ===== src/TimeServer/Hosts.antt =====
-- The names of the hosts and their addresses.
use network_programming.Base.{
  ℕ, zero, suc, ◌≤◌, some, ◌++◌, Bytes, text, atoi, decimal, ◌≡◌, refl, arith,
}
use network_programming.Odr.Local.{ip_to_vm}
use network_programming.TimeServer.{set_ip}

-- The name of host number `n`.
abbrev pub vm : ℕ → Bytes
vm n = text "vm" ++ decimal n

-- From 1 to 10, the address that `set_ip` gives to a host's name is one that `ip_to_vm` takes back to
-- that name.
ip_to_vm-set_ip :
    (n : ℕ) → 1 ≤ n → n ≤ 10 → (ip : Bytes) × (set_ip (vm n) ≡ some ip) × (ip_to_vm ip ≡ vm n)
unfolding set_ip ip_to_vm atoi decimal
ip_to_vm-set_ip zero l h = absurd (omega arith)
ip_to_vm-set_ip (suc zero) l h = (_, refl, refl)
ip_to_vm-set_ip (suc (suc zero)) l h = (_, refl, refl)
ip_to_vm-set_ip (suc (suc (suc zero))) l h = (_, refl, refl)
ip_to_vm-set_ip (suc (suc (suc (suc zero)))) l h = (_, refl, refl)
ip_to_vm-set_ip (suc (suc (suc (suc (suc zero))))) l h = (_, refl, refl)
ip_to_vm-set_ip (suc (suc (suc (suc (suc (suc zero)))))) l h = (_, refl, refl)
ip_to_vm-set_ip (suc (suc (suc (suc (suc (suc (suc zero))))))) l h = (_, refl, refl)
ip_to_vm-set_ip (suc (suc (suc (suc (suc (suc (suc (suc zero)))))))) l h = (_, refl, refl)
ip_to_vm-set_ip (suc (suc (suc (suc (suc (suc (suc (suc (suc zero))))))))) l h = (_, refl, refl)
ip_to_vm-set_ip (suc (suc (suc (suc (suc (suc (suc (suc (suc (suc zero)))))))))) l h =
    (_, refl, refl)
ip_to_vm-set_ip (suc (suc (suc (suc (suc (suc (suc (suc (suc (suc (suc n))))))))))) l h =
    absurd (omega arith)
