-- ===== src/Fetch/Client/Dialed.antt =====
-- Which addresses `SafeClient` of internal/fetch/fetch.go connects to.
use red_engine.Prelude.{
  ◌≡◌, refl, inl, inr, false, Option, none, some, List, [], ◌∷◌, arith, any, All, Bool-cases,
}
use red_engine.Go.Ip.{Ip}
use red_engine.Fetch.Client.{is_blocked, dial_address}

All-of_any : (ips : List Ip) → any is_blocked ips ≡ false → All (λ ip. is_blocked ip ≡ false) ips
All-of_any [] h = tt
All-of_any (ip ∷ ips) h = (ground arith, All-of_any ips (ground arith))

-- SafeClient connects to an address only if the lookup gave it first and each address that the
-- lookup gave is outside the loopback, private, link-local, multicast and unspecified ranges, so
-- that a name with one address in them is refused as a whole.
pub dial_address-All :
    (found : Option (List Ip)) (ip : Ip)
    → dial_address found ≡ some ip
    → (ips : List Ip) × (found ≡ some (ip ∷ ips)) × All (λ i. is_blocked i ≡ false) (ip ∷ ips)
unfolding dial_address
dial_address-All none ip h = cc h
dial_address-All (some []) ip h = cc h
dial_address-All (some (i ∷ ips)) ip h = elim (Bool-cases (any is_blocked (i ∷ ips))) [
  | inl e ↦ absurd (ground (arith, e))
  | inr e ↦
      let same : i ≡ ip = ground (arith, e) in
      (ips, rw same refl, rw same at (All-of_any (i ∷ ips) e))
]
