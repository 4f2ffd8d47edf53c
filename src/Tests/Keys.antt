-- ===== src/Tests/Keys.antt =====
-- The conversions of addresses to keys, and their theorems at concrete addresses.
use cillion.Base.{
  ℕ, ◌^◌, ◌<◌, nat_eq, string_eq, ℕ_discrete, ◌≡◌, ◌⊎◌, refl, none, some, List, [], ◌∷◌,
}
use cillion.Bpf.Key.{little, big, to4, uint32, key, not_ipv4, ip_to_key, ip_from_key}
use cillion.Bpf.Key.Laws.{AreBytes, ip_to_key_lem}

key_little : ip_to_key little (10 ∷ 0 ∷ 1 ∷ 5 ∷ []) ≡ key 0x0501000a
unfolding ip_to_key to4 uint32 ℕ_discrete
key_little = refl

key_mapped :
    ip_to_key big (0 ∷ 0 ∷ 0 ∷ 0 ∷ 0 ∷ 0 ∷ 0 ∷ 0 ∷ 0 ∷ 0 ∷ 255 ∷ 255 ∷ 10 ∷ 0 ∷ 1 ∷ 5 ∷ [])
    ≡ key 0x0a000105
unfolding ip_to_key to4 uint32 ℕ_discrete
key_mapped = refl

key_short : ip_to_key little (10 ∷ 0 ∷ []) ≡ not_ipv4
unfolding ip_to_key to4 uint32 ℕ_discrete
key_short = refl

ip_to_key_lem_example :
    ((ip : List ℕ)
      → AreBytes ip
      → ((to4 ip ≡ none) × (ip_to_key little ip ≡ not_ipv4))
        ⊎ ((k : ℕ) × (to4 ip ≡ some (ip_from_key little k))
            × (ip_to_key little ip ≡ key k)
            × (k < 2 ^ 32)))
    × ((k : ℕ) → k < 2 ^ 32 → ip_to_key little (ip_from_key little k) ≡ key k)
ip_to_key_lem_example = ip_to_key_lem little

abbrev pub pod_ip : List ℕ
pod_ip = 10 ∷ 0 ∷ 1 ∷ 5 ∷ []

abbrev mapped_ip : List ℕ
mapped_ip = 0 ∷ 0 ∷ 0 ∷ 0 ∷ 0 ∷ 0 ∷ 0 ∷ 0 ∷ 0 ∷ 0 ∷ 255 ∷ 255 ∷ pod_ip
