-- ===== src/Bpf/Key.antt =====
-- pkg/bpf/types.go: IPv4 addresses as map keys. A byte is a number below 256, a `net.IP` a list of
-- bytes. The byte order of the host is an argument.
pub mod Laws
use cillion.Base.{
  ℕ, ◌+◌, ◌*◌, ◌/◌, ◌%◌, ◌==◌, nat_eq, if◌then◌else◌, Bool, true, false, ◌&&◌, Option, none, some,
  List, [], ◌∷◌, length, take, drop,
}

-- The byte order of the host: `binary.NativeEndian`.
pub data Endian : Type 0 where
  little big : Endian

-- Package net, `isZeros` and `IP.To4`; nil is `none`.
abbrev is_zeros : List ℕ → Bool
is_zeros [] = true
is_zeros (b ∷ bs) = b == 0 && is_zeros bs

-- `ip[10] == 0xff && ip[11] == 0xff`, of the bytes from the tenth on.
abbrev is_mapped : List ℕ → Bool
is_mapped (a ∷ b ∷ rest) = a == 0xff && b == 0xff
is_mapped _ = false

unfoldable pub to4 : List ℕ → Option (List ℕ)
to4 ip =
    if length ip == 4
    then some ip
    else if length ip == 16 && is_zeros (take 10 ip) && is_mapped (drop 10 ip)
    then some (drop 12 ip)
    else none

-- `NativeEndian.Uint32`; a shorter slice is an index out of range.
unfoldable pub uint32 : Endian → List ℕ → Option ℕ
uint32 little (a ∷ b ∷ c ∷ d ∷ _) = some (a + 256 * b + 65_536 * c + 16_777_216 * d)
uint32 big (a ∷ b ∷ c ∷ d ∷ _) = some (d + 256 * c + 65_536 * b + 16_777_216 * a)
uint32 _ _ = none

-- `NativeEndian.PutUint32` on a fresh slice of four bytes.
unfoldable pub put_uint32 : Endian → ℕ → List ℕ
put_uint32 little k = (k % 256) ∷ (k / 256 % 256) ∷ (k / 65_536 % 256) ∷ (k / 16_777_216 % 256) ∷ []
put_uint32 big k = (k / 16_777_216 % 256) ∷ (k / 65_536 % 256) ∷ (k / 256 % 256) ∷ (k % 256) ∷ []

-- The results of `IPToKey`, and a panic.
pub data KeyResult : Type 0 where
  key : ℕ → KeyResult
  not_ipv4 panicked : KeyResult

unfoldable pub ip_to_key : Endian → List ℕ → KeyResult
ip_to_key e ip = elim (to4 ip) [
  | none ↦ not_ipv4
  | some ip4 ↦ elim (uint32 e ip4) [ none ↦ panicked | some k ↦ key k ]
]

unfoldable pub ip_from_key : Endian → ℕ → List ℕ
unfolding put_uint32
ip_from_key e k = put_uint32 e k
