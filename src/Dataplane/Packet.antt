-- ===== src/Dataplane/Packet.antt =====
-- What the two programs have in common: reading bytes between `data` and `data_end`, early returns,
-- and the sizes of the headers in bpf/headers/scion.h and <linux/*.h> as the compiler lays them out.
pub mod Logic
pub mod Stores
use cillion.Base.{
  ℕ, zero, suc, ◌+◌, ◌*◌, ◌<◌, ◌≤◌, ◌==◌, nat_eq, if◌then◌else◌, Bool, true, false, Option, none,
  some, List, [], ◌∷◌, length, drop, leb,
}

-- A computation goes on with a value, ends the program with a verdict, or accesses memory outside
-- the packet.
pub data Run (V A : Type 0) : Type 0 where
  next : A → Run V A
  ends : V → Run V A
  faults : Run V A

module _ {V : Type 0} where
  infixl 5 ◌>>=◌ ◌>>◌
  abbrev pub ◌>>=◌ : {A B : Type 0} → Run V A → (A → Run V B) → Run V B
  next a >>= f = f a
  ends v >>= f = ends v
  faults >>= f = faults

  abbrev pub ◌>>◌ : {B : Type 0} → Run V (Unit {0}) → Run V B → Run V B
  m >> k = m >>= λ _. k

  -- `if (!condition) return verdict;`
  abbrev pub unless : Bool → V → Run V (Unit {0})
  unless true v = next tt
  unless false v = ends v

  abbrev pub when : Bool → Run V (Unit {0}) → Run V (Unit {0})
  when true m = m
  when false m = next tt

  -- `if (!pointer) return verdict;`
  abbrev pub or_return : {A : Type 0} → Option A → V → Run V A
  or_return (some a) v = next a
  or_return none v = ends v

  -- The verdict; none, if memory outside the packet was accessed.
  abbrev pub verdict : Run V V → Option V
  verdict (next v) = some v
  verdict (ends v) = some v
  verdict faults = none

  -- One byte, by its offset.
  unfoldable pub load_byte : List ℕ → ℕ → Run V ℕ
  load_byte [] i = faults
  load_byte (b ∷ bs) zero = next b
  load_byte (b ∷ bs) (suc i) = load_byte bs i

  -- Two bytes in network order: a field that the programs compare with `bpf_htons` of a number.
  unfoldable pub load_be16 : List ℕ → ℕ → Run V ℕ
  load_be16 p i = do high ← load_byte p i; low ← load_byte p (i + 1); next (256 * high + low)

  -- Four bytes as a word of a little-endian host.
  abbrev pub word : List ℕ → Run V ℕ
  word (a ∷ b ∷ c ∷ d ∷ _) = next (a + 256 * b + 65_536 * c + 16_777_216 * d)
  word _ = faults

  unfoldable pub load_word : List ℕ → ℕ → Run V ℕ
  load_word p i = word (drop i p)

-- `data + n <= data_end`
abbrev pub fits : List ℕ → ℕ → Bool
fits p n = leb n (length p)

abbrev pub ethhdr_size : ℕ
ethhdr_size = 14

abbrev pub iphdr_size : ℕ
iphdr_size = 20

abbrev pub udphdr_size : ℕ
udphdr_size = 8

abbrev pub scion_hdr_size : ℕ
scion_hdr_size = 12

abbrev pub scion_addr_hdr_v4_size : ℕ
scion_addr_hdr_v4_size = 24

-- Each six-bit field has a byte of its own: `cur_inf` and `cur_hf`, `rsv`, three lengths, `num_hf`
-- and `num_inf`.
abbrev pub scion_path_meta_hdr_size : ℕ
scion_path_meta_hdr_size = 7

abbrev pub scion_info_field_size : ℕ
scion_info_field_size = 8

-- `rsv`, the two interfaces from byte 2 on, and `mac` in the aligned second half.
abbrev pub scion_hop_field_size : ℕ
scion_hop_field_size = 16

abbrev pub cilium_e2e_ext_size : ℕ
cilium_e2e_ext_size = 8
