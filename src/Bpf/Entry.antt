-- ===== src/Bpf/Entry.antt =====
-- pkg/bpf/types.go: `ScionPathEntry` as the bytes that Go keeps in memory and package ebpf hands to
-- the kernel, and bpf/maps.h: the C struct that the programs read there.
pub mod Image
use cillion.Base.{
  ℕ, zero, suc, ◌+◌, ◌-◌, ◌*◌, ◌/◌, ◌%◌, Option, none, some, List, [], ◌∷◌, ◌++◌, take, drop, leb,
  if◌then◌else◌,
}
use cillion.Bpf.Key.{Endian, little, big, uint32}
use cillion.Bpf.Kernel.{ScionPathEntry}

-- The types of the fields: an array of bytes, and unsigned numbers.
pub data Kind : Type 0 where
  u8_array : ℕ → Kind
  u16 u32 : Kind

abbrev pub size : Kind → ℕ
size (u8_array n) = n
size u16 = 2
size u32 = 4

abbrev pub align : Kind → ℕ
align (u8_array n) = 1
align u16 = 2
align u32 = 4

-- The first multiple of `a` that is not below `n`.
abbrev pub align_up : ℕ → ℕ → ℕ
align_up n a = (n + (a - 1)) / a * a

-- A field is put at the next offset that its alignment allows: its offset and its size.
abbrev pub slots : ℕ → List Kind → List (ℕ × ℕ)
slots at [] = []
slots at (k ∷ ks) = (align_up at (align k), size k) ∷ slots (align_up at (align k) + size k) ks

abbrev pub end_of : ℕ → List Kind → ℕ
end_of at [] = at
end_of at (k ∷ ks) = end_of (align_up at (align k) + size k) ks

abbrev larger : ℕ → ℕ → ℕ
larger m n = if leb m n then n else m

-- A struct has the largest alignment of its fields, and its size is a multiple of it.
abbrev pub struct_align : List Kind → ℕ
struct_align [] = 1
struct_align (k ∷ ks) = larger (align k) (struct_align ks)

abbrev pub struct_size : List Kind → ℕ
struct_size ks = align_up (end_of 0 ks) (struct_align ks)

abbrev pub zeros : ℕ → List ℕ
zeros zero = []
zeros (suc n) = 0 ∷ zeros n

-- The fields with their bytes, and the padding in front of each.
abbrev pub fields_image : ℕ → List (Kind × List ℕ) → List ℕ
fields_image at [] = []
fields_image at ((k, bs) ∷ fs) =
    zeros (align_up at (align k) - at) ++ (bs ++ fields_image (align_up at (align k) + size k) fs)

abbrev pub kinds : List (Kind × List ℕ) → List Kind
kinds [] = []
kinds ((k, bs) ∷ fs) = k ∷ kinds fs

abbrev pub struct_image : List (Kind × List ℕ) → List ℕ
struct_image fs = fields_image 0 fs ++ zeros (struct_size (kinds fs) - end_of 0 (kinds fs))

-- A uint16 in the byte order of the host.
abbrev pub put_uint16 : Endian → ℕ → List ℕ
put_uint16 little n = (n % 256) ∷ (n / 256 % 256) ∷ []
put_uint16 big n = (n / 256 % 256) ∷ (n % 256) ∷ []

abbrev pub get_uint16 : Endian → List ℕ → Option ℕ
get_uint16 little (a ∷ b ∷ _) = some (a + 256 * b)
get_uint16 big (a ∷ b ∷ _) = some (b + 256 * a)
get_uint16 _ _ = none

-- The Go struct.
abbrev pub go_fields : Endian → ScionPathEntry → List (Kind × List ℕ)
go_fields e entry =
    (u8_array 4, entry.next_hop_ip)
    ∷ (u8_array 6, entry.next_hop_mac)
    ∷ (u16, put_uint16 e entry.path_len)
    ∷ (u8_array 256, entry.hop_fields)
    ∷ (u8_array 16, entry.mac_key)
    ∷ []

unfoldable pub go_image : Endian → ScionPathEntry → List ℕ
go_image e entry = struct_image (go_fields e entry)

-- `struct scion_path_entry`
pub record CPathEntry : Type 0 where
  pub next_hop_ip : ℕ
  pub next_hop_mac : List ℕ
  pub path_len : ℕ
  pub hop_fields : List ℕ
  pub mac_key : List ℕ

abbrev pub c_kinds : List Kind
c_kinds = u32 ∷ u8_array 6 ∷ u16 ∷ u8_array 256 ∷ u8_array 16 ∷ []

-- The bytes of the fields in memory.
abbrev pub read_slots : List (ℕ × ℕ) → List ℕ → List (List ℕ)
read_slots [] m = []
read_slots ((off, n) ∷ rest) m = take n (drop off m) ∷ read_slots rest m

-- What the program reads of the fields.
abbrev pub c_values : Endian → List (List ℕ) → Option CPathEntry
c_values e (ip ∷ mac ∷ len ∷ hops ∷ key ∷ []) = elim (uint32 e ip) [
  | none ↦ none
  | some k ↦ elim (get_uint16 e len) [
    | none ↦ none
    | some n ↦ some (record {
      next_hop_ip = k;
      next_hop_mac = mac;
      path_len = n;
      hop_fields = hops;
      mac_key = key;
    })
  ]
]
c_values e _ = none

unfoldable pub c_read : Endian → List ℕ → Option CPathEntry
unfolding uint32
c_read e m = c_values e (read_slots (slots 0 c_kinds) m)
