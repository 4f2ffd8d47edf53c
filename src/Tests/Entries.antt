-- ===== src/Tests/Entries.antt =====
-- A path entry on its way from Go to C.
use cillion.Base.{◌≡◌, refl, some, [], ◌∷◌, length, arith}
use cillion.Bpf.Key.{big, ip_from_key}
use cillion.Bpf.Kernel.{ScionPathEntry}
use cillion.Bpf.Entry.{zeros, struct_size, c_kinds, slots, go_image, CPathEntry, c_read}
use cillion.Bpf.Entry.Image.{IsEntry, go_image-c_read}
use cillion.Tests.Loading.{entry}

abbrev full_entry : ScionPathEntry
full_entry = record entry { hop_fields = zeros 256; mac_key = zeros 16 }

full_entry-IsEntry : IsEntry full_entry
full_entry-IsEntry = record {
  ip_size = refl;
  mac_size = refl;
  hops_size = refl;
  key_size = refl;
  ip_bytes = omega arith;
  len_bound = omega arith;
}

-- The offsets that bpf/maps.h leads to.
c_offsets : slots 0 c_kinds ≡ (0, 4) ∷ (4, 6) ∷ (10, 2) ∷ (12, 256) ∷ (268, 16) ∷ []
c_offsets = refl

go_image-c_read_example :
    (length (go_image big full_entry) ≡ struct_size c_kinds)
    × (struct_size c_kinds ≡ 284)
    × ((c : CPathEntry) × (c_read big (go_image big full_entry) ≡ some c)
        × (ip_from_key big c.next_hop_ip ≡ 198 ∷ 51 ∷ 100 ∷ 42 ∷ [])
        × (c.next_hop_mac ≡ 0xde ∷ 0xad ∷ 0xbe ∷ 0xef ∷ 0 ∷ 1 ∷ [])
        × (c.path_len ≡ 64)
        × (c.hop_fields ≡ zeros 256)
        × (c.mac_key ≡ zeros 16))
go_image-c_read_example = go_image-c_read big full_entry full_entry-IsEntry
