-- ===== src/Dataplane/Ingress.antt =====
-- bpf/xdp_ingress.c and bpf/scion_mac.h, for a little-endian target. The function `xdp_ingress` is
-- cut at its comments.
pub mod Bounds
pub mod Outcomes
pub mod Loaded
pub mod Delivery
use cillion.Base.{
  ℕ, ◌+◌, ◌*◌, ◌/◌, ◌%◌, ◌==◌, nat_eq, if◌then◌else◌, Bool, true, false, Option, none, some, List,
  [], ◌∷◌, ◌++◌, ◌&&◌, length, take, drop,
}
use cillion.Bpf.Kernel.{ScionPathEntry}
use cillion.Dataplane.Packet.{
  Run, next, ends, faults, ◌>>=◌, ◌>>◌, unless, or_return, verdict, load_byte, load_be16, fits,
  ethhdr_size, iphdr_size, udphdr_size, scion_hdr_size, scion_addr_hdr_v4_size,
  scion_path_meta_hdr_size, scion_info_field_size, scion_hop_field_size, cilium_e2e_ext_size,
}

-- How the program ends, with the packet that goes on.
pub data XdpAction : Type 0 where
  xdp_pass : List ℕ → XdpAction
  xdp_drop : XdpAction

-- What the program computes before it changes the packet.
pub record Layout : Type 0 where
  pub hop_field : ℕ
  pub info_field : ℕ
  pub encap_len : ℕ

abbrev pub scion_udp_port : ℕ
scion_udp_port = 30041

-- The offset of the path meta header, if it fits.
abbrev pub parse_path_meta : List ℕ → ℕ → Option ℕ
parse_path_meta p scion_off =
    let meta_off = scion_off + scion_hdr_size + scion_addr_hdr_v4_size in
    if fits p (meta_off + scion_path_meta_hdr_size) then some meta_off else none

abbrev path_off : ℕ → ℕ → ℕ → ℕ
path_off scion_off num_inf cur_hf =
    scion_off
    + scion_hdr_size
    + scion_addr_hdr_v4_size
    + scion_path_meta_hdr_size
    + num_inf * scion_info_field_size
    + cur_hf * scion_hop_field_size

-- `cur_hf` is the upper six bits of the first byte.
unfoldable pub get_current_hop_field : List ℕ → ℕ → ℕ → Run XdpAction (Option ℕ)
get_current_hop_field p scion_off meta = do
  num_inf ← load_byte p (meta + 6)
  pointers ← load_byte p meta
  let off = path_off scion_off num_inf (pointers / 4)
  next (if fits p (off + scion_hop_field_size) then some off else none)

-- The outer headers: the offset of the UDP header of a SCION packet.
unfoldable pub outer_headers : List ℕ → Run XdpAction ℕ
outer_headers p = do
  unless (fits p (ethhdr_size + iphdr_size + udphdr_size)) (xdp_pass p)
  proto ← load_be16 p 12
  unless (proto == 0x0800) (xdp_pass p)
  unless (fits p (ethhdr_size + iphdr_size)) (xdp_pass p)
  protocol ← load_byte p (ethhdr_size + 9)
  unless (protocol == 17) (xdp_pass p)
  first ← load_byte p ethhdr_size
  let udp_off = ethhdr_size + first % 16 * 4
  unless (fits p (udp_off + udphdr_size)) (xdp_pass p)
  port ← load_be16 p (udp_off + 2)
  unless (port == scion_udp_port) (xdp_pass p)
  next udp_off

-- The SCION headers, up to the check of the info field.
unfoldable pub scion_headers : List ℕ → ℕ → Run XdpAction Layout
scion_headers p udp_off = do
  let scion_off = udp_off + udphdr_size
  unless (fits p (scion_off + scion_hdr_size)) xdp_drop
  meta ← or_return (parse_path_meta p scion_off) xdp_drop
  found ← get_current_hop_field p scion_off meta
  hf ← or_return found xdp_drop
  num_inf ← load_byte p (meta + 6)
  num_hf ← load_byte p (meta + 5)
  first ← load_byte p ethhdr_size
  let path_hdr_len =
      scion_path_meta_hdr_size + num_inf * scion_info_field_size + num_hf * scion_hop_field_size
  let encap_len =
      first % 16 * 4
      + udphdr_size
      + scion_hdr_size
      + scion_addr_hdr_v4_size
      + path_hdr_len
      + cilium_e2e_ext_size
  unless (fits p (ethhdr_size + encap_len)) xdp_drop
  let inf = scion_off + scion_hdr_size + scion_addr_hdr_v4_size + scion_path_meta_hdr_size
  unless (fits p (inf + scion_info_field_size)) xdp_drop
  next (record { hop_field = hf; info_field = inf; encap_len = encap_len })

-- `calculate_scion_mac`, which so far fills in zeros and always succeeds.
abbrev pub calculate_scion_mac : List ℕ → ℕ → ℕ → List ℕ
calculate_scion_mac mac_key inf hf = 0 ∷ 0 ∷ 0 ∷ 0 ∷ 0 ∷ 0 ∷ []

-- The comparison, from the byte of the packet at an offset on; it stops at the first difference.
unfoldable pub same_bytes : List ℕ → ℕ → List ℕ → Run XdpAction Bool
same_bytes p i [] = next true
same_bytes p i (c ∷ cs) = do
  b ← load_byte p i
  let rest = same_bytes p (i + 1) cs
  if c == b then rest else next false

-- `verify_scion_mac(…) == 0`; `mac` is read as the six bytes of that field.
unfoldable pub verify_scion_mac : List ℕ → List ℕ → ℕ → ℕ → Run XdpAction Bool
unfolding same_bytes
verify_scion_mac p mac_key inf hf = same_bytes p (hf + 8) (calculate_scion_mac mac_key inf hf)

-- `*new_eth = orig_eth`
abbrev pub store_eth : List ℕ → List ℕ → Run XdpAction (List ℕ)
store_eth eth q = if fits q ethhdr_size then next (eth ++ drop ethhdr_size q) else faults

-- `*eth`, with `h_proto` set to IPv4.
abbrev pub load_eth : List ℕ → Run XdpAction (List ℕ)
load_eth p = if fits p ethhdr_size then next (take 12 p ++ 0x08 ∷ 0x00 ∷ []) else faults

module _ (path_cache : ℕ → Option ScionPathEntry) (adjust_head : ℕ → List ℕ → Option (List ℕ)) where
  unfoldable pub decapsulate : List ℕ → ℕ → Run XdpAction XdpAction
  decapsulate p encap_len = do
    orig_eth ← load_eth p
    q ← or_return (adjust_head encap_len p) xdp_drop
    unless (fits q ethhdr_size) xdp_drop
    q' ← store_eth orig_eth q
    unless (fits q' (ethhdr_size + iphdr_size)) xdp_drop
    next (xdp_pass q')

  unfoldable pub xdp_ingress : List ℕ → Run XdpAction XdpAction
  unfolding outer_headers scion_headers verify_scion_mac decapsulate
  xdp_ingress p = do
    udp_off ← outer_headers p
    layout ← scion_headers p udp_off
    local_crypto ← or_return (path_cache 0) xdp_drop
    valid ← verify_scion_mac p local_crypto.mac_key layout.info_field layout.hop_field
    unless valid xdp_drop
    decapsulate p layout.encap_len
