-- ===== src/Dataplane/Egress.antt =====
-- bpf/tc_egress.c, for a little-endian target: what the program does with a packet up to the call of
-- `bpf_skb_adjust_room`. Headers goes on from there.
pub mod Outcomes
pub mod Delivery
pub mod Headers
use cillion.Base.{
  ℕ, ◌+◌, ◌*◌, ◌%◌, ◌==◌, nat_eq, if◌then◌else◌, Bool, Option, none, some, List, leb,
}
use cillion.Bpf.Kernel.{ScionPathEntry}
use cillion.Dataplane.Packet.{
  Run, next, ends, faults, ◌>>=◌, ◌>>◌, unless, when, or_return, load_byte, load_be16, load_word,
  fits, ethhdr_size, iphdr_size, udphdr_size, scion_hdr_size, scion_addr_hdr_v4_size,
  cilium_e2e_ext_size,
}

-- How the program ends, with the packet that goes on.
pub data TcAction : Type 0 where
  tc_act_ok : List ℕ → TcAction
  tc_act_shot : TcAction

abbrev pub max_path_len : ℕ
max_path_len = 256

-- The offset behind the Ethernet header, if that fits.
abbrev pub parse_eth : List ℕ → Option ℕ
parse_eth p = if fits p ethhdr_size then some ethhdr_size else none

-- The offset behind the IPv4 header with its options, if that fits.
unfoldable pub behind_ipv4 : List ℕ → ℕ → Run TcAction (Option ℕ)
behind_ipv4 p off = do
  first ← load_byte p off
  let behind = off + first % 16 * 4
  next (if fits p behind then some behind else none)

unfoldable pub parse_ipv4 : List ℕ → ℕ → Run TcAction (Option ℕ)
unfolding behind_ipv4
parse_ipv4 p off = if fits p (off + iphdr_size) then behind_ipv4 p off else next none

-- It does nothing so far.
abbrev pub clamp_tcp_mss : ℕ → ℕ → Run TcAction (Unit {0})
clamp_tcp_mss tcp_off encap_len = next tt

module _ (pod_policy_map : ℕ → Option ℕ) (scion_path_cache : ℕ → Option ScionPathEntry) where
  abbrev pub encap_len : ScionPathEntry → ℕ
  encap_len path =
      iphdr_size + udphdr_size + scion_hdr_size + scion_addr_hdr_v4_size + path.path_len
      + cilium_e2e_ext_size

  -- The part behind the parsing of the IPv4 header.
  unfoldable pub decide : List ℕ → ℕ → ℕ → Run TcAction (ScionPathEntry × ℕ)
  decide p off behind = do
    src_ip ← load_word p (off + 12)
    pol_id ← or_return (pod_policy_map src_ip) (tc_act_ok p)
    path ← or_return (scion_path_cache pol_id) (tc_act_ok p)
    unless (leb path.path_len max_path_len) tc_act_shot
    protocol ← load_byte p (off + 9)
    when (protocol == 6) (clamp_tcp_mss behind (encap_len path))
    next (path, encap_len path)

  -- `tc_egress` up to `bpf_skb_adjust_room`: the path of the packet, and the length of its headers.
  unfoldable pub choose_path : List ℕ → Run TcAction (ScionPathEntry × ℕ)
  unfolding decide
  choose_path p = do
    off ← or_return (parse_eth p) (tc_act_ok p)
    proto ← load_be16 p 12
    unless (proto == 0x0800) (tc_act_ok p)
    iph ← parse_ipv4 p off
    behind ← or_return iph (tc_act_ok p)
    decide p off behind
