-- ===== src/Dataplane/Egress/Headers.antt =====
-- bpf/tc_egress.c behind the choice of a path: `bpf_skb_adjust_room`, and `write_scion_headers` up to
-- its fourth step. The fifth step names variables that are not declared;
-- here the function ends before it.
pub mod Written
pub mod Recognised
pub mod Handled
use cillion.Base.{ℕ, ◌+◌, ◌-◌, Option, List, [], ◌∷◌, ◌++◌, length}
use cillion.Bpf.Kernel.{ScionPathEntry}
use cillion.Dataplane.Packet.{
  Run, next, ◌>>=◌, ◌>>◌, unless, or_return, fits, ethhdr_size, iphdr_size, udphdr_size,
}
use cillion.Dataplane.Packet.Stores.{store, bpf_htons}
use cillion.Dataplane.Ingress.{scion_udp_port}
use cillion.Dataplane.Egress.{TcAction, tc_act_ok, tc_act_shot, choose_path}

-- The outer IPv4 header up to `saddr`, which is not written.
abbrev pub outer_ip : ℕ → List ℕ
outer_ip skb_len =
    0x45 ∷ 0 ∷ bpf_htons (skb_len - ethhdr_size) ++ 0 ∷ 0 ∷ 0 ∷ 0 ∷ 64 ∷ 17 ∷ 0 ∷ 0 ∷ []

abbrev pub outer_udp : ℕ → List ℕ
outer_udp skb_len =
    bpf_htons scion_udp_port
    ++ (bpf_htons scion_udp_port ++ (bpf_htons (skb_len - ethhdr_size - iphdr_size) ++ 0 ∷ 0 ∷ []))

-- The packet between `data` and `data_end`, beside which `skb->len` counts so many bytes. The caller
-- drops the packet on a return of -1.
unfoldable pub write_outer_headers : ScionPathEntry → ℕ → List ℕ → Run TcAction (List ℕ)
write_outer_headers path paged p = do
  let skb_len = length p + paged
  unless (fits p ethhdr_size) tc_act_shot
  p' ← store p 0 path.next_hop_mac
  eth ← store p' 12 (bpf_htons 0x0800)
  unless (fits eth (ethhdr_size + iphdr_size)) tc_act_shot
  ip ← store eth ethhdr_size (outer_ip skb_len)
  ip' ← store ip (ethhdr_size + 16) path.next_hop_ip
  unless (fits ip' (ethhdr_size + iphdr_size + udphdr_size)) tc_act_shot
  store ip' (ethhdr_size + iphdr_size) (outer_udp skb_len)

module _ (adjust_room : ℕ → List ℕ → Option (List ℕ)) where
  unfoldable pub encapsulate : ScionPathEntry → ℕ → ℕ → List ℕ → Run TcAction (List ℕ)
  encapsulate path encap_len paged p = do
    q ← or_return (adjust_room encap_len p) tc_act_shot
    write_outer_headers path paged q

  -- The program, with the headers of those four steps. `skb->len` counts `paged` bytes beside the
  -- packet.
  module _ (pod_policy_map : ℕ → Option ℕ) (scion_path_cache : ℕ → Option ScionPathEntry) where
    unfoldable pub tc_egress : ℕ → List ℕ → Run TcAction TcAction
    tc_egress paged p = do
      chosen ← choose_path pod_policy_map scion_path_cache p
      r ← encapsulate chosen.0 chosen.1 paged p
      next (tc_act_ok r)
