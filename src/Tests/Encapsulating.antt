-- ===== src/Tests/Encapsulating.antt =====
-- A packet of a pod that gets its outer headers, in room that is not zeroed.
use cillion.Base.{
  ℕ, zero, suc, nat_eq, ℕ_discrete, ◌≡◌, refl, subst, Option, none, some, List, [], ◌∷◌, ◌++◌,
  length, take, drop, arith,
}
use cillion.Bpf.Key.{little, to4, uint32, ip_to_key}
use cillion.Bpf.Kernel.{ScionPathEntry}
use cillion.Bpf.Loader.{new}
use cillion.Bpf.Loader.Maps.{call, calls}
use cillion.Dataplane.Packet.{next, verdict, load_byte, load_be16, load_word}
use cillion.Dataplane.Egress.{
  TcAction, tc_act_ok, tc_act_shot, behind_ipv4, parse_ipv4, decide, choose_path,
}
use cillion.Dataplane.Egress.Headers.{encapsulate, tc_egress}
use cillion.Dataplane.Egress.Headers.Recognised.{IsEncapsulated, encapsulate-IsEncapsulated}
use cillion.Dataplane.Egress.Headers.Handled.{AreSized, Handled, tc_egress-Handled}
use cillion.Dataplane.Egress.Delivery.{IsFrom, Delivered, loaded_tc_encapsulates}
use cillion.Tests.Keys.{pod_ip}
use cillion.Tests.KernelModel.{toy_kernel, toy_kernel_view, toy_kernel-IsLawful}
use cillion.Tests.Loading.{empty_kernel, images, loaded, kernel_after, load-images, entry}
use cillion.Tests.Packets.{inner, pod_packet, script, one_policy, one_path, are_bytes-AreBytes}

abbrev addressed : List ℕ
addressed = 2 ∷ 0 ∷ 0 ∷ 0 ∷ 0 ∷ 1 ∷ 2 ∷ 0 ∷ 0 ∷ 0 ∷ 0 ∷ 2 ∷ 0x08 ∷ 0x00 ∷ inner

-- What was in the room before is still there.
abbrev stale : ℕ → List ℕ
stale zero = []
stale (suc n) = 7 ∷ stale n

stale_size : (n : ℕ) → length (stale n) ≡ n
stale_size zero = refl
stale_size (suc n) = omega (arith, stale_size n)

abbrev adjust_room : ℕ → List ℕ → Option (List ℕ)
adjust_room n p = some (take 14 p ++ (stale n ++ drop 14 p))

adjust_room_opens :
    (n : ℕ) (p q : List ℕ)
    → adjust_room n p ≡ some q
    → (room : List ℕ) × (length room ≡ n) × (q ≡ take 14 p ++ (room ++ drop 14 p))
adjust_room_opens n p q e = (stale n, stale_size n, ground arith)

encapsulate-IsEncapsulated_example :
    (r : List ℕ) × (encapsulate adjust_room entry 136 0 addressed ≡ next r)
    × IsEncapsulated entry 136 0 addressed (take 14 addressed ++ (stale 136 ++ drop 14 addressed)) r
unfolding choose_path decide parse_ipv4 behind_ipv4 load_byte load_be16 load_word ℕ_discrete
encapsulate-IsEncapsulated_example =
    encapsulate-IsEncapsulated one_policy one_path adjust_room adjust_room_opens addressed
      (take 14 addressed ++ (stale 136 ++ drop 14 addressed)) entry 136 0
      (are_bytes-AreBytes addressed refl) refl refl refl refl

one_path-AreSized : AreSized one_path
one_path-AreSized id path h =
    let same : entry ≡ path = ground arith in
    subst (λ (x : ScionPathEntry). (length x.next_hop_mac ≡ 6) × (length x.next_hop_ip ≡ 4)) same
      (refl, refl)

tc_egress-Handled_example :
    (v : TcAction) × (verdict (tc_egress adjust_room one_policy one_path 0 addressed) ≡ some v)
    × Handled adjust_room one_policy one_path 0 addressed v
tc_egress-Handled_example =
    tc_egress-Handled adjust_room one_policy one_path 0 addressed adjust_room_opens
      one_path-AreSized (are_bytes-AreBytes addressed refl)

-- A path of 257 bytes is refused, a packet without room is dropped, and a cut one is left alone.
long_path_dropped :
    verdict
      (tc_egress adjust_room one_policy (λ id. some (record entry { path_len = 257 })) 0 pod_packet)
    ≡ some tc_act_shot
unfolding tc_egress choose_path decide parse_ipv4 behind_ipv4 load_byte load_be16 load_word
    ℕ_discrete
long_path_dropped = refl

no_room_dropped :
    verdict (tc_egress (λ n p. none) one_policy one_path 0 pod_packet) ≡ some tc_act_shot
unfolding tc_egress encapsulate choose_path decide parse_ipv4 behind_ipv4 load_byte load_be16
    load_word ℕ_discrete
no_room_dropped = refl

cut_packet_passed :
    verdict (tc_egress adjust_room one_policy one_path 0 (take 33 pod_packet))
    ≡ some (tc_act_ok (take 33 pod_packet))
unfolding tc_egress choose_path decide parse_ipv4 behind_ipv4 load_byte load_be16 load_word
    ℕ_discrete
cut_packet_passed = refl

pod_packet-IsFrom : IsFrom pod_packet pod_ip
unfolding parse_ipv4 behind_ipv4 load_byte load_be16
pod_packet-IsFrom = record { behind = 34; ethertype = refl; ipv4 = refl; source = refl }

loaded_tc_encapsulates_example :
    (m : ℕ) × (n : ℕ) × (loaded.tc_objs.pod_policy_map ≡ some m)
    × (loaded.tc_objs.scion_path_cache ≡ some n)
    × Delivered
        (toy_kernel_view.policy_at (calls little toy_kernel loaded script kernel_after).1 m)
        (toy_kernel_view.path_at (calls little toy_kernel loaded script kernel_after).1 n)
        pod_packet
        adjust_room
        0
        entry
unfolding calls call ip_to_key to4 uint32 ℕ_discrete
loaded_tc_encapsulates_example =
    loaded_tc_encapsulates toy_kernel toy_kernel_view toy_kernel-IsLawful adjust_room 0
      adjust_room_opens images (new toy_kernel) loaded empty_kernel kernel_after script pod_packet
      pod_ip pod_ip 0x0501000a 42 entry load-images (refl, (refl, tt)) refl refl refl refl
      (omega arith) refl refl pod_packet-IsFrom
