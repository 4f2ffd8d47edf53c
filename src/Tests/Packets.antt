-- ===== src/Tests/Packets.antt =====
-- The programs on small packets: runs of `xdp_ingress`, and its theorems there.
use cillion.Base.{
  ℕ, zero, suc, ◌+◌, ◌==◌, nat_eq, ℕ_discrete, if◌then◌else◌, ◌≡◌, ◌⊎◌, refl, Bool, true, ◌&&◌, leb,
  Option, none, some, List, [], ◌∷◌, drop, arith,
}
use cillion.Bpf.Key.{little}
use cillion.Bpf.Key.Laws.{AreBytes}
use cillion.Bpf.Kernel.{ScionPathEntry}
use cillion.Bpf.Loader.{new}
use cillion.Bpf.Loader.Maps.{Call, updates_policy, updates_path, calls}
use cillion.Dataplane.Packet.{verdict, fits, load_byte, load_be16}
use cillion.Dataplane.Ingress.{
  XdpAction, xdp_pass, xdp_drop, xdp_ingress, outer_headers, scion_headers, get_current_hop_field,
  verify_scion_mac, same_bytes, decapsulate,
}
use cillion.Dataplane.Ingress.Outcomes.{Handled, xdp_ingress-Handled}
use cillion.Dataplane.Ingress.Loaded.{loaded_xdp_decapsulates_nothing}
use cillion.Tests.Keys.{pod_ip}
use cillion.Tests.KernelModel.{toy_kernel, toy_kernel_view, toy_kernel-IsLawful}
use cillion.Tests.Loading.{empty_kernel, images, loaded, kernel_after, load-images, entry}

abbrev pub zeros : ℕ → List ℕ → List ℕ
zeros zero bs = bs
zeros (suc n) bs = 0 ∷ zeros n bs

-- 20 bytes of IPv4 header without options, for a protocol, from 10.0.1.5.
abbrev pub ipv4_header : ℕ → List ℕ → List ℕ
ipv4_header protocol bs = 0x45 ∷ zeros 8 (protocol ∷ zeros 2 (10 ∷ 0 ∷ 1 ∷ 5 ∷ zeros 4 bs))

abbrev ethernet : List ℕ → List ℕ
ethernet bs = zeros 12 (0x08 ∷ 0x00 ∷ bs)

abbrev pub inner : List ℕ
inner = ipv4_header 6 []

-- UDP for port 30041, the SCION headers with one info field and one hop field, and the extension.
abbrev scion_packet : List ℕ
scion_packet = ethernet (
    ipv4_header 17 (
      0 ∷ 0 ∷ 117 ∷ 89 ∷ zeros 4 (zeros 36 (zeros 5 (1 ∷ 1 ∷ zeros 8 (zeros 16 (zeros 8 inner)))))))

abbrev pub pod_packet : List ℕ
pod_packet = ethernet inner

-- The kernel refuses to leave less than an Ethernet header.
abbrev pub adjust_head : ℕ → List ℕ → Option (List ℕ)
adjust_head n q = if fits q (n + 14) then some (drop n q) else none

adjust_head-drop : (n : ℕ) (q q' : List ℕ) → adjust_head n q ≡ some q' → q' ≡ drop n q
adjust_head-drop n q q' h = ground arith

abbrev pub with_entry : ℕ → Option ScionPathEntry
with_entry k = if k == 0 then some entry else none

-- A SCION packet whose MAC is all zeros loses its 103 bytes of encapsulation.
decapsulated :
    verdict (xdp_ingress with_entry adjust_head scion_packet) ≡ some (xdp_pass pod_packet)
unfolding xdp_ingress outer_headers scion_headers get_current_hop_field verify_scion_mac same_bytes
    decapsulate load_byte load_be16 ℕ_discrete
decapsulated = refl

dropped_without_entry : verdict (xdp_ingress (λ k. none) adjust_head scion_packet) ≡ some xdp_drop
unfolding xdp_ingress outer_headers scion_headers get_current_hop_field verify_scion_mac same_bytes
    decapsulate load_byte load_be16 ℕ_discrete
dropped_without_entry = refl

abbrev pub are_bytes : List ℕ → Bool
are_bytes [] = true
are_bytes (b ∷ bs) = leb b 255 && are_bytes bs

pub are_bytes-AreBytes : (p : List ℕ) → are_bytes p ≡ true → AreBytes p
are_bytes-AreBytes [] h = tt
are_bytes-AreBytes (b ∷ bs) h = (ground arith, are_bytes-AreBytes bs (ground arith))

xdp_ingress-Handled_example :
    (v : XdpAction) × (verdict (xdp_ingress with_entry adjust_head scion_packet) ≡ some v)
    × Handled with_entry scion_packet v
xdp_ingress-Handled_example =
    xdp_ingress-Handled with_entry scion_packet adjust_head adjust_head-drop
      (are_bytes-AreBytes scion_packet refl)

abbrev pub script : List Call
script = updates_policy pod_ip 42 ∷ updates_path 42 entry ∷ []

loaded_xdp_decapsulates_nothing_example :
    (y : ℕ) × (loaded.xdp_objs.scion_path_cache ≡ some y)
    × ((verdict (
            xdp_ingress
              (toy_kernel_view.path_at (calls little toy_kernel loaded script kernel_after).1 y)
              adjust_head
              scion_packet)
          ≡ some (xdp_pass scion_packet))
        ⊎ (verdict (
              xdp_ingress
                (toy_kernel_view.path_at (calls little toy_kernel loaded script kernel_after).1 y)
                adjust_head
                scion_packet)
            ≡ some xdp_drop))
loaded_xdp_decapsulates_nothing_example =
    loaded_xdp_decapsulates_nothing toy_kernel toy_kernel_view toy_kernel-IsLawful adjust_head
      adjust_head-drop images (new toy_kernel) loaded empty_kernel kernel_after little script
      scion_packet load-images (are_bytes-AreBytes scion_packet refl)

abbrev pub one_policy : ℕ → Option ℕ
one_policy k = if k == 0x0501000a then some 42 else none

abbrev pub one_path : ℕ → Option ScionPathEntry
one_path id = if id == 42 then some entry else none
