-- ===== src/Tests/Decapsulating.antt =====
-- A packet that `xdp_ingress` decapsulates, in parts.
use cillion.Base.{
  ℕ, ◌+◌, nat_eq, ℕ_discrete, ◌≡◌, refl, some, List, [], ◌∷◌, ◌++◌, arith, length, drop, ≤→leb, ◌≤◌,
}
use cillion.Dataplane.Packet.{verdict, load_byte, load_be16}
use cillion.Dataplane.Ingress.{xdp_pass, xdp_ingress}
use cillion.Dataplane.Ingress.Delivery.{IsScion, xdp_ingress_decapsulates}
use cillion.Tests.Loading.{entry}
use cillion.Tests.Packets.{zeros, ipv4_header, inner, adjust_head, with_entry}

abbrev macs : List ℕ
macs = 2 ∷ 0 ∷ 0 ∷ 0 ∷ 0 ∷ 1 ∷ 2 ∷ 0 ∷ 0 ∷ 0 ∷ 0 ∷ 2 ∷ []

abbrev outer : List ℕ
outer =
    ipv4_header 17
      (0 ∷ 0 ∷ 117 ∷ 89 ∷ zeros 4 (zeros 36 (zeros 5 (1 ∷ 1 ∷ zeros 8 (zeros 16 (zeros 8 []))))))

outer-IsScion : IsScion (macs ++ ((0x08 ∷ 0x00 ∷ []) ++ (outer ++ inner)))
unfolding load_byte load_be16
outer-IsScion = record {
  version_ihl = 0x45;
  num_inf = 1;
  num_hf = 1;
  pointers = 0;
  ethertype = refl;
  ipv4 = refl;
  protocol = refl;
  port = refl;
  pointers_at = refl;
  num_hf_at = refl;
  num_inf_at = refl;
  some_info_field = omega arith;
  current = omega arith;
}

adjust_head_shrinks : (n : ℕ) (q : List ℕ) → n + 14 ≤ length q → adjust_head n q ≡ some (drop n q)
adjust_head_shrinks n q h = ground (arith, ≤→leb (n + 14) (length q))

xdp_ingress_decapsulates_example :
    verdict (xdp_ingress with_entry adjust_head (macs ++ ((0x08 ∷ 0x00 ∷ []) ++ (outer ++ inner))))
    ≡ some (xdp_pass (macs ++ 0x08 ∷ 0x00 ∷ inner))
unfolding load_byte outer-IsScion ℕ_discrete
xdp_ingress_decapsulates_example =
    xdp_ingress_decapsulates with_entry adjust_head adjust_head_shrinks macs (0x08 ∷ 0x00 ∷ [])
      outer inner entry refl refl outer-IsScion refl (omega arith) refl
      (refl, (refl, (refl, (refl, (refl, (refl, tt))))))
