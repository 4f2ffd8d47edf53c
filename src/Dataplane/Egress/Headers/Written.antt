-- ===== src/Dataplane/Egress/Headers/Written.antt =====
-- What `write_scion_headers` makes of a packet up to its fourth step.
use cillion.Base.{
  ℕ, ◌+◌, ◌-◌, ◌*◌, ◌/◌, ◌%◌, ◌≤◌, nat_eq, ℕ_discrete, ◌≡◌, refl, ap, sym, ◌∙◌, true, List, [], ◌∷◌,
  ◌++◌, length, take, drop, arith, ≤→leb, length-append, length-take, take-drop, take-drop_middle,
  drop-prefix, drop-drop,
}
use mathlib.Core.List.{append_assoc}
use cillion.Bpf.Key.Laws.{length-drop}
use cillion.Bpf.Kernel.{ScionPathEntry}
use cillion.Dataplane.Packet.{next, load_byte, load_be16, fits}
use cillion.Dataplane.Packet.Stores.{store, store_lem, load_byte_behind, load_be16_behind}
use cillion.Dataplane.Ingress.{XdpAction, outer_headers}
use cillion.Dataplane.Egress.{TcAction}
use cillion.Dataplane.Egress.Headers.{outer_ip, outer_udp, write_outer_headers}

part : (n k : ℕ) (q : List ℕ) → drop n q ≡ take k (drop n q) ++ drop (n + k) q
part n k q =
    sym (take-drop k (drop n q)) ∙ ap (λ (t : List ℕ). take k (drop n q) ++ t) (drop-drop k n q)

part_size : (n k : ℕ) (q : List ℕ) → n + k ≤ length q → length (take k (drop n q)) ≡ k
part_size n k q le = length-take k (drop n q) (omega (arith, length-drop n q))

-- A part of the packet stays as it is.
skip : (pre q : List ℕ) (n k : ℕ) → pre ++ drop n q ≡ (pre ++ take k (drop n q)) ++ drop (n + k) q
skip pre q n k =
    ap (λ (t : List ℕ). pre ++ t) (part n k q)
    ∙ sym (append_assoc pre (take k (drop n q)) (drop (n + k) q))

within :
    (pre q : List ℕ) (n m : ℕ)
    → length pre ≡ n
    → n ≤ length q
    → m ≤ length q
    → fits (pre ++ drop n q) m ≡ true
within pre q n m size le h =
    ≤→leb m (length (pre ++ drop n q))
      (omega (arith, length-append pre (drop n q), length-drop n q))

-- A part of the packet is overwritten.
store_part :
    (pre q new : List ℕ) (n k : ℕ)
    → n + k ≤ length q
    → length pre ≡ n
    → length new ≡ k
    → store {V = TcAction} (pre ++ drop n q) n new ≡ next ((pre ++ new) ++ drop (n + k) q)
store_part pre q new n k le size same =
    store_lem (pre ++ drop n q) pre (take k (drop n q)) (drop (n + k) q) new n
      (ap (λ (t : List ℕ). pre ++ t) (part n k q)) size (same ∙ sym (part_size n k q le))

htons_lem : (k : ℕ) → 256 * (k / 256 % 256) + k % 256 ≡ k % 65_536
htons_lem k = omega arith

module _ (path : ScionPathEntry) (q : List ℕ) (paged : ℕ) where
  abbrev pub ethernet : List ℕ
  ethernet = (path.next_hop_mac ++ take 6 (drop 6 q)) ++ 0x08 ∷ 0x00 ∷ []

  abbrev pub network : List ℕ
  network = ((ethernet ++ outer_ip (length q + paged)) ++ take 4 (drop 26 q)) ++ path.next_hop_ip

  -- The packet as the program leaves it, in parts.
  abbrev pub written : List ℕ
  written = (network ++ outer_udp (length q + paged)) ++ drop 42 q

  module _ (mac : length path.next_hop_mac ≡ 6) (ip : length path.next_hop_ip ≡ 4)
      (le : 42 ≤ length q) where
    addresses_size : length (path.next_hop_mac ++ take 6 (drop 6 q)) ≡ 12
    addresses_size = omega (
      arith,
      mac,
      part_size 6 6 q (omega arith),
      length-append path.next_hop_mac (take 6 (drop 6 q)),
    )

    ethernet_size : length ethernet ≡ 14
    ethernet_size = omega (
      arith,
      addresses_size,
      length-append (path.next_hop_mac ++ take 6 (drop 6 q)) (0x08 ∷ 0x00 ∷ []),
    )

    source_at : length (ethernet ++ outer_ip (length q + paged)) ≡ 26
    source_at = omega (arith, ethernet_size, length-append ethernet (outer_ip (length q + paged)))

    next_hop_at : length ((ethernet ++ outer_ip (length q + paged)) ++ take 4 (drop 26 q)) ≡ 30
    next_hop_at = omega (
      arith,
      source_at,
      part_size 26 4 q (omega arith),
      length-append (ethernet ++ outer_ip (length q + paged)) (take 4 (drop 26 q)),
    )

    network_size : length network ≡ 34
    network_size = omega (
      arith,
      next_hop_at,
      ip,
      length-append ((ethernet ++ outer_ip (length q + paged)) ++ take 4 (drop 26 q))
          path.next_hop_ip,
    )

    pub write_outer_headers_lem : write_outer_headers path paged q ≡ next written
    unfolding write_outer_headers
    write_outer_headers_lem =
        let start = path.next_hop_mac in
        let macs = start ++ take 6 (drop 6 q) in
        let ips = ethernet ++ outer_ip (length q + paged) in
        rw
          (
            ≤→leb 14 (length q) (omega arith),
            store_part [] q start 0 6 (omega arith) refl mac,
            skip start q 6 6,
            store_part macs q (0x08 ∷ 0x00 ∷ []) 12 2 (omega arith) addresses_size refl,
            within ethernet q 14 34 ethernet_size (omega arith) (omega arith),
            store_part ethernet q (outer_ip (length q + paged)) 14 12 (omega arith) ethernet_size
                refl,
            skip ips q 26 4,
            store_part (ips ++ take 4 (drop 26 q)) q path.next_hop_ip 30 4 (omega arith) next_hop_at
                ip,
            within network q 34 42 network_size (omega arith) (omega arith),
          )
          (store_part network q (outer_udp (length q + paged)) 34 8 (omega arith) network_size refl)

    -- The two ways to cut it: behind the addresses, and behind the network header.
    from_ethertype :
        written
        ≡ (path.next_hop_mac ++ take 6 (drop 6 q))
          ++ 0x08
            ∷ 0x00
            ∷ (outer_ip (length q + paged)
                ++ (take 4 (drop 26 q)
                    ++ (path.next_hop_ip ++ (outer_udp (length q + paged) ++ drop 42 q))))
    from_ethertype = simp append_assoc

    from_udp : written ≡ network ++ (outer_udp (length q + paged) ++ drop 42 q)
    from_udp = append_assoc network (outer_udp (length q + paged)) (drop 42 q)

    size_lem : length written ≡ length q
    size_lem = omega (
      arith,
      ap length from_udp,
      network_size,
      length-append network (outer_udp (length q + paged) ++ drop 42 q),
      length-append (outer_udp (length q + paged)) (drop 42 q),
      length-drop 42 q,
    )

    pub outer_headers-written : outer_headers written ≡ next 34
    unfolding outer_headers load_byte load_be16 ℕ_discrete
    outer_headers-written =
        let fit : (n : ℕ) → n ≤ 42 → fits written n ≡ true =
          λ n h. ≤→leb n (length written) (omega (arith, size_lem)) in
        let ethertype : load_be16 {V = XdpAction} written 12 ≡ next 0x0800 =
          load_be16_behind written _ _ 12 0 from_ethertype addresses_size in
        let protocol : load_byte {V = XdpAction} written 23 ≡ next 17 =
          load_byte_behind written _ _ 12 11 from_ethertype addresses_size in
        let version : load_byte {V = XdpAction} written 14 ≡ next 0x45 =
          load_byte_behind written _ _ 12 2 from_ethertype addresses_size in
        let port : load_be16 {V = XdpAction} written 36 ≡ next 30041 =
          load_be16_behind written _ _ 34 2 from_udp network_size in
        rw
          (
            fit 42 (omega arith),
            ethertype,
            fit 34 (omega arith),
            protocol,
            version,
            fit 42 (omega arith),
            port,
          )
          refl

    from_addresses :
        written
        ≡ path.next_hop_mac
          ++ (take 6 (drop 6 q)
              ++ 0x08
                ∷ 0x00
                ∷ (outer_ip (length q + paged)
                    ++ (take 4 (drop 26 q)
                        ++ (path.next_hop_ip ++ (outer_udp (length q + paged) ++ drop 42 q)))))
    from_addresses = simp append_assoc

    pub destination-written : take 6 written ≡ path.next_hop_mac
    destination-written =
        ap (take 6) from_addresses ∙ take-drop_middle [] path.next_hop_mac _ 0 6 refl mac

    pub node-written : take 6 (drop 6 written) ≡ take 6 (drop 6 q)
    node-written =
        ap (λ (t : List ℕ). take 6 (drop 6 t)) from_addresses
        ∙ take-drop_middle path.next_hop_mac (take 6 (drop 6 q)) _ 6 6 mac
            (part_size 6 6 q (omega arith))

    pub source-written : take 4 (drop 26 written) ≡ take 4 (drop 26 q)
    source-written =
        ap (λ (t : List ℕ). take 4 (drop 26 t))
          (from_udp
            ∙ (append_assoc ((ethernet ++ outer_ip (length q + paged)) ++ take 4 (drop 26 q))
                  path.next_hop_ip _
                ∙ append_assoc (ethernet ++ outer_ip (length q + paged)) (take 4 (drop 26 q)) _))
        ∙ take-drop_middle (ethernet ++ outer_ip (length q + paged)) (take 4 (drop 26 q)) _ 26 4
            source_at (part_size 26 4 q (omega arith))

    pub next_hop-written : take 4 (drop 30 written) ≡ path.next_hop_ip
    next_hop-written =
        ap (λ (t : List ℕ). take 4 (drop 30 t))
          (from_udp
            ∙ append_assoc ((ethernet ++ outer_ip (length q + paged)) ++ take 4 (drop 26 q))
                path.next_hop_ip _)
        ∙ take-drop_middle ((ethernet ++ outer_ip (length q + paged)) ++ take 4 (drop 26 q))
            path.next_hop_ip _ 30 4 next_hop_at ip

    pub ip_len-written :
        load_be16 {V = TcAction} written 16 ≡ next ((length written + paged - 14) % 65_536)
    unfolding load_byte load_be16
    ip_len-written = rw size_lem (
        load_be16_behind written _ _ 12 4 from_ethertype addresses_size
        ∙ ap (λ k. next k) (htons_lem (length q + paged - 14)))

    pub udp_len-written :
        load_be16 {V = TcAction} written 38 ≡ next ((length written + paged - 34) % 65_536)
    unfolding load_byte load_be16
    udp_len-written = rw size_lem (
        load_be16_behind written _ _ 34 4 from_udp network_size
        ∙ ap (λ k. next k)
            (htons_lem (length q + paged - 14 - 20) ∙ ap (λ k. k % 65_536) (omega arith)))

    pub drop-written : (m : ℕ) → drop (42 + m) written ≡ drop (42 + m) q
    drop-written m =
        let size : length (network ++ outer_udp (length q + paged)) ≡ 42 =
          omega (arith, network_size, length-append network (outer_udp (length q + paged))) in
        sym (drop-drop m 42 written)
        ∙ (ap (drop m) (drop-prefix (network ++ outer_udp (length q + paged)) (drop 42 q) 42 size)
            ∙ drop-drop m 42 q)
