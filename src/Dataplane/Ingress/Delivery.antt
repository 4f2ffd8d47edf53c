-- ===== src/Dataplane/Ingress/Delivery.antt =====
-- The packets that `xdp_ingress` decapsulates, from their bytes.
use cillion.Base.{
  ℕ, ◌+◌, ◌-◌, ◌*◌, ◌/◌, ◌%◌, ◌<◌, ◌≤◌, nat_eq, ℕ_discrete, ◌≡◌, refl, ap, ◌∙◌, true, Option, some,
  List, [], ◌∷◌, ◌++◌, length, take, drop, arith, ≤→leb, length-append, length-take,
  take-append_length, drop-append_length, drop-drop, sym,
}
use cillion.Bpf.Key.Laws.{length-drop}
use cillion.Bpf.Kernel.{ScionPathEntry}
use cillion.Dataplane.Packet.{next, verdict, load_byte, load_be16, fits}
use cillion.Dataplane.Ingress.Outcomes.{without_encapsulation}
use mathlib.Core.List.{append_assoc}
use cillion.Dataplane.Ingress.{
  XdpAction, xdp_pass, Layout, get_current_hop_field, outer_headers, scion_headers,
  calculate_scion_mac, same_bytes, verify_scion_mac, decapsulate, xdp_ingress,
}

-- The bytes from an offset on.
abbrev pub BytesAt : List ℕ → ℕ → List ℕ → Type 0
BytesAt p i [] = Unit
BytesAt p i (c ∷ cs) = (load_byte {V = XdpAction} p i ≡ next c) × BytesAt p (i + 1) cs

-- A packet from a SCION border router: the bytes that tell the lengths of its headers, and that its
-- current hop field is one of its path.
pub record IsScion (p : List ℕ) : Type 0 where
  pub version_ihl : ℕ
  pub num_inf : ℕ
  pub num_hf : ℕ
  pub pointers : ℕ
  pub ethertype : load_be16 {V = XdpAction} p 12 ≡ next 0x0800
  pub ipv4 : load_byte {V = XdpAction} p 14 ≡ next version_ihl
  pub protocol : load_byte {V = XdpAction} p 23 ≡ next 17
  pub port : load_be16 {V = XdpAction} p (14 + version_ihl % 16 * 4 + 2) ≡ next 30041
  pub pointers_at : load_byte {V = XdpAction} p (14 + version_ihl % 16 * 4 + 44) ≡ next pointers
  pub num_hf_at : load_byte {V = XdpAction} p (14 + version_ihl % 16 * 4 + 49) ≡ next num_hf
  pub num_inf_at : load_byte {V = XdpAction} p (14 + version_ihl % 16 * 4 + 50) ≡ next num_inf
  pub some_info_field : 1 ≤ num_inf
  pub current : pointers / 4 < num_hf

moved :
    (p : List ℕ) (i j b : ℕ)
    → i ≡ j
    → load_byte {V = XdpAction} p i ≡ next b
    → load_byte {V = XdpAction} p j ≡ next b
moved p i j b e h = rw (← e) h

same_bytes_lem : (p : List ℕ) (i : ℕ) (cs : List ℕ) → BytesAt p i cs → same_bytes p i cs ≡ next true
unfolding same_bytes ℕ_discrete
same_bytes_lem p i [] h = refl
same_bytes_lem p i (c ∷ cs) (h, hs) = ground (arith, same_bytes_lem p (i + 1) cs hs)

module _ (p : List ℕ) (s : IsScion p) where
  abbrev pub ip_len : ℕ
  ip_len = s.version_ihl % 16 * 4

  -- IPv4, UDP, the common and the address header, the path meta header, the fields of the path,
  -- and the extension.
  abbrev pub encapsulation_len : ℕ
  encapsulation_len = ip_len + 8 + 12 + 24 + (7 + s.num_inf * 8 + s.num_hf * 16) + 8

  abbrev pub layout : Layout
  layout = record {
    hop_field = 14 + ip_len + 51 + s.num_inf * 8 + s.pointers / 4 * 16;
    info_field = 14 + ip_len + 51;
    encap_len = encapsulation_len;
  }

  module _ (le : 14 + encapsulation_len + 20 ≤ length p) where
    within : (n : ℕ) → n ≤ 14 + encapsulation_len + 20 → fits p n ≡ true
    within n h = ≤→leb n (length p) (omega arith)

    outer_headers_lem : outer_headers p ≡ next (14 + ip_len)
    unfolding outer_headers ℕ_discrete
    outer_headers_lem =
        rw
          (
            within 42 (omega arith),
            s.ethertype,
            within 34 (omega arith),
            s.protocol,
            s.ipv4,
            within (14 + ip_len + 8) (omega arith),
            s.port,
          )
          refl

    pointers_lem : load_byte {V = XdpAction} p (14 + ip_len + 8 + 12 + 24) ≡ next s.pointers
    pointers_lem = moved p (14 + ip_len + 44) _ s.pointers (omega arith) s.pointers_at

    num_inf_lem : load_byte {V = XdpAction} p (14 + ip_len + 8 + 12 + 24 + 6) ≡ next s.num_inf
    num_inf_lem = moved p (14 + ip_len + 50) _ s.num_inf (omega arith) s.num_inf_at

    num_hf_lem : load_byte {V = XdpAction} p (14 + ip_len + 8 + 12 + 24 + 5) ≡ next s.num_hf
    num_hf_lem = moved p (14 + ip_len + 49) _ s.num_hf (omega arith) s.num_hf_at

    current_lem :
        get_current_hop_field p (14 + ip_len + 8) (14 + ip_len + 8 + 12 + 24)
        ≡ next (some layout.hop_field)
    unfolding get_current_hop_field
    current_lem =
        let off = 14 + ip_len + 8 + 12 + 24 + 7 + s.num_inf * 8 + s.pointers / 4 * 16 in
        rw (num_inf_lem, pointers_lem, within (off + 16) (omega (arith, s.current)))
          (ap (λ (o : ℕ). next (some o)) (omega arith))

    scion_headers_lem : scion_headers p (14 + ip_len) ≡ next layout
    unfolding scion_headers
    scion_headers_lem =
        rw
          (
            within (14 + ip_len + 8 + 12) (omega arith),
            within (14 + ip_len + 8 + 12 + 24 + 7) (omega arith),
            current_lem,
            num_inf_lem,
            num_hf_lem,
            s.ipv4,
            within (14 + encapsulation_len) (omega arith),
            within (14 + ip_len + 8 + 12 + 24 + 7 + 8) (omega (arith, s.some_info_field)),
          )
          (ap
            (λ (o : ℕ). next (record {
              hop_field = layout.hop_field;
              info_field = o;
              encap_len = encapsulation_len;
            }))
            (omega arith))

-- What is left of a packet in parts.
without_encapsulation_lem :
    (macs kind outer inner : List ℕ)
    → length macs ≡ 12
    → length kind ≡ 2
    → without_encapsulation (macs ++ (kind ++ (outer ++ inner))) (length outer)
      ≡ macs ++ 0x08 ∷ 0x00 ∷ inner
without_encapsulation_lem macs kind outer inner m k =
    let p = macs ++ (kind ++ (outer ++ inner)) in
    let front : take 12 p ≡ macs = rw m at (take-append_length macs (kind ++ (outer ++ inner))) in
    let size : length (macs ++ (kind ++ outer)) ≡ length outer + 14 =
      omega (arith, length-append macs (kind ++ outer), length-append kind outer) in
    let regroup : p ≡ (macs ++ (kind ++ outer)) ++ inner = simp append_assoc in
    let back : drop 14 (drop (length outer) p) ≡ inner =
      drop-drop 14 (length outer) p
      ∙ (ap (λ (k : ℕ). drop k p) (sym size)
          ∙ (ap (drop (length (macs ++ (kind ++ outer)))) regroup
              ∙ drop-append_length (macs ++ (kind ++ outer)) inner)) in
    rw (front, back) (append_assoc macs (0x08 ∷ 0x00 ∷ []) inner)

module _ (path_cache : ℕ → Option ScionPathEntry) (adjust_head : ℕ → List ℕ → Option (List ℕ))
    (shrinks : (n : ℕ) (q : List ℕ) → n + 14 ≤ length q → adjust_head n q ≡ some (drop n q)) where
  decapsulate_lem :
      (p : List ℕ) (n : ℕ)
      → 14 + n + 20 ≤ length p
      → decapsulate path_cache adjust_head p n ≡ next (xdp_pass (without_encapsulation p n))
  unfolding decapsulate
  decapsulate_lem p n le =
      let rest = length-drop 14 (drop n p) in
      let size : length ((take 12 p ++ 0x08 ∷ 0x00 ∷ []) ++ drop 14 (drop n p)) ≡ length p - n =
        omega (
          arith,
          length-append (take 12 p ++ 0x08 ∷ 0x00 ∷ []) (drop 14 (drop n p)),
          length-append (take 12 p) (0x08 ∷ 0x00 ∷ []),
          length-take 12 p (omega arith),
          rest,
          length-drop n p,
        ) in
      rw
        (
          ≤→leb 14 (length p) (omega arith),
          shrinks n p (omega arith),
          ≤→leb 14 (length (drop n p)) (omega (arith, length-drop n p)),
          ≤→leb 34 (length ((take 12 p ++ 0x08 ∷ 0x00 ∷ []) ++ drop 14 (drop n p)))
              (omega (arith, size)),
        )
        refl

  -- A SCION packet for this node reaches the kernel as its inner packet: the packet is made of two
  -- MAC addresses, a type, an encapsulation as long as its headers say, and an inner packet with
  -- room for an IP header. If the path cache has an entry 0, the current hop field carries the MAC
  -- that is computed with its key, and `bpf_xdp_adjust_head` removes bytes where an Ethernet header
  -- is left, then the program passes the packet of the two addresses, the type of IPv4 and the inner
  -- packet.
  pub xdp_ingress_decapsulates :
      (macs kind outer inner : List ℕ) (entry : ScionPathEntry)
      → length macs ≡ 12
      → length kind ≡ 2
      → (s : IsScion (macs ++ (kind ++ (outer ++ inner))))
      → length outer ≡ encapsulation_len (macs ++ (kind ++ (outer ++ inner))) s
      → 20 ≤ length inner
      → path_cache 0 ≡ some entry
      → BytesAt
          (macs ++ (kind ++ (outer ++ inner)))
          ((layout (macs ++ (kind ++ (outer ++ inner))) s).hop_field + 8)
          (calculate_scion_mac entry.mac_key
            (layout (macs ++ (kind ++ (outer ++ inner))) s).info_field
            (layout (macs ++ (kind ++ (outer ++ inner))) s).hop_field)
      → verdict (xdp_ingress path_cache adjust_head (macs ++ (kind ++ (outer ++ inner))))
        ≡ some (xdp_pass (macs ++ 0x08 ∷ 0x00 ∷ inner))
  unfolding xdp_ingress verify_scion_mac
  xdp_ingress_decapsulates macs kind outer inner entry m k s size room cached mac =
      let p = macs ++ (kind ++ (outer ++ inner)) in
      let le : 14 + encapsulation_len p s + 20 ≤ length p = omega (
        arith,
        length-append macs (kind ++ (outer ++ inner)),
        length-append kind (outer ++ inner),
        length-append outer inner,
      ) in
      rw
        (
          outer_headers_lem p s le,
          scion_headers_lem p s le,
          cached,
          same_bytes_lem p ((layout p s).hop_field + 8)
              (calculate_scion_mac entry.mac_key (layout p s).info_field (layout p s).hop_field)
              mac,
          decapsulate_lem p (encapsulation_len p s) le,
        )
        (ap (λ (q : List ℕ). some (xdp_pass q))
          (ap (without_encapsulation p) (sym size)
            ∙ without_encapsulation_lem macs kind outer inner m k))
