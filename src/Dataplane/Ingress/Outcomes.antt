-- ===== src/Dataplane/Ingress/Outcomes.antt =====
-- What `xdp_ingress` may do to a packet.
use cillion.Base.{
  ℕ, ◌+◌, ◌≤◌, nat_eq, if◌then◌else◌, ◌≡◌, refl, ap, ◌∙◌, ◌⊎◌, inl, inr, Bool, true, Option, none,
  some, List, [], ◌∷◌, ◌++◌, length, take, drop, arith, leb→≤, ≤→leb,
}
use cillion.Bpf.Key.Laws.{AreBytes}
use cillion.Bpf.Kernel.{ScionPathEntry}
use cillion.Dataplane.Packet.{next, faults, unless, or_return, verdict, fits}
use cillion.Dataplane.Packet.Logic.{
  Satisfies, >>=-Satisfies, unless-Satisfies, or_return-Satisfies, verdict-Satisfies, Satisfies-eq,
}
use cillion.Dataplane.Ingress.{
  XdpAction, xdp_pass, xdp_drop, Layout, outer_headers, scion_headers, verify_scion_mac,
  calculate_scion_mac, load_eth, store_eth, decapsulate, xdp_ingress,
}
use cillion.Dataplane.Ingress.Bounds.{
  UdpInside, outer_headers-Satisfies, LayoutInside, scion_headers-Satisfies, same_bytes-Satisfies,
}

-- The packet without `n` bytes of encapsulation behind its Ethernet header, which is IPv4's.
abbrev pub without_encapsulation : List ℕ → ℕ → List ℕ
without_encapsulation p n = (take 12 p ++ 0x08 ∷ 0x00 ∷ []) ++ drop 14 (drop n p)

module _ (path_cache : ℕ → Option ScionPathEntry) (p : List ℕ) where
  -- The headers lie inside the packet, and the MAC of the current hop field is the one computed
  -- with the key of entry 0.
  pub record Accepted (n : ℕ) : Type 0 where
    pub udp_off : ℕ
    pub layout : Layout
    pub entry : ScionPathEntry
    pub outer : outer_headers p ≡ next udp_off
    pub scion : scion_headers p udp_off ≡ next layout
    pub inside : LayoutInside p layout
    pub local_crypto : path_cache 0 ≡ some entry
    pub valid : verify_scion_mac p entry.mac_key layout.info_field layout.hop_field ≡ next true
    pub length_is : n ≡ layout.encap_len

  abbrev pub Handled : XdpAction → Type 0
  Handled v =
      (v ≡ xdp_pass p)
      ⊎ (v ≡ xdp_drop)
      ⊎ ((n : ℕ) × Accepted n × (v ≡ xdp_pass (without_encapsulation p n)))

  module _ (adjust_head : ℕ → List ℕ → Option (List ℕ))
      (moves : (n : ℕ) (q q' : List ℕ) → adjust_head n q ≡ some q' → q' ≡ drop n q) where
    dropped : Handled xdp_drop
    dropped = inr (inl refl)

    if_fits :
        (q x : List ℕ) (m : ℕ)
        → m ≤ length q
        → Satisfies Handled (λ y. y ≡ x) (if fits q m then next x else faults)
    if_fits q x m le = rw (≤→leb m (length q) le) refl

    decapsulate-Satisfies :
        (n : ℕ)
        → 14 + n ≤ length p
        → Accepted n
        → Satisfies Handled Handled (decapsulate path_cache adjust_head p n)
    unfolding decapsulate
    decapsulate-Satisfies n le acc =
        >>=-Satisfies Handled _ Handled (load_eth p) _ (if_fits p _ 14 (omega arith)) λ eth is_eth.
          >>=-Satisfies Handled _ Handled (or_return (adjust_head n p) xdp_drop) _
            (or_return-Satisfies Handled (adjust_head n p) xdp_drop dropped)
            λ q moved.
              >>=-Satisfies Handled _ Handled (unless (fits q 14) xdp_drop) _
                (unless-Satisfies Handled (fits q 14) xdp_drop dropped)
                λ _ l1.
                  >>=-Satisfies Handled _ Handled (store_eth eth q) _
                    (if_fits q _ 14 (leb→≤ 14 (length q) l1))
                    λ q' is_q.
                      >>=-Satisfies Handled _ Handled (unless (fits q' 34) xdp_drop) _
                        (unless-Satisfies Handled (fits q' 34) xdp_drop dropped)
                        λ _ _.
                          inr
                            (inr (n, acc, ap xdp_pass (is_q ∙ rw (is_eth, moves n p q moved) refl)))

    xdp_ingress-Satisfies :
        AreBytes p → Satisfies Handled Handled (xdp_ingress path_cache adjust_head p)
    unfolding xdp_ingress verify_scion_mac
    xdp_ingress-Satisfies bytes =
        >>=-Satisfies Handled _ Handled (outer_headers p) _
          (Satisfies-eq Handled (UdpInside p) (outer_headers p)
            (outer_headers-Satisfies p bytes Handled (inl refl) dropped))
          λ udp_off (outer, udp_inside).
            >>=-Satisfies Handled _ Handled (scion_headers p udp_off) _
              (Satisfies-eq Handled (LayoutInside p) (scion_headers p udp_off)
                (scion_headers-Satisfies p bytes Handled (inl refl) dropped udp_off udp_inside))
              λ layout (scion, inside).
                >>=-Satisfies Handled _ Handled (or_return (path_cache 0) xdp_drop) _
                  (or_return-Satisfies Handled (path_cache 0) xdp_drop dropped)
                  λ entry found.
                    >>=-Satisfies Handled _ Handled
                      (verify_scion_mac p entry.mac_key layout.info_field layout.hop_field) _
                      (Satisfies-eq Handled (λ (b : Bool). Unit {0}) _
                        (same_bytes-Satisfies p bytes Handled (inl refl) dropped
                          (layout.hop_field + 8)
                          (calculate_scion_mac entry.mac_key layout.info_field layout.hop_field)
                          (omega (arith, inside.0))))
                      λ valid (verified, _).
                        >>=-Satisfies Handled _ Handled (unless valid xdp_drop) _
                          (unless-Satisfies Handled valid xdp_drop dropped)
                          λ _ is_valid. decapsulate-Satisfies layout.encap_len inside.2 (record {
                            udp_off = udp_off;
                            layout = layout;
                            entry = entry;
                            outer = outer;
                            scion = scion;
                            inside = inside;
                            local_crypto = found;
                            valid = verified ∙ ap next is_valid;
                            length_is = refl;
                          })

    -- For every packet of bytes, the XDP program reads nothing outside the packet and ends, and the
    -- packet goes on as it came, is dropped, or goes on with its encapsulation cut out behind the
    -- Ethernet header. The last happens only to a UDP packet for the SCION port whose headers,
    -- fields and encapsulation of at most 6239 bytes lie inside it, if the path cache has an entry
    -- 0 and the MAC of the current hop field is the one computed with its key. The kernel's
    -- `bpf_xdp_adjust_head` is only supposed to remove bytes at the front when it succeeds.
    pub xdp_ingress-Handled :
        AreBytes p
        → (v : XdpAction) × (verdict (xdp_ingress path_cache adjust_head p) ≡ some v) × Handled v
    xdp_ingress-Handled bytes =
        verdict-Satisfies Handled (xdp_ingress path_cache adjust_head p)
          (xdp_ingress-Satisfies bytes)

    -- Without an entry 0 no packet is decapsulated.
    pub xdp_ingress-no_entry :
        AreBytes p
        → path_cache 0 ≡ none
        → (verdict (xdp_ingress path_cache adjust_head p) ≡ some (xdp_pass p))
          ⊎ (verdict (xdp_ingress path_cache adjust_head p) ≡ some xdp_drop)
    xdp_ingress-no_entry bytes absent = by_outcome (xdp_ingress-Handled bytes)
      where
        by_outcome :
            (v : XdpAction) × (verdict (xdp_ingress path_cache adjust_head p) ≡ some v) × Handled v
            → (verdict (xdp_ingress path_cache adjust_head p) ≡ some (xdp_pass p))
              ⊎ (verdict (xdp_ingress path_cache adjust_head p) ≡ some xdp_drop)
        by_outcome (v, e, inl passed) = inl (e ∙ ap some passed)
        by_outcome (v, e, inr (inl is_drop)) = inr (e ∙ ap some is_drop)
        by_outcome (v, e, inr (inr (n, acc, _))) = absurd (ground arith)
