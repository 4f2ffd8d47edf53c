-- ===== src/Dataplane/Ingress/Bounds.antt =====
-- The checks of `xdp_ingress` cover its accesses: each part, for any property of verdicts that holds
-- of a drop and of the packet as it came.
use cillion.Base.{
  ℕ, ◌+◌, ◌*◌, ◌%◌, ◌<◌, ◌≤◌, ◌==◌, nat_eq, if◌then◌else◌, ◌≡◌, refl, subst, Bool, true, false,
  Option, none, some, List, [], ◌∷◌, length, arith, leb→≤,
}
use cillion.Bpf.Key.Laws.{AreBytes}
use cillion.Dataplane.Packet.{Run, next, ◌>>=◌, ◌>>◌, unless, or_return, load_byte, load_be16, fits}
use cillion.Dataplane.Packet.Logic.{
  Satisfies, IsByte, >>=-Satisfies, unless-Satisfies, or_return-Satisfies, load_byte-Satisfies,
  load_be16-Satisfies,
}
use cillion.Dataplane.Ingress.{
  XdpAction, xdp_pass, xdp_drop, Layout, parse_path_meta, get_current_hop_field, outer_headers,
  scion_headers, same_bytes,
}

module _ (p : List ℕ) where
  -- The UDP header lies inside the packet, at most 74 bytes from its start.
  abbrev pub UdpInside : ℕ → Type 0
  UdpInside udp_off = (udp_off + 8 ≤ length p) × (14 ≤ udp_off) × (udp_off ≤ 74)

  -- A hop field that is found lies inside the packet.
  abbrev pub HopInside : Option ℕ → Type 0
  HopInside none = Unit
  HopInside (some off) = off + 16 ≤ length p

  -- Where the fields lie, and how far the encapsulation goes.
  abbrev pub LayoutInside : Layout → Type 0
  LayoutInside layout =
      (layout.hop_field + 16 ≤ length p)
      × (layout.info_field + 8 ≤ length p)
      × (14 + layout.encap_len ≤ length p)
      × (layout.encap_len ≤ 6239)

module _ (p : List ℕ) (bytes : AreBytes p) (R : XdpAction → Type 0) (passed : R (xdp_pass p))
    (dropped : R xdp_drop) where
  -- What follows a check may rely on it.
  check :
      {B : Type 0} (S : B → Type 0) (n : ℕ) (v : XdpAction) (k : Run XdpAction B)
      → R v
      → (n ≤ length p → Satisfies R S k)
      → Satisfies R S (unless (fits p n) v >> k)
  check S n v k r h =
      >>=-Satisfies R _ S (unless (fits p n) v) _ (unless-Satisfies R (fits p n) v r)
        λ _ e. h (leb→≤ n (length p) e)

  test :
      {B : Type 0} (S : B → Type 0) (b : Bool) (v : XdpAction) (k : Run XdpAction B)
      → R v
      → Satisfies R S k
      → Satisfies R S (unless b v >> k)
  test S b v k r h = >>=-Satisfies R _ S (unless b v) _ (unless-Satisfies R b v r) λ _ _. h

  read :
      {B : Type 0} (S : B → Type 0) (i : ℕ) (k : ℕ → Run XdpAction B)
      → i < length p
      → ((b : ℕ) → b < 256 → Satisfies R S (k b))
      → Satisfies R S (load_byte p i >>= k)
  read S i k lt h =
      >>=-Satisfies R IsByte S (load_byte p i) k (load_byte-Satisfies R p i bytes lt) h

  read_be16 :
      {B : Type 0} (S : B → Type 0) (i : ℕ) (k : ℕ → Run XdpAction B)
      → i + 1 < length p
      → ((w : ℕ) → Satisfies R S (k w))
      → Satisfies R S (load_be16 p i >>= k)
  read_be16 S i k lt h =
      >>=-Satisfies R _ S (load_be16 p i) k (load_be16-Satisfies R p i bytes lt) λ w _. h w

  pub outer_headers-Satisfies : Satisfies R (UdpInside p) (outer_headers p)
  unfolding outer_headers
  outer_headers-Satisfies = check _ 42 (xdp_pass p) _ passed λ l1.
      read_be16 _ 12 _ (omega arith) λ proto. test _ (proto == 0x0800) (xdp_pass p) _ passed (
        check _ 34 (xdp_pass p) _ passed λ l2. read _ 23 _ (omega arith) λ protocol _.
          test _ (protocol == 17) (xdp_pass p) _ passed (
            read _ 14 _ (omega arith) λ first _.
              check _ (14 + first % 16 * 4 + 8) (xdp_pass p) _ passed λ l3.
                read_be16 _ (14 + first % 16 * 4 + 2) _ (omega arith) λ port.
                  test _ (port == 30041) (xdp_pass p) _ passed
                    (omega arith, omega arith, omega arith)))

  found_inside : (off : ℕ) → HopInside p (if fits p (off + 16) then some off else none)
  found_inside off = by_test (fits p (off + 16)) (leb→≤ (off + 16) (length p))
    where
      by_test :
          (b : Bool) → (b ≡ true → off + 16 ≤ length p) → HopInside p (if b then some off else none)
      by_test true h = h refl
      by_test false h = tt

  get_current_hop_field-Satisfies :
      (scion_off meta : ℕ)
      → meta + 7 ≤ length p
      → Satisfies R (HopInside p) (get_current_hop_field p scion_off meta)
  unfolding get_current_hop_field
  get_current_hop_field-Satisfies scion_off meta inside =
      read _ (meta + 6) _ (omega arith)
        λ num_inf _. read _ meta _ (omega arith) λ pointers _. found_inside _

  meta_inside : (scion_off meta : ℕ) → parse_path_meta p scion_off ≡ some meta → meta + 7 ≤ length p
  meta_inside scion_off meta e = ground arith

  pub scion_headers-Satisfies :
      (udp_off : ℕ) → UdpInside p udp_off → Satisfies R (LayoutInside p) (scion_headers p udp_off)
  unfolding scion_headers
  scion_headers-Satisfies udp_off (l1, l2, l3) = check _ (udp_off + 8 + 12) xdp_drop _ dropped λ l4.
      >>=-Satisfies R _ _ (or_return (parse_path_meta p (udp_off + 8)) xdp_drop) _
        (or_return-Satisfies R _ xdp_drop dropped)
        λ meta e.
          let inside = meta_inside (udp_off + 8) meta e in
          >>=-Satisfies R (HopInside p) _ (get_current_hop_field p (udp_off + 8) meta) _
            (get_current_hop_field-Satisfies (udp_off + 8) meta inside)
            λ found h.
              >>=-Satisfies R _ _ (or_return found xdp_drop) _
                (or_return-Satisfies R found xdp_drop dropped)
                λ hf e'. read _ (meta + 6) _ (omega arith) λ num_inf b1.
                  read _ (meta + 5) _ (omega arith) λ num_hf b2.
                    read _ 14 _ (omega arith) λ first b3.
                      check _
                        (14 + (first % 16 * 4 + 8 + 12 + 24 + (7 + num_inf * 8 + num_hf * 16) + 8))
                        xdp_drop _ dropped
                        λ l5.
                          check _ (udp_off + 8 + 12 + 24 + 7 + 8) xdp_drop _ dropped
                            λ l6. (subst (HopInside p) e' h, l6, l5, omega arith)

  -- Bytes inside the packet are compared.
  pub same_bytes-Satisfies :
      (i : ℕ) (cs : List ℕ)
      → i + length cs ≤ length p
      → Satisfies R (λ (b : Bool). Unit {0}) (same_bytes p i cs)
  unfolding same_bytes
  same_bytes-Satisfies i [] le = tt
  same_bytes-Satisfies i (c ∷ cs) le =
      read _ i _ (omega arith)
        λ b _. branches (c == b) _ (same_bytes-Satisfies (i + 1) cs (omega arith))
    where
      branches :
          (t : Bool) (m : Run XdpAction Bool)
          → Satisfies R (λ (b : Bool). Unit {0}) m
          → Satisfies R (λ (b : Bool). Unit {0}) (if t then m else next false)
      branches true m h = h
      branches false m h = tt
