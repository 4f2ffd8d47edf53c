-- ===== src/Dataplane/Egress/Headers/Recognised.antt =====
-- What becomes of a packet that `tc_egress` encapsulates.
use cillion.Base.{
  ℕ, ◌+◌, ◌-◌, ◌%◌, ◌≤◌, nat_eq, ◌≡◌, ap, sym, ◌∙◌, subst, Option, some, List, [], ◌∷◌, ◌++◌,
  length, take, drop, arith, length-append, length-take, take-drop_front, drop-prefix, drop-drop,
}
use cillion.Bpf.Key.Laws.{AreBytes, length-drop}
use cillion.Bpf.Kernel.{ScionPathEntry}
use cillion.Dataplane.Packet.{next, load_byte, load_be16, word, load_word}
use cillion.Dataplane.Ingress.{outer_headers}
use cillion.Dataplane.Egress.{TcAction, choose_path}
use cillion.Dataplane.Egress.Outcomes.{Chosen, choose_path-Satisfies}
use cillion.Dataplane.Egress.Headers.{encapsulate}
use cillion.Dataplane.Egress.Headers.Written.{
  written, write_outer_headers_lem, outer_headers-written, destination-written, node-written,
  source-written, next_hop-written, ip_len-written, udp_len-written, drop-written,
}

-- What a packet has become: `p` as it came, `q` with the room for `n` bytes.
pub record IsEncapsulated (path : ScionPathEntry) (n paged : ℕ) (p q r : List ℕ) : Type 0 where
  pub recognised : outer_headers r ≡ next 34
  pub destination : take 6 r ≡ path.next_hop_mac
  pub node : take 6 (drop 6 r) ≡ take 6 (drop 6 p)
  pub source : take 4 (drop 26 r) ≡ take 4 (drop 26 q)
  pub next_hop : take 4 (drop 30 r) ≡ path.next_hop_ip
  pub ip_len : load_be16 {V = TcAction} r 16 ≡ next ((length r + paged - 14) % 65_536)
  pub udp_len : load_be16 {V = TcAction} r 38 ≡ next ((length r + paged - 34) % 65_536)
  pub inner : drop (14 + n) r ≡ drop 14 p

pub source_fits : (p : List ℕ) (k : ℕ) → load_word {V = TcAction} p 26 ≡ next k → 30 ≤ length p
unfolding load_word
source_fits p k e = omega (arith, length-drop 26 p, four (drop 26 p) e)
  where
    four : (bs : List ℕ) → word {V = TcAction} bs ≡ next k → 4 ≤ length bs
    four [] h = cc
    four (a ∷ []) h = cc
    four (a ∷ b ∷ []) h = cc
    four (a ∷ b ∷ c ∷ []) h = cc
    four (a ∷ b ∷ c ∷ d ∷ bs) h = omega arith

module _ (path : ScionPathEntry) (p room : List ℕ) (n paged : ℕ)
    (mac : length path.next_hop_mac ≡ 6) (ip : length path.next_hop_ip ≡ 4) (le : 14 ≤ length p)
    (size : length room ≡ n) (headers : 28 ≤ n) where
  abbrev opened : List ℕ
  opened = take 14 p ++ (room ++ drop 14 p)

  opened_size : 42 ≤ length opened
  opened_size = omega (
    arith,
    length-append (take 14 p) (room ++ drop 14 p),
    length-append room (drop 14 p),
    length-take 14 p le,
  )

  inner_lem : drop (14 + n) (written path opened paged) ≡ drop 14 p
  inner_lem =
      let more : 42 + (n - 28) ≡ 14 + n = omega arith in
      let behind : drop (14 + n) (written path opened paged) ≡ drop (14 + n) opened =
        subst (λ (k : ℕ). drop k (written path opened paged) ≡ drop k opened) more
          (drop-written path opened paged mac ip opened_size (n - 28)) in
      behind
      ∙ (sym (drop-drop n 14 opened)
          ∙ (ap (drop n) (drop-prefix (take 14 p) (room ++ drop 14 p) 14 (length-take 14 p le))
              ∙ drop-prefix room (drop 14 p) n size))

  node_lem : take 6 (drop 6 opened) ≡ take 6 (drop 6 p)
  node_lem = take-drop_front 6 6 14 p (room ++ drop 14 p) (omega arith) le

  written-IsEncapsulated : IsEncapsulated path n paged p opened (written path opened paged)
  unfolding load_byte load_be16
  written-IsEncapsulated = record {
    recognised = outer_headers-written path opened paged mac ip opened_size;
    destination = destination-written path opened paged mac ip opened_size;
    node = node-written path opened paged mac ip opened_size ∙ node_lem;
    source = source-written path opened paged mac ip opened_size;
    next_hop = next_hop-written path opened paged mac ip opened_size;
    ip_len = ip_len-written path opened paged mac ip opened_size;
    udp_len = udp_len-written path opened paged mac ip opened_size;
    inner = inner_lem;
  }

-- The documented behaviour of `bpf_skb_adjust_room` with `BPF_ADJ_ROOM_MAC`: it adds bytes behind the
-- Ethernet header.
abbrev pub Opens : (ℕ → List ℕ → Option (List ℕ)) → Type 0
Opens adjust_room =
    (n : ℕ) (p q : List ℕ)
    → adjust_room n p ≡ some q
    → (room : List ℕ) × (length room ≡ n) × (q ≡ take 14 p ++ (room ++ drop 14 p))

module _ (adjust_room : ℕ → List ℕ → Option (List ℕ)) (opens : Opens adjust_room) where
  pub encapsulate_lem :
      (p q : List ℕ) (path : ScionPathEntry) (n paged : ℕ)
      → 14 ≤ length p
      → 28 ≤ n
      → length path.next_hop_mac ≡ 6
      → length path.next_hop_ip ≡ 4
      → adjust_room n p ≡ some q
      → (r : List ℕ) × (encapsulate adjust_room path n paged p ≡ next r)
        × IsEncapsulated path n paged p q r
  unfolding encapsulate
  encapsulate_lem p q path n paged le headers mac ip opened_ok =
      let (room, size, parts) = opens n p q opened_ok in
      let enough = opened_size path p room n paged mac ip le size headers in
      (
        written path q paged,
        rw opened_ok (write_outer_headers_lem path q paged mac ip (rw parts enough)),
        subst (λ (t : List ℕ). IsEncapsulated path n paged p t (written path t paged)) (sym parts)
            (written-IsEncapsulated path p room n paged mac ip le size headers),
      )

module _ (pod_policy_map : ℕ → Option ℕ) (scion_path_cache : ℕ → Option ScionPathEntry)
    (adjust_room : ℕ → List ℕ → Option (List ℕ)) (opens : Opens adjust_room) where
  -- The path is chosen for a packet with two headers inside it.
  chosen :
      (p : List ℕ) (path : ScionPathEntry) (n : ℕ)
      → AreBytes p
      → choose_path pod_policy_map scion_path_cache p ≡ next (path, n)
      → (30 ≤ length p) × (72 ≤ n)
  chosen p path n bytes e =
      let (has, _, size) : Chosen pod_policy_map scion_path_cache p (path, n) =
        rw e at (choose_path-Satisfies pod_policy_map scion_path_cache p bytes) in
      (source_fits p has.src_ip has.source, omega arith)

  -- If the TC program chooses a path for a packet of bytes, with a MAC address of six bytes and an
  -- address of four, and `bpf_skb_adjust_room` succeeds and opens its room behind the Ethernet
  -- header, then the outer headers are written, whatever is in the room. The XDP program of the other
  -- node takes the packet for one of SCION, with 34 bytes before the UDP header. It goes from the
  -- MAC address that it had to the next hop's MAC and IP address. The two lengths are those of the
  -- packet without the Ethernet header and without both, in sixteen bits. The inner packet is the
  -- packet as it was behind its Ethernet header. The outer source address is what the room had there.
  pub encapsulate-IsEncapsulated :
      (p q : List ℕ) (path : ScionPathEntry) (n paged : ℕ)
      → AreBytes p
      → choose_path pod_policy_map scion_path_cache p ≡ next (path, n)
      → length path.next_hop_mac ≡ 6
      → length path.next_hop_ip ≡ 4
      → adjust_room n p ≡ some q
      → (r : List ℕ) × (encapsulate adjust_room path n paged p ≡ next r)
        × IsEncapsulated path n paged p q r
  encapsulate-IsEncapsulated p q path n paged bytes e mac ip opened_ok =
      let (le, headers) = chosen p path n bytes e in
      encapsulate_lem adjust_room opens p q path n paged (omega arith) (omega arith) mac ip
        opened_ok
