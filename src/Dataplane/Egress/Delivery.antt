-- ===== src/Dataplane/Egress/Delivery.antt =====
-- From the calls of the loader to the packets of a pod: the two sides of the maps.
use cillion.Base.{
  ℕ, ◌+◌, ◌*◌, ◌%◌, ◌<◌, ◌≤◌, ◌==◌, nat_eq, if◌then◌else◌, ◌≡◌, ◌≢◌, refl, ap, sym, ◌∙◌, subst,
  Bool, true, false, Option, none, some, List, [], ◌∷◌, length, take, drop, arith, leb, leb→≤,
  ≤→leb,
}
use cillion.Bpf.Key.{little, to4, uint32, ip_to_key, key}
use cillion.Bpf.Kernel.{ScionPathEntry, Kernel}
use cillion.Bpf.Contract.{View, IsLawful, IsFresh}
use cillion.Bpf.Objects.{Images}
use cillion.Bpf.Loader.{Loader, load}
use cillion.Bpf.Loader.Load.{LoadedIfClean, load_lem}
use cillion.Bpf.Loader.Maps.{Call, calls, AllSucceed, Tables, apply_all, Holds, calls-Holds}
use cillion.Bpf.Loader.Separate.{differ}
use cillion.Dataplane.Packet.{next, when, load_be16, load_word, verdict}
use cillion.Dataplane.Packet.Logic.{load_byte-next, load_word_lem}
use cillion.Dataplane.Egress.{TcAction, tc_act_ok, tc_act_shot, parse_ipv4, decide, choose_path}
use cillion.Dataplane.Egress.Headers.{tc_egress}
use cillion.Dataplane.Egress.Headers.Recognised.{IsEncapsulated, Opens, encapsulate_lem}
use cillion.Dataplane.Egress.Headers.Handled.{tc_egress-refused, tc_egress-encapsulated}

-- An IPv4 packet, with its options inside it, and its four bytes of source address.
pub record IsFrom (p : List ℕ) (ip4 : List ℕ) : Type 0 where
  pub behind : ℕ
  pub ethertype : load_be16 {V = TcAction} p 12 ≡ next 0x0800
  pub ipv4 : parse_ipv4 p 14 ≡ next (some behind)
  pub source : take 4 (drop 26 p) ≡ ip4

header_fits : (p : List ℕ) (behind : ℕ) → parse_ipv4 p 14 ≡ next (some behind) → 34 ≤ length p
unfolding parse_ipv4
header_fits p behind e = ground arith

when_next : (b : Bool) → when {V = TcAction} b (next tt) ≡ next tt
when_next true = refl
when_next false = refl

module _ (pod_policy_map : ℕ → Option ℕ) (scion_path_cache : ℕ → Option ScionPathEntry)
    (p : List ℕ) where
  decide_lem :
      (behind k id : ℕ) (path : ScionPathEntry)
      → 34 ≤ length p
      → load_word {V = TcAction} p 26 ≡ next k
      → pod_policy_map k ≡ some id
      → scion_path_cache id ≡ some path
      → path.path_len ≤ 256
      → decide pod_policy_map scion_path_cache p 14 behind ≡ next (path, 72 + path.path_len)
  unfolding decide
  decide_lem behind k id path le source policy cached short =
      let (protocol, loaded) = load_byte-next {V = TcAction} p 23 (omega arith) in
      rw (source, policy, cached, ≤→leb path.path_len 256 short, loaded, when_next (protocol == 6))
        (ap (λ (n : ℕ). next (path, n)) (omega arith))

  choose_path_lem :
      (ip4 : List ℕ) (k id : ℕ) (path : ScionPathEntry)
      → IsFrom p ip4
      → uint32 little ip4 ≡ some k
      → pod_policy_map k ≡ some id
      → scion_path_cache id ≡ some path
      → path.path_len ≤ 256
      → choose_path pod_policy_map scion_path_cache p ≡ next (path, 72 + path.path_len)
  unfolding choose_path cillion.Base.ℕ_discrete
  choose_path_lem ip4 k id path from word policy cached short =
      let le = header_fits p from.behind from.ipv4 in
      rw
        (
          ≤→leb 14 (length p) (omega arith),
          from.ethertype,
          from.ipv4,
          decide_lem from.behind k id path le
              (load_word_lem p 26 k (ap (uint32 little) from.source ∙ word)) policy cached short,
        )
        refl

  -- With its path chosen, the packet is dropped where no room is opened, and sent with the outer
  -- headers where it is.
  abbrev pub Delivered : (ℕ → List ℕ → Option (List ℕ)) → ℕ → ScionPathEntry → Type 0
  Delivered adjust_room paged path =
      (adjust_room (72 + path.path_len) p ≡ none
        → verdict (tc_egress adjust_room pod_policy_map scion_path_cache paged p)
          ≡ some tc_act_shot)
      × ((q : List ℕ)
          → adjust_room (72 + path.path_len) p ≡ some q
          → (r : List ℕ) × (verdict (tc_egress adjust_room pod_policy_map scion_path_cache paged p)
              ≡ some (tc_act_ok r))
            × IsEncapsulated path (72 + path.path_len) paged p q r)

  delivered_lem :
      (adjust_room : ℕ → List ℕ → Option (List ℕ)) (paged : ℕ) (path : ScionPathEntry)
      → Opens adjust_room
      → 34 ≤ length p
      → length path.next_hop_mac ≡ 6
      → length path.next_hop_ip ≡ 4
      → choose_path pod_policy_map scion_path_cache p ≡ next (path, 72 + path.path_len)
      → Delivered adjust_room paged path
  delivered_lem adjust_room paged path opens le mac ip chosen =
      let n = 72 + path.path_len in
      (
        λ refused.
            tc_egress-refused adjust_room pod_policy_map scion_path_cache paged p path n chosen
              refused,
        λ q opened.
            let (r, made, encapsulated) =
              encapsulate_lem adjust_room opens p q path n paged (omega arith) (omega arith) mac ip
                opened in
            (
              r,
              tc_egress-encapsulated adjust_room pod_policy_map scion_path_cache paged p path n r
                  chosen made,
              encapsulated,
            ),
      )

key_word :
    (ip ip4 : List ℕ) (k : ℕ)
    → to4 ip ≡ some ip4
    → ip_to_key little ip ≡ key k
    → uint32 little ip4 ≡ some k
unfolding ip_to_key
key_word ip ip4 k four found = ground arith

-- The maps as `Load` makes them.
abbrev pub no_entries : Tables
no_entries = record { policies = λ k. none; paths = λ id. none }

module _ (K : Kernel) (v : View K) (L : IsLawful K v) where
  loaded-Holds :
      (m n x y : K.Map) (p q : K.Program) (s mid s' : K.State)
      → IsFresh K v s mid p m n
      → IsFresh K v mid s' q x y
      → Holds K v m n s' no_entries
  loaded-Holds m n x y p q s mid s' f g = record {
    policies = λ k.
        g.other_policies m k (λ same. differ K v L g.policy_map_new.0 f.policy_map_new.1 (sym same))
        ∙ f.policies_empty k;
    paths = λ k.
        g.other_paths n k (λ same. differ K v L g.path_map_new.0 f.path_map_new.1 (sym same))
        ∙ f.paths_empty k;
  }

  -- On a little-endian host, after a successful `Load` and a sequence of map calls that all return
  -- no error, the TC program handles every packet of a pod by the loader's entries: if the calls
  -- leave a policy for the pod's address and a path of at most 256 bytes for the policy, with a MAC
  -- address of six bytes and an address of four, then an IPv4 packet with that source address goes
  -- on with the outer headers for that path, in room for 72 bytes and the path, if
  -- `bpf_skb_adjust_room` opens it, behind the Ethernet header, and is dropped if not. The key that
  -- `IPToKey` makes of the address is the one that the program looks up.
  pub loaded_tc_encapsulates :
      (adjust_room : ℕ → List ℕ → Option (List ℕ)) (paged : ℕ)
      → Opens adjust_room
      → (images : Images) (l l' : Loader K) (s s' : K.State) (cs : List Call) (p ip ip4 : List ℕ)
        (k id : ℕ) (path : ScionPathEntry)
      → load K images l s ≡ (none, l', s')
      → AllSucceed little K l' (calls little K l' cs s').0
      → to4 ip ≡ some ip4
      → ip_to_key little ip ≡ key k
      → (apply_all little no_entries cs).policies k ≡ some id
      → (apply_all little no_entries cs).paths id ≡ some path
      → path.path_len ≤ 256
      → length path.next_hop_mac ≡ 6
      → length path.next_hop_ip ≡ 4
      → IsFrom p ip4
      → (m : K.Map) × (n : K.Map) × (l'.tc_objs.pod_policy_map ≡ some m)
        × (l'.tc_objs.scion_path_cache ≡ some n)
        × Delivered
            (v.policy_at (calls little K l' cs s').1 m)
            (v.path_at (calls little K l' cs s').1 n)
            p
            adjust_room
            paged
            path
  loaded_tc_encapsulates adjust_room paged opens images l l' s s' cs p ip ip4 k id path h ok four
        found policy cached short mac ip_size from =
      let (q, m, n, r, x, y, mid, made, f, g) =
        subst (LoadedIfClean K v L l s) h (load_lem K v L images l s) in
      let policies = ap (λ (t : Loader K). t.tc_objs.pod_policy_map) made in
      let paths = ap (λ (t : Loader K). t.tc_objs.scion_path_cache) made in
      let holds =
        calls-Holds little K l' v L m n policies paths cs s' no_entries ok
          (loaded-Holds m n x y q r s mid s' f g) in
      let policy_at = v.policy_at (calls little K l' cs s').1 m in
      let path_at = v.path_at (calls little K l' cs s').1 n in
      (
        m,
        n,
        policies,
        paths,
        delivered_lem policy_at path_at p adjust_room paged path opens
            (header_fits p from.behind from.ipv4) mac ip_size
            (choose_path_lem policy_at path_at p ip4 k id path from (key_word ip ip4 k four found)
              (holds.policies k ∙ policy) (holds.paths id ∙ cached) short),
      )
