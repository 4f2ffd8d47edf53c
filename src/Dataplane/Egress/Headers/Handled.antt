-- ===== src/Dataplane/Egress/Headers/Handled.antt =====
-- What becomes of a packet on the egress.
use cillion.Base.{
  ℕ, ◌+◌, ◌<◌, ◌≤◌, ◌≡◌, ◌⊎◌, inl, inr, refl, ap, ◌∙◌, Option, none, some, List, length, arith,
}
use cillion.Bpf.Key.Laws.{AreBytes}
use cillion.Bpf.Kernel.{ScionPathEntry}
use cillion.Dataplane.Packet.{Run, next, ends, verdict}
use cillion.Dataplane.Packet.Logic.{Satisfies-cases}
use cillion.Dataplane.Egress.{TcAction, tc_act_ok, tc_act_shot, choose_path}
use cillion.Dataplane.Egress.Outcomes.{HasPath, IsOther, Decided, Chosen, choose_path-Satisfies}
use cillion.Dataplane.Egress.Headers.{encapsulate, tc_egress}
use cillion.Dataplane.Egress.Headers.Recognised.{
  IsEncapsulated, Opens, encapsulate_lem, source_fits,
}

-- The arrays of the entries have their sizes.
abbrev pub AreSized : (ℕ → Option ScionPathEntry) → Type 0
AreSized cache =
    (id : ℕ) (path : ScionPathEntry)
    → cache id ≡ some path
    → (length path.next_hop_mac ≡ 6) × (length path.next_hop_ip ≡ 4)

module _ (adjust_room : ℕ → List ℕ → Option (List ℕ)) (pod_policy_map : ℕ → Option ℕ)
    (scion_path_cache : ℕ → Option ScionPathEntry) (paged : ℕ) (p : List ℕ) where
  abbrev Tc : Run TcAction TcAction
  Tc = tc_egress adjust_room pod_policy_map scion_path_cache paged p

  -- No room is opened for the headers of a path.
  pub tc_egress-refused :
      (path : ScionPathEntry) (n : ℕ)
      → choose_path pod_policy_map scion_path_cache p ≡ next (path, n)
      → adjust_room n p ≡ none
      → verdict Tc ≡ some tc_act_shot
  unfolding tc_egress encapsulate
  tc_egress-refused path n chosen refused = rw (chosen, refused) refl

  pub tc_egress-encapsulated :
      (path : ScionPathEntry) (n : ℕ) (r : List ℕ)
      → choose_path pod_policy_map scion_path_cache p ≡ next (path, n)
      → encapsulate adjust_room path n paged p ≡ next r
      → verdict Tc ≡ some (tc_act_ok r)
  unfolding tc_egress
  tc_egress-encapsulated path n r chosen made = rw (chosen, made) refl

  tc_egress-ended :
      (v : TcAction) → choose_path pod_policy_map scion_path_cache p ≡ ends v → verdict Tc ≡ some v
  unfolding tc_egress
  tc_egress-ended v ended = rw ended refl

  -- The packet has got the headers for a path of at most 256 bytes.
  pub record IsSent (r : List ℕ) : Type 0 where
    pub path : ScionPathEntry
    pub q : List ℕ
    pub has : HasPath pod_policy_map scion_path_cache p path
    pub short : path.path_len ≤ 256
    pub opened : adjust_room (72 + path.path_len) p ≡ some q
    pub encapsulated : IsEncapsulated path (72 + path.path_len) paged p q r

  abbrev pub Handled : TcAction → Type 0
  Handled (tc_act_ok r) = (IsOther pod_policy_map scion_path_cache p × (r ≡ p)) ⊎ IsSent r
  Handled tc_act_shot =
      (path : ScionPathEntry) × HasPath pod_policy_map scion_path_cache p path
      × ((256 < path.path_len) ⊎ (adjust_room (72 + path.path_len) p ≡ none))

  Decided-Handled : (v : TcAction) → Decided pod_policy_map scion_path_cache p v → Handled v
  Decided-Handled (tc_act_ok r) h = inl h
  Decided-Handled tc_act_shot (path, has, long) = (path, has, inl long)

  module _ (opens : Opens adjust_room) (sized : AreSized scion_path_cache) where
    sent :
        (path : ScionPathEntry)
        → HasPath pod_policy_map scion_path_cache p path
        → path.path_len ≤ 256
        → choose_path pod_policy_map scion_path_cache p ≡ next (path, 72 + path.path_len)
        → (o : Option (List ℕ)) → adjust_room (72 + path.path_len) p ≡ o
        → (v : TcAction) × (verdict Tc ≡ some v) × Handled v
    sent path has short chosen none refused = (
      tc_act_shot,
      tc_egress-refused path (72 + path.path_len) chosen refused,
      (path, has, inr refused),
    )
    sent path has short chosen (some q) opened =
        let (mac, ip) = sized has.pol_id path has.cached in
        let le = source_fits p has.src_ip has.source in
        let (r, made, encapsulated) =
          encapsulate_lem adjust_room opens p q path (72 + path.path_len) paged (omega arith)
            (omega arith) mac ip opened in
        (
          tc_act_ok r,
          tc_egress-encapsulated path (72 + path.path_len) r chosen made,
          inr (record {
            path = path;
            q = q;
            has = has;
            short = short;
            opened = opened;
            encapsulated = encapsulated;
          }),
        )

    -- For every packet of bytes, the TC program, with the outer headers alone, accesses nothing
    -- outside the packet and ends. The packet goes on as it came only if it is no IPv4 packet, its
    -- header is cut, or there is no policy for its source address or no path for that policy. It is
    -- dropped only if its path is longer than 256 bytes or `bpf_skb_adjust_room` fails. If not, it
    -- goes on with the outer headers for the path that the cache has for the policy of the source
    -- address, in 72 bytes beside the length of that path. The entries of the cache are supposed to
    -- have MAC addresses of six bytes and addresses of four, and `bpf_skb_adjust_room` to open its
    -- room behind the Ethernet header when it succeeds.
    pub tc_egress-Handled : AreBytes p → (v : TcAction) × (verdict Tc ≡ some v) × Handled v
    tc_egress-Handled bytes =
        elim (Satisfies-cases (Decided pod_policy_map scion_path_cache p)
          (Chosen pod_policy_map scion_path_cache p) (choose_path pod_policy_map scion_path_cache p)
          (choose_path-Satisfies pod_policy_map scion_path_cache p bytes)) [
            | inl ((path, n), chosen, (has, short, size)) ↦
                sent path has short (chosen ∙ ap (λ (k : ℕ). next (path, k)) size)
                  (adjust_room (72 + path.path_len) p) refl
            | inr (v, ended, decided) ↦ (v, tc_egress-ended v ended, Decided-Handled v decided)
          ]
