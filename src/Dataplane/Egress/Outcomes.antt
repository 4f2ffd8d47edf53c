-- ===== src/Dataplane/Egress/Outcomes.antt =====
-- What `choose_path` decides about a packet.
use cillion.Base.{
  ℕ, ◌+◌, ◌*◌, ◌%◌, ◌<◌, ◌≤◌, ◌==◌, nat_eq, if◌then◌else◌, ◌≡◌, ◌≢◌, refl, subst, Bool, true, false,
  Option, none, some, List, length, arith, leb, leb→≤, leb-false,
}
use cillion.Bpf.Key.Laws.{AreBytes}
use cillion.Bpf.Kernel.{ScionPathEntry}
use cillion.Dataplane.Packet.{
  Run, next, ◌>>=◌, unless, when, or_return, load_byte, load_be16, load_word, fits,
}
use cillion.Dataplane.Packet.Logic.{
  Satisfies, or_return-Satisfies_none, IsByte, >>=-Satisfies, unless-Satisfies_false,
  load_byte-Satisfies, load_be16-Satisfies, load_word-Satisfies, Satisfies-eq,
}
use cillion.Dataplane.Egress.{
  TcAction, tc_act_ok, tc_act_shot, parse_eth, behind_ipv4, parse_ipv4, clamp_tcp_mss, decide,
  choose_path,
}

module _ (pod_policy_map : ℕ → Option ℕ) (scion_path_cache : ℕ → Option ScionPathEntry)
    (p : List ℕ) where
  -- The source address of the packet has a policy, and that a path.
  pub record HasPath (path : ScionPathEntry) : Type 0 where
    pub src_ip : ℕ
    pub pol_id : ℕ
    pub source : load_word {V = TcAction} p 26 ≡ next src_ip
    pub policy : pod_policy_map src_ip ≡ some pol_id
    pub cached : scion_path_cache pol_id ≡ some path

  -- Why the packet is none that the program handles.
  pub data IsOther : Type 0 where
    short : length p < 34 → IsOther
    other_protocol :
        (proto : ℕ) → load_be16 {V = TcAction} p 12 ≡ next proto → proto ≢ 0x0800 → IsOther
    cut_options :
        (first : ℕ)
        → load_byte {V = TcAction} p 14 ≡ next first
        → length p < 14 + first % 16 * 4
        → IsOther
    no_policy :
        (src_ip : ℕ)
        → load_word {V = TcAction} p 26 ≡ next src_ip
        → pod_policy_map src_ip ≡ none
        → IsOther
    no_path :
        (src_ip pol_id : ℕ)
        → load_word {V = TcAction} p 26 ≡ next src_ip
        → pod_policy_map src_ip ≡ some pol_id
        → scion_path_cache pol_id ≡ none
        → IsOther

  -- What it means that the program ends before it opens room, and that it goes on.
  abbrev pub Decided : TcAction → Type 0
  Decided (tc_act_ok q) = IsOther × (q ≡ p)
  Decided tc_act_shot = (path : ScionPathEntry) × HasPath path × (256 < path.path_len)

  abbrev pub Chosen : ScionPathEntry × ℕ → Type 0
  Chosen (path, n) = HasPath path × (path.path_len ≤ 256) × (n ≡ 72 + path.path_len)

  -- What it says about the packet that the IPv4 header is there or not.
  abbrev Inside : Option ℕ → Type 0
  Inside none = IsOther
  Inside (some behind) = 34 ≤ length p

  behind_ipv4-Satisfies : AreBytes p → 34 ≤ length p → Satisfies Decided Inside (behind_ipv4 p 14)
  unfolding behind_ipv4
  behind_ipv4-Satisfies bytes le =
      >>=-Satisfies Decided _ Inside (load_byte p 14) _
        (Satisfies-eq Decided IsByte (load_byte p 14)
          (load_byte-Satisfies Decided p 14 bytes (omega arith)))
        λ first (loaded, _).
          by_test (fits p (14 + first % 16 * 4)) (14 + first % 16 * 4)
            λ cut. cut_options first loaded (leb-false (14 + first % 16 * 4) (length p) cut)
    where
      by_test : (b : Bool) (n : ℕ) → (b ≡ false → IsOther) → Inside (if b then some n else none)
      by_test true n h = le
      by_test false n h = h refl

  parse_ipv4-Satisfies : AreBytes p → Satisfies Decided Inside (parse_ipv4 p 14)
  unfolding parse_ipv4
  parse_ipv4-Satisfies bytes = by_test (fits p 34) (leb→≤ 34 (length p)) (leb-false 34 (length p))
    where
      by_test :
          (b : Bool)
          → (b ≡ true → 34 ≤ length p)
          → (b ≡ false → length p < 34)
          → Satisfies Decided Inside (if b then behind_ipv4 p 14 else next none)
      by_test true h _ = behind_ipv4-Satisfies bytes (h refl)
      by_test false _ h = short (h refl)

  -- Behind the IPv4 header.
  decision-Satisfies :
      (behind : ℕ)
      → AreBytes p
      → 34 ≤ length p
      → Satisfies Decided Chosen (decide pod_policy_map scion_path_cache p 14 behind)
  unfolding decide
  decision-Satisfies behind bytes le =
      >>=-Satisfies Decided _ Chosen (load_word p 26) _
        (Satisfies-eq Decided _ (load_word p 26) (load_word-Satisfies Decided p 26 (omega arith)))
        λ src_ip (source, _).
          >>=-Satisfies Decided _ Chosen (or_return (pod_policy_map src_ip) (tc_act_ok p)) _
            (or_return-Satisfies_none Decided (pod_policy_map src_ip) (tc_act_ok p)
              (λ absent. (no_policy src_ip source absent, refl)))
            λ pol_id policy.
              >>=-Satisfies Decided _ Chosen (or_return (scion_path_cache pol_id) (tc_act_ok p)) _
                (or_return-Satisfies_none Decided (scion_path_cache pol_id) (tc_act_ok p)
                  (λ absent. (no_path src_ip pol_id source policy absent, refl)))
                λ path cached.
                  let has : HasPath path = record {
                    src_ip = src_ip;
                    pol_id = pol_id;
                    source = source;
                    policy = policy;
                    cached = cached;
                  } in
                  >>=-Satisfies Decided _ Chosen (unless (leb path.path_len 256) tc_act_shot) _
                    (unless-Satisfies_false Decided (leb path.path_len 256) tc_act_shot
                      λ long. (path, has, leb-false path.path_len 256 long))
                    λ _ short.
                      >>=-Satisfies Decided IsByte Chosen (load_byte p 23) _
                        (load_byte-Satisfies Decided p 23 bytes (omega arith))
                        λ protocol _.
                          >>=-Satisfies Decided _ Chosen
                            (when (protocol == 6) (clamp_tcp_mss behind (72 + path.path_len))) _
                            (clamped (protocol == 6))
                            λ _ _. (has, leb→≤ path.path_len 256 short, omega arith)
    where
      clamped : (b : Bool) → Satisfies Decided (λ (u : Unit {0}). Unit {0}) (when b (next tt))
      clamped true = tt
      clamped false = tt

  from_ethernet : (off : ℕ) → parse_eth p ≡ some off → (14 ≡ off) × (14 ≤ length p)
  from_ethernet off e = ground arith

  too_short : parse_eth p ≡ none → length p < 34
  too_short e = ground arith

  other_number : (proto : ℕ) → proto == 0x0800 ≡ false → proto ≢ 0x0800
  other_number proto e = ground arith

  -- Up to the room for the headers, the program reads nothing outside the packet.
  pub choose_path-Satisfies :
      AreBytes p → Satisfies Decided Chosen (choose_path pod_policy_map scion_path_cache p)
  unfolding choose_path
  choose_path-Satisfies bytes =
      >>=-Satisfies Decided _ Chosen (or_return (parse_eth p) (tc_act_ok p)) _
        (or_return-Satisfies_none Decided (parse_eth p) (tc_act_ok p)
          λ absent. (short (too_short absent), refl))
        λ off is_off.
          let (fourteen, le) = from_ethernet off is_off in
          >>=-Satisfies Decided _ Chosen (load_be16 p 12) _
            (Satisfies-eq Decided _ (load_be16 p 12)
              (load_be16-Satisfies Decided p 12 bytes (omega arith)))
            λ proto (loaded, _).
              >>=-Satisfies Decided _ Chosen (unless (proto == 0x0800) (tc_act_ok p)) _
                (unless-Satisfies_false Decided (proto == 0x0800) (tc_act_ok p)
                  λ differs. (other_protocol proto loaded (other_number proto differs), refl))
                λ _ _.
                  subst (λ (n : ℕ). Satisfies Decided Chosen (parse_ipv4 p n >>= after n)) fourteen
                    (>>=-Satisfies Decided Inside Chosen (parse_ipv4 p 14) _
                      (parse_ipv4-Satisfies bytes)
                      λ iph inside.
                        >>=-Satisfies Decided _ Chosen (or_return iph (tc_act_ok p)) _
                          (or_return-Satisfies_none Decided iph (tc_act_ok p)
                            λ e. (subst Inside e inside, refl))
                          λ behind e. decision-Satisfies behind bytes (subst Inside e inside))
    where
      after : ℕ → Option ℕ → Run TcAction (ScionPathEntry × ℕ)
      after n iph = or_return iph (tc_act_ok p) >>= λ behind.
          decide pod_policy_map scion_path_cache p n behind
