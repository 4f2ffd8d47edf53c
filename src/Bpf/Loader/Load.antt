-- ===== src/Bpf/Loader/Load.antt =====
-- What `Load` leaves open.
use cillion.Base.{
  ℕ, ◌==◌, nat_eq, ◌≡◌, refl, ◌∙◌, false, Option, none, some, List, length, Bool-cases, inl, inr,
  arith,
}
use mathlib.Core.Logic.{ite, if_pos, if_neg}
use cillion.Bpf.Kernel.{Kernel, Result, ok, err}
use cillion.Bpf.Contract.{View, IsLawful, SameHandles, IsFresh}
use cillion.Bpf.Objects.{
  Images, Error, TcEgressObjects, XdpIngressObjects, close_tc, assign, load_spec,
  load_tc_egress_objects, load_xdp_ingress_objects, tc_objects, xdp_objects,
}
use cillion.Bpf.Loader.{Loader, after_xdp, after_tc, load}

module _ (K : Kernel) (v : View K) (L : IsLawful K v) where
  SameHandles-refl : (s : K.State) → SameHandles K v s s
  SameHandles-refl s = record { programs = λ p. refl; maps = λ m. refl; links = λ l. refl }

  module _ {O : Type 0} (make : K.Program × K.Map × K.Map → O) (o : O) where
    -- Either the objects are fresh and assigned, or there is an error and nothing is open that
    -- was not before.
    abbrev pub Assigned : K.State → Option (Error K) × O × K.State → Type 0
    Assigned s (none, o', s') =
        (p : K.Program) × (m : K.Map) × (n : K.Map) × (o' ≡ make (p, m, n)) × IsFresh K v s s' p m n
    Assigned s (some e, o', s') = (o' ≡ o) × SameHandles K v s s'

    assign-Assigned :
        (spec : K.Spec) (s s' : K.State) (r : Result K.Error (K.Program × K.Map × K.Map))
        → K.load_and_assign spec s ≡ (r, s')
        → Assigned s (assign K make o r s')
    unfolding assign
    assign-Assigned spec s s' (ok (p, m, n)) h = (p, m, n, refl, L.load_ok spec p m n s s' h)
    assign-Assigned spec s s' (err e) h = (refl, L.load_err spec e s s' h)

    load_spec-Assigned :
        (format : _) (r : Result K.Error K.Spec) (s : K.State)
        → Assigned s (load_spec K make o format r s)
    unfolding load_spec
    load_spec-Assigned format (err e) s = (refl, SameHandles-refl s)
    load_spec-Assigned format (ok spec) s = assign-Assigned spec s _ _ refl

  load_tc_lem :
      (bytes : List ℕ) (o : TcEgressObjects K) (s : K.State)
      → Assigned (tc_objects K) o s (load_tc_egress_objects K bytes o s)
  unfolding load_tc_egress_objects
  load_tc_lem bytes o s = elim (Bool-cases (length bytes == 0)) [
    | inl empty ↦ rw empty (refl, SameHandles-refl s)
    | inr full ↦ rw full (load_spec-Assigned (tc_objects K) o _ (K.load_collection_spec bytes) s)
  ]

  load_xdp_lem :
      (bytes : List ℕ) (o : XdpIngressObjects K) (s : K.State)
      → Assigned (xdp_objects K) o s (load_xdp_ingress_objects K bytes o s)
  unfolding load_xdp_ingress_objects
  load_xdp_lem bytes o s = elim (Bool-cases (length bytes == 0)) [
    | inl empty ↦ rw empty (refl, SameHandles-refl s)
    | inr full ↦ rw full (load_spec-Assigned (xdp_objects K) o _ (K.load_collection_spec bytes) s)
  ]

  module _ (p : K.Program) (m n : K.Map) (s : K.State) where
    abbrev pub closed_program : Option K.Error × K.State
    closed_program = K.close_program (some p) s

    abbrev pub closed_map : Option K.Error × K.State
    closed_map = K.close_map (some m) closed_program.1

    abbrev pub closed_cache : Option K.Error × K.State
    closed_cache = K.close_map (some n) closed_map.1

    close_tc-steps :
        (s' : K.State)
        → close_tc K (tc_objects K (p, m, n)) s ≡ (none, s')
        → (closed_program.0 ≡ none)
          × (closed_map.0 ≡ none)
          × (closed_cache.0 ≡ none)
          × (closed_cache.1 ≡ s')
    unfolding close_tc
    close_tc-steps s' h = ground arith

    pub program-closed_cache :
        closed_program.0 ≡ none
        → (q : K.Program)
        → v.program_open closed_cache.1 q ≡ ite (v.program_dec q p) false (v.program_open s q)
    program-closed_cache h q =
        L.program-close_map (some n) q closed_map.1
        ∙ L.program-close_map (some m) q closed_program.1
        ∙ elim (v.program_dec q p) [
          | yes e ↦ rw (if_pos _ e, e) (L.program-close p s closed_program.1 (ground arith))
          | no e ↦ rw (if_neg _ e) (L.program-close_other p q s e)
        ]

    pub map-closed_cache :
        closed_map.0 ≡ none
        → closed_cache.0 ≡ none
        → (x : K.Map)
        → v.map_open closed_cache.1 x
          ≡ ite (v.map_dec x n) false (ite (v.map_dec x m) false (v.map_open s x))
    map-closed_cache h k x = elim (v.map_dec x n) [
      | yes e ↦ rw (if_pos _ e, e) (L.map-close n closed_map.1 closed_cache.1 (ground arith))
      | no e ↦ rw (if_neg _ e) (
          L.map-close_other n x closed_map.1 e ∙ elim (v.map_dec x m) [
            | yes d ↦
                rw (if_pos _ d, d) (L.map-close m closed_program.1 closed_map.1 (ground arith))
            | no d ↦
                rw (if_neg _ d)
                  (L.map-close_other m x closed_program.1 d ∙ L.map-close_program (some p) x s)
          ])
    ]

    pub link-closed_cache : (l : K.Link) → v.attached closed_cache.1 l ≡ v.attached s l
    link-closed_cache l =
        L.link-close_map (some n) l closed_map.1
        ∙ L.link-close_map (some m) l closed_program.1
        ∙ L.link-close_program (some p) l s

  -- Closing all of a fresh load's objects without an error undoes the load.
  close_tc-fresh :
      (p : K.Program) (m n : K.Map) (s s1 s2 s3 : K.State)
      → IsFresh K v s s1 p m n
      → SameHandles K v s1 s2
      → close_tc K (tc_objects K (p, m, n)) s2 ≡ (none, s3)
      → SameHandles K v s s3
  close_tc-fresh p m n s s1 s2 s3 f same h =
      let (a, b, c, d) = close_tc-steps p m n s2 s3 h in
      rw (← d) (record {
        programs = λ q.
            program-closed_cache p m n s2 a q
            ∙ ground (arith, same.programs q, f.other_programs q, f.program_new);
        maps = λ x.
            map-closed_cache p m n s2 b c x
            ∙ ground (arith, same.maps x, f.other_maps x, f.policy_map_new, f.path_map_new);
        links = λ l. link-closed_cache p m n s2 l ∙ same.links l ∙ f.links l;
      })

  -- No `Close` of a program or a map returns an error.
  pub record ClosesCleanly : Type 0 where
    pub programs : (p : Option K.Program) (s : K.State) → (K.close_program p s).0 ≡ none
    pub maps : (m : Option K.Map) (s : K.State) → (K.close_map m s).0 ≡ none

  close_tc_clean : (o : TcEgressObjects K) (s : K.State) → ClosesCleanly → (close_tc K o s).0 ≡ none
  unfolding close_tc
  close_tc_clean o s c = ground (
    arith,
    c.programs o.tc_egress s,
    c.maps o.pod_policy_map (K.close_program o.tc_egress s).1,
    c.maps o.scion_path_cache (K.close_map o.pod_policy_map (K.close_program o.tc_egress s).1).1,
  )

  -- The result of a load: on success both programs with their maps, six handles that are new in
  -- turn; on an error, nothing that was not open before.
  abbrev pub LoadedOr : Type 0 → Loader K → K.State → Option (Error K) × Loader K × K.State → Type 0
  LoadedOr Failed l s (none, l', s') =
      (p : K.Program) × (m : K.Map) × (n : K.Map) × (q : K.Program) × (x : K.Map) × (y : K.Map)
      × (mid : K.State) × (l'
          ≡ record l { tc_objs = tc_objects K (p, m, n); xdp_objs = xdp_objects K (q, x, y) })
      × IsFresh K v s mid p m n
      × IsFresh K v mid s' q x y
  LoadedOr Failed l s (some e, l', s') = Failed

  abbrev pub Loaded : Loader K → K.State → Option (Error K) × Loader K × K.State → Type 0
  Loaded l s r = LoadedOr (SameHandles K v s r.2) l s r

  abbrev pub LoadedIfClean : Loader K → K.State → Option (Error K) × Loader K × K.State → Type 0
  LoadedIfClean l s r = LoadedOr (ClosesCleanly → SameHandles K v s r.2) l s r

  Loaded-of_clean :
      ClosesCleanly
      → (l : Loader K) (s : K.State) (r : Option (Error K) × Loader K × K.State)
      → LoadedIfClean l s r
      → Loaded l s r
  Loaded-of_clean clean l s (none, l', s') h = h
  Loaded-of_clean clean l s (some e, l', s') h = h clean

  after_xdp-Loaded :
      (l : Loader K) (s mid : K.State) (p : K.Program) (m n : K.Map)
      (r : Option (Error K) × XdpIngressObjects K × K.State)
      → IsFresh K v s mid p m n
      → Assigned (xdp_objects K) l.xdp_objs mid r
      → LoadedIfClean l s (after_xdp K (record l { tc_objs = tc_objects K (p, m, n) }) r)
  unfolding after_xdp
  after_xdp-Loaded l s mid p m n (none, xdp, u) f (q, x, y, e, g) =
      (p, m, n, q, x, y, mid, rw e, f, g)
  after_xdp-Loaded l s mid p m n (some e, xdp, u) f (same, g) = λ clean.
      close_tc-fresh p m n s mid u _ f g
        (ground (arith, close_tc_clean (tc_objects K (p, m, n)) u clean))

  after_tc-Loaded :
      (images : Images) (l : Loader K) (s : K.State)
      (r : Option (Error K) × TcEgressObjects K × K.State)
      → Assigned (tc_objects K) l.tc_objs s r
      → LoadedIfClean l s (after_tc K images l r)
  unfolding after_tc
  after_tc-Loaded images l s (some e, tc, u) (same, g) = λ clean. g
  after_tc-Loaded images l s (none, tc, u) (p, m, n, e, f) =
      rw e (after_xdp-Loaded l s u p m n _ f (load_xdp_lem images.xdp_ingress_bytes l.xdp_objs u))

  pub load_lem :
      (images : Images) (l : Loader K) (s : K.State) → LoadedIfClean l s (load K images l s)
  unfolding load
  load_lem images l s =
      after_tc-Loaded images l s _ (load_tc_lem images.tc_egress_bytes l.tc_objs s)

  -- `Load` is all or nothing: it returns both programs with their maps, all of them new, or an
  -- error, and then, if no `Close` fails, every handle and link is as it was.
  pub load_all_or_nothing :
      ClosesCleanly
      → (images : Images) (l : Loader K) (s : K.State) → Loaded l s (load K images l s)
  load_all_or_nothing clean images l s = Loaded-of_clean clean l s _ (load_lem images l s)
