-- ===== src/Bpf/Loader/Session/Handles.antt =====
-- `Close` at the end of a session gives back what the session took.
use cillion.Base.{
  ℕ, String, ◌==◌, string_eq, ◌≡◌, ◌⊎◌, inl, inr, refl, subst, sym, ◌∙◌, Option, none, some, List,
  [], ◌∷◌, arith, Bool-cases, Option-cases,
}
use cillion.Bpf.Key.{Endian, KeyResult, key, not_ipv4, panicked, ip_to_key}
use cillion.Bpf.Kernel.{Kernel, Result, ok, err, BpfFilter}
use cillion.Bpf.Contract.{View, SameHandles}
use cillion.Bpf.Loader.{
  Loader, Ending, with_map, with_key, clsact_qdisc, tc_filter, unless_exists, add_filter, attach_tc,
  delete_filters, detach_tc,
}
use cillion.Bpf.Loader.Maps.{Call, updates_policy, deletes_policy, updates_path, deletes_path, call}
use cillion.Bpf.Loader.Session.{KeepsHandles}

module _ (K : Kernel) (v : View K) (h : KeepsHandles K v) where
  pub same : (s : K.State) → SameHandles K v s s
  same s = record { programs = λ p. refl; maps = λ m. refl; links = λ l. refl }

  pub then_same :
      {s t u : K.State} → SameHandles K v s t → SameHandles K v t u → SameHandles K v s u
  then_same a b = record {
    programs = λ p. b.programs p ∙ a.programs p;
    maps = λ m. b.maps m ∙ a.maps m;
    links = λ l. b.links l ∙ a.links l;
  }

  with_map-same :
      (o : Option K.Map) (f : K.Map → K.State → Option K.Error × K.State) (s : K.State)
      → ((m : K.Map) → SameHandles K v s (f m s).1)
      → SameHandles K v s (with_map K o f s).1
  with_map-same none f s k = same s
  with_map-same (some m) f s k = k m

  with_key-same :
      (r : KeyResult) (ip : List ℕ) (f : ℕ → K.State → Ending K × K.State) (s : K.State)
      → ((k : ℕ) → SameHandles K v s (f k s).1)
      → SameHandles K v s (with_key K r ip f s).1
  with_key-same (key k) ip f s g = g k
  with_key-same not_ipv4 ip f s g = same s
  with_key-same panicked ip f s g = same s

  pub call-same :
      (e : Endian) (l : Loader K) (c : Call) (s : K.State) → SameHandles K v s (call e K l c s).1
  unfolding call
  call-same e l (updates_policy ip id) s =
      with_key-same (ip_to_key e ip) ip _ s
        λ k. with_map-same l.tc_objs.pod_policy_map _ s λ m. h.put_policy m k id s
  call-same e l (deletes_policy ip) s =
      with_key-same (ip_to_key e ip) ip _ s
        λ k. with_map-same l.tc_objs.pod_policy_map _ s λ m. h.delete_policy m k s
  call-same e l (updates_path id x) s =
      with_map-same l.tc_objs.scion_path_cache _ s λ m. h.put_path m id x s
  call-same e l (deletes_path id) s =
      with_map-same l.tc_objs.scion_path_cache _ s λ m. h.delete_path m id s

  add_filter_state :
      (p : K.Program) (iface : String) (index : ℕ) (s : K.State)
      → (add_filter K (some p) iface index s).1
        ≡ (K.filter_add (tc_filter K index (K.program_fd p)) s).1
  unfolding add_filter
  add_filter_state p iface index s = ground arith

  add_filter-same :
      (o : Option K.Program) (iface : String) (index : ℕ) (s : K.State)
      → SameHandles K v s (add_filter K o iface index s).1
  unfolding add_filter
  add_filter-same none iface index s = same s
  add_filter-same (some p) iface index s =
      subst (SameHandles K v s) (sym (add_filter_state p iface index s)) (h.filter_add _ s)

  attach_tc_state :
      (l : Loader K) (iface : String) (s : K.State)
      → ((attach_tc K l iface s).1 ≡ s)
        ⊎ ((index : ℕ) × let s' = (K.qdisc_add (clsact_qdisc K index) s).1 in
              ((attach_tc K l iface s).1 ≡ s')
              ⊎ ((attach_tc K l iface s).1 ≡ (add_filter K l.tc_objs.tc_egress iface index s').1))
  unfolding attach_tc
  attach_tc_state l iface s = by_link (K.link_by_name iface s) refl
    where
      by_link :
          (x : Result K.Error ℕ)
          → K.link_by_name iface s ≡ x
          → ((attach_tc K l iface s).1 ≡ s)
            ⊎ ((index : ℕ) × let s' = (K.qdisc_add (clsact_qdisc K index) s).1 in
                  ((attach_tc K l iface s).1 ≡ s')
                  ⊎ ((attach_tc K l iface s).1
                      ≡ (add_filter K l.tc_objs.tc_egress iface index s').1))
      by_link (err x) found = inl (ground arith)
      by_link (ok index) found =
          elim (Option-cases (unless_exists K (K.qdisc_add (clsact_qdisc K index) s).0)) [
            | inl e ↦ inr (index, inr (ground arith))
            | inr (x, e) ↦ inr (index, inl (ground arith))
          ]

  pub attach_tc-same :
      (l : Loader K) (iface : String) (s : K.State) → SameHandles K v s (attach_tc K l iface s).1
  attach_tc-same l iface s = elim (attach_tc_state l iface s) [
    | inl e ↦ subst (SameHandles K v s) (sym e) (same s)
    | inr (index, inl e) ↦ subst (SameHandles K v s) (sym e) (h.qdisc_add _ s)
    | inr (index, inr e) ↦ subst (SameHandles K v s) (sym e) (
        then_same (h.qdisc_add (clsact_qdisc K index) s)
          (add_filter-same l.tc_objs.tc_egress iface index _))
  ]

  delete_filters-same :
      (fs : List (Result K.OtherFilter BpfFilter)) (s : K.State)
      → SameHandles K v s (delete_filters K fs s).1
  unfolding delete_filters
  delete_filters-same [] s = same s
  delete_filters-same (err other ∷ fs) s = delete_filters-same fs s
  delete_filters-same (ok f ∷ fs) s = elim (Bool-cases (f.name == "tc_egress")) [
    | inr other ↦ rw other (delete_filters-same fs s)
    | inl own ↦ elim (Option-cases (K.filter_del f s).0) [
      | inr (x, failed) ↦
          let e : (delete_filters K (ok f ∷ fs) s).1 ≡ (K.filter_del f s).1 = ground arith in
          subst (SameHandles K v s) (sym e) (h.filter_del f s)
      | inl gone ↦
          let e : (delete_filters K (ok f ∷ fs) s).1
              ≡ (delete_filters K fs (K.filter_del f s).1).1 =
            ground arith in
          subst (SameHandles K v s) (sym e)
            (then_same (h.filter_del f s) (delete_filters-same fs (K.filter_del f s).1))
    ]
  ]

  detach_tc_state :
      (iface : String) (s : K.State)
      → ((detach_tc K iface s).1 ≡ s)
        ⊎ ((fs : List (Result K.OtherFilter BpfFilter)) × ((detach_tc K iface s).1
              ≡ (delete_filters K fs s).1))
  unfolding detach_tc
  detach_tc_state iface s = by_link (K.link_by_name iface s) refl
    where
      by_list :
          (index : ℕ) (x : Result K.Error (List (Result K.OtherFilter BpfFilter)))
          → K.link_by_name iface s ≡ ok index
          → K.filter_list index K.handle_min_egress s ≡ x
          → ((detach_tc K iface s).1 ≡ s)
            ⊎ ((fs : List (Result K.OtherFilter BpfFilter)) × ((detach_tc K iface s).1
                  ≡ (delete_filters K fs s).1))
      by_list index (err x) found listed = inl (ground arith)
      by_list index (ok fs) found listed = inr (fs, ground arith)

      by_link :
          (x : Result K.Error ℕ)
          → K.link_by_name iface s ≡ x
          → ((detach_tc K iface s).1 ≡ s)
            ⊎ ((fs : List (Result K.OtherFilter BpfFilter)) × ((detach_tc K iface s).1
                  ≡ (delete_filters K fs s).1))
      by_link (err x) found = inl (ground arith)
      by_link (ok index) found =
          by_list index (K.filter_list index K.handle_min_egress s) found refl

  pub detach_tc-same : (iface : String) (s : K.State) → SameHandles K v s (detach_tc K iface s).1
  detach_tc-same iface s = elim (detach_tc_state iface s) [
    | inl e ↦ subst (SameHandles K v s) (sym e) (same s)
    | inr (fs, e) ↦ subst (SameHandles K v s) (sym e) (delete_filters-same fs s)
  ]
