-- ===== src/Bpf/Loader.antt =====
-- pkg/bpf/loader.go. Every method returns its error, the loader after it and the kernel's state. A
-- method that dereferences nil panics.
pub mod Maps
pub mod Load
pub mod Separate
pub mod Tc
pub mod Close
pub mod Session
use cillion.Base.{
  ℕ, String, ◌==◌, string_eq, if◌then◌else◌, Bool, true, false, Option, none, some, List, [], ◌∷◌,
}
use cillion.Bpf.Key.{Endian, KeyResult, key, not_ipv4, panicked, ip_to_key}
use cillion.Bpf.Kernel.{ScionPathEntry, Kernel, Result, ok, err, Qdisc, BpfFilter, XdpOptions}
use cillion.Bpf.Objects.{
  Images, Error, kernel, bad_address, wrapped, wrapped_for, TcEgressObjects, XdpIngressObjects,
  no_tc_objects, no_xdp_objects, close_tc, close_xdp, load_tc_egress_objects,
  load_xdp_ingress_objects,
}

module _ (K : Kernel) where
  pub record Loader : Type 0 where
    pub tc_objs : TcEgressObjects K
    pub xdp_objs : XdpIngressObjects K
    pub xdp_link : Option K.Link

  -- How a method ends.
  pub data Ending : Type 0 where
    returned : Option (Error K) → Ending
    panics : Ending

  -- `New`
  abbrev pub new : Loader
  new = record { tc_objs = no_tc_objects K; xdp_objs = no_xdp_objects K; xdp_link = none }

  abbrev pub LoadResult : Type 0
  LoadResult = Option (Error K) × Loader × K.State

  -- `Load`, behind its second step and behind its first.
  unfoldable pub after_xdp : Loader → Option (Error K) × XdpIngressObjects K × K.State → LoadResult
  after_xdp l (some e, xdp, s) = (
    some (wrapped "load xdp_ingress: %w" e),
    record l { xdp_objs = xdp },
    (close_tc K l.tc_objs s).1,
  )
  after_xdp l (none, xdp, s) = (none, record l { xdp_objs = xdp }, s)

  unfoldable pub after_tc :
      Images → Loader → Option (Error K) × TcEgressObjects K × K.State → LoadResult
  unfolding after_xdp
  after_tc images l (some e, tc, s) =
      (some (wrapped "load tc_egress: %w" e), record l { tc_objs = tc }, s)
  after_tc images l (none, tc, s) =
      after_xdp (record l { tc_objs = tc })
        (load_xdp_ingress_objects K images.xdp_ingress_bytes l.xdp_objs s)

  unfoldable pub load : Images → Loader → K.State → LoadResult
  unfolding after_tc
  load images l s = after_tc images l (load_tc_egress_objects K images.tc_egress_bytes l.tc_objs s)

  abbrev pub clsact_qdisc : ℕ → Qdisc
  clsact_qdisc index = record {
    link_index = index;
    handle = K.make_handle 0xffff 0;
    parent = K.handle_clsact;
    qdisc_type = "clsact";
  }

  abbrev pub tc_filter : ℕ → ℕ → BpfFilter
  tc_filter index fd = record {
    link_index = index;
    parent = K.handle_min_egress;
    handle = K.make_handle 0 1;
    protocol = K.eth_p_all;
    priority = 1;
    fd = fd;
    name = "tc_egress";
    direct_action = true;
  }

  -- `err != nil && !errors.Is(err, unix.EEXIST)`
  abbrev pub unless_exists : Option K.Error → Option K.Error
  unless_exists none = none
  unless_exists (some e) = if K.is_eexist e then none else some e

  -- The part from `tcObjs.…TcEgress.FD()` on.
  unfoldable pub add_filter : Option K.Program → String → ℕ → K.State → Ending × K.State
  add_filter none iface index s = (panics, s)
  add_filter (some program) iface index s =
      let (failure, s') = K.filter_add (tc_filter index (K.program_fd program)) s in
      elim failure [
        | none ↦ (returned none, s')
        | some e ↦ (
          returned (some (wrapped_for "AttachTC: add BPF filter on %q: %w" iface (kernel e))),
          s',
        )
      ]

  unfoldable pub attach_tc : Loader → String → K.State → Ending × K.State
  unfolding add_filter
  attach_tc l iface s = elim (K.link_by_name iface s) [
    | err e ↦ (returned (some (wrapped_for "AttachTC: link %q not found: %w" iface (kernel e))), s)
    | ok index ↦
        let (failure, s') = K.qdisc_add (clsact_qdisc index) s in
        elim (unless_exists failure) [
          | some e ↦ (
            returned (some (wrapped_for "AttachTC: add clsact qdisc on %q: %w" iface (kernel e))),
            s',
          )
          | none ↦ add_filter l.tc_objs.tc_egress iface index s'
        ]
  ]

  -- The loop of `DetachTC`: `bf, ok := f.(*netlink.BpfFilter); ok && bf.Name == "tc_egress"`.
  unfoldable pub delete_filters :
      List (Result K.OtherFilter BpfFilter) → K.State → Option K.Error × K.State
  delete_filters [] s = (none, s)
  delete_filters (err other ∷ fs) s = delete_filters fs s
  delete_filters (ok f ∷ fs) s =
      let (failure, s') = K.filter_del f s in
      let rest = delete_filters fs s' in
      let skipped = delete_filters fs s in
      if f.name == "tc_egress"
      then elim failure [ none ↦ rest | some e ↦ (some e, s') ]
      else skipped

  unfoldable pub detach_tc : String → K.State → Option (Error K) × K.State
  unfolding delete_filters
  detach_tc iface s = elim (K.link_by_name iface s) [
    | err e ↦ (some (wrapped_for "DetachTC: link %q not found: %w" iface (kernel e)), s)
    | ok index ↦ elim (K.filter_list index K.handle_min_egress s) [
      | err e ↦ (some (wrapped_for "DetachTC: list filters on %q: %w" iface (kernel e)), s)
      | ok filters ↦
          let (failure, s') = delete_filters filters s in
          elim failure [
            | none ↦ (none, s')
            | some e ↦ (some (wrapped_for "DetachTC: del filter on %q: %w" iface (kernel e)), s')
          ]
    ]
  ]

  abbrev xdp_options : Loader → ℕ → XdpOptions K.Program
  xdp_options l index = record {
    program = l.xdp_objs.xdp_ingress;
    interface = index;
    generic_mode = true;
  }

  -- `l.xdpLink, err = link.AttachXDP(…)`: the field is assigned before the error is looked at, and
  -- is nil if there is one.
  unfoldable pub attach_xdp : Loader → String → K.State → Option (Error K) × Loader × K.State
  attach_xdp l iface s = elim (K.link_by_name iface s) [
    | err e ↦ (some (wrapped_for "AttachXDP: link %q not found: %w" iface (kernel e)), l, s)
    | ok index ↦
        let (result, s') = K.attach_xdp (xdp_options l index) s in
        elim result [
          | err e ↦ (
            some (wrapped_for "AttachXDP: attach to %q: %w" iface (kernel e)),
            record l { xdp_link = none },
            s',
          )
          | ok link ↦ (none, record l { xdp_link = some link }, s')
        ]
  ]

  abbrev not_an_address : List ℕ → Ending
  not_an_address ip = returned (some (bad_address "IPToKey: not an IPv4 address: %v" ip))

  abbrev ending_of : Option K.Error → Ending
  ending_of none = returned none
  ending_of (some e) = returned (some (kernel e))

  -- A method of a map; the map is nil before `Load`.
  abbrev with_map :
      Option K.Map → (K.Map → K.State → Option K.Error × K.State) → K.State → Ending × K.State
  with_map none f s = (panics, s)
  with_map (some m) f s = let (failure, s') = f m s in (ending_of failure, s')

  abbrev with_key :
      KeyResult → List ℕ → (ℕ → K.State → Ending × K.State) → K.State → Ending × K.State
  with_key (key k) ip f s = f k s
  with_key not_ipv4 ip f s = (not_an_address ip, s)
  with_key panicked ip f s = (panics, s)

  unfoldable pub update_pod_policy : Endian → Loader → List ℕ → ℕ → K.State → Ending × K.State
  update_pod_policy e l pod_ip policy_id =
      with_key (ip_to_key e pod_ip) pod_ip
        λ k. with_map l.tc_objs.pod_policy_map (λ m. K.put_policy m k policy_id)

  unfoldable pub delete_pod_policy : Endian → Loader → List ℕ → K.State → Ending × K.State
  delete_pod_policy e l pod_ip =
      with_key (ip_to_key e pod_ip) pod_ip
        λ k. with_map l.tc_objs.pod_policy_map (λ m. K.delete_policy m k)

  unfoldable pub update_scion_path : Loader → ℕ → ScionPathEntry → K.State → Ending × K.State
  update_scion_path l policy_id entry =
      with_map l.tc_objs.scion_path_cache (λ m. K.put_path m policy_id entry)

  unfoldable pub delete_scion_path : Loader → ℕ → K.State → Ending × K.State
  delete_scion_path l policy_id =
      with_map l.tc_objs.scion_path_cache (λ m. K.delete_path m policy_id)

  abbrev close_xdp_link : Option K.Link → K.State → K.State
  close_xdp_link none s = s
  close_xdp_link (some link) s = K.close_link link s

  -- `Close`; the errors are dropped.
  unfoldable pub close : Loader → K.State → K.State
  close l s =
      let s1 = close_xdp_link l.xdp_link s in
      let s2 = (close_tc K l.tc_objs s1).1 in (close_xdp K l.xdp_objs s2).1
