-- ===== src/Bpf/Objects.antt =====
-- pkg/bpf/tc_egress_bpfel.go and xdp_ingress_bpfel.go: the objects of the two eBPF programs.
pub mod Close
use cillion.Base.{ℕ, String, ◌==◌, nat_eq, if◌then◌else◌, Option, none, some, List, [], ◌∷◌, length}
use cillion.Bpf.Kernel.{Kernel, Result, ok, err}

-- The compiled ELF images, which the build embeds. In the repository both are empty.
pub record Images : Type 0 where
  pub tc_egress_bytes : List ℕ
  pub xdp_ingress_bytes : List ℕ

abbrev pub repository_images : Images
repository_images = record { tc_egress_bytes = []; xdp_ingress_bytes = [] }

module _ (K : Kernel) where
  -- An error of the kernel, or one made by `fmt.Errorf` of a format and its arguments: none, an
  -- address, an error, or the name of an interface and an error.
  pub data Error : Type 0 where
    kernel : K.Error → Error
    message : String → Error
    bad_address : String → List ℕ → Error
    wrapped : String → Error → Error
    wrapped_for : String → String → Error → Error

  pub record TcEgressObjects : Type 0 where
    pub tc_egress : Option K.Program
    pub pod_policy_map : Option K.Map
    pub scion_path_cache : Option K.Map

  pub record XdpIngressObjects : Type 0 where
    pub xdp_ingress : Option K.Program
    pub pod_policy_map : Option K.Map
    pub scion_path_cache : Option K.Map

  abbrev pub no_tc_objects : TcEgressObjects
  no_tc_objects = record { tc_egress = none; pod_policy_map = none; scion_path_cache = none }

  abbrev pub no_xdp_objects : XdpIngressObjects
  no_xdp_objects = record { xdp_ingress = none; pod_policy_map = none; scion_path_cache = none }

  -- An `interface{ Close() error }`
  pub data Closer : Type 0 where
    program : Option K.Program → Closer
    map : Option K.Map → Closer

  abbrev pub close_one : Closer → K.State → Option K.Error × K.State
  close_one (program p) s = K.close_program p s
  close_one (map m) s = K.close_map m s

  -- `_TcEgressClose` and `_XdpIngressClose`
  unfoldable pub close_all : List Closer → K.State → Option K.Error × K.State
  close_all [] s = (none, s)
  close_all (c ∷ closers) s =
      let (failure, s') = close_one c s in
      elim failure [ none ↦ close_all closers s' | some e ↦ (some e, s') ]

  abbrev pub tc_closers : TcEgressObjects → List Closer
  tc_closers o = program o.tc_egress ∷ map o.pod_policy_map ∷ map o.scion_path_cache ∷ []

  abbrev pub xdp_closers : XdpIngressObjects → List Closer
  xdp_closers o = program o.xdp_ingress ∷ map o.pod_policy_map ∷ map o.scion_path_cache ∷ []

  unfoldable pub close_tc : TcEgressObjects → K.State → Option K.Error × K.State
  unfolding close_all
  close_tc o s = close_all (tc_closers o) s

  unfoldable pub close_xdp : XdpIngressObjects → K.State → Option K.Error × K.State
  unfolding close_all
  close_xdp o s = close_all (xdp_closers o) s

  abbrev pub tc_objects : K.Program × K.Map × K.Map → TcEgressObjects
  tc_objects (p, m, n) = record {
    tc_egress = some p;
    pod_policy_map = some m;
    scion_path_cache = some n;
  }

  abbrev pub xdp_objects : K.Program × K.Map × K.Map → XdpIngressObjects
  xdp_objects (p, m, n) = record {
    xdp_ingress = some p;
    pod_policy_map = some m;
    scion_path_cache = some n;
  }

  -- `spec.LoadAndAssign(obj, opts)`: the objects are assigned only if everything is loaded.
  module _ {O : Type 0} (make : K.Program × K.Map × K.Map → O) (o : O) where
    unfoldable pub assign :
        Result K.Error (K.Program × K.Map × K.Map) → K.State → Option Error × O × K.State
    assign (ok loaded) s = (none, make loaded, s)
    assign (err e) s = (some (kernel e), o, s)

    unfoldable pub load_spec : String → Result K.Error K.Spec → K.State → Option Error × O × K.State
    unfolding assign
    load_spec format (err e) s = (some (wrapped format (kernel e)), o, s)
    load_spec format (ok spec) s = let (result, s') = K.load_and_assign spec s in assign result s'

  -- `LoadTcEgressObjects`
  unfoldable pub load_tc_egress_objects :
      List ℕ → TcEgressObjects → K.State → Option Error × TcEgressObjects × K.State
  unfolding load_spec
  load_tc_egress_objects bytes o s =
      if length bytes == 0
      then (some (message "tc_egress eBPF object not compiled: run 'go generate ./pkg/bpf/'"), o, s)
      else load_spec tc_objects o "load tc_egress: %w" (K.load_collection_spec bytes) s

  -- `LoadXdpIngressObjects`
  unfoldable pub load_xdp_ingress_objects :
      List ℕ → XdpIngressObjects → K.State → Option Error × XdpIngressObjects × K.State
  unfolding load_spec
  load_xdp_ingress_objects bytes o s =
      if length bytes == 0
      then (
        some (message "xdp_ingress eBPF object not compiled: run 'go generate ./pkg/bpf/'"),
        o,
        s,
      )
      else load_spec xdp_objects o "load xdp_ingress: %w" (K.load_collection_spec bytes) s
