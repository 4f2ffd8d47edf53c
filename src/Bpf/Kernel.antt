-- ===== src/Bpf/Kernel.antt =====
-- What the loader calls and the repository does not hold: the kernel behind the packages ebpf,
-- link, netlink and unix.
use cillion.Base.{ℕ, String, Bool, nat_eq, Option, List}

-- types.go; it mirrors `struct scion_path_entry` of bpf/maps.h. Each array is the list of its
-- bytes.
pub record ScionPathEntry : Type 0 where
  pub next_hop_ip : List ℕ
  pub next_hop_mac : List ℕ
  pub path_len : ℕ
  pub hop_fields : List ℕ
  pub mac_key : List ℕ

pub data Result (E : Type 0) (A : Type 0) : Type 0 where
  ok : A → Result E A
  err : E → Result E A

-- The fields of `netlink.GenericQdisc` and `netlink.BpfFilter` that the loader sets.
pub record Qdisc : Type 0 where
  pub link_index : ℕ
  pub handle : ℕ
  pub parent : ℕ
  pub qdisc_type : String

pub record BpfFilter : Type 0 where
  pub link_index : ℕ
  pub parent : ℕ
  pub handle : ℕ
  pub protocol : ℕ
  pub priority : ℕ
  pub fd : ℕ
  pub name : String
  pub direct_action : Bool

pub record XdpOptions (Program : Type 0) : Type 0 where
  pub program : Option Program
  pub interface : ℕ
  pub generic_mode : Bool

pub record Kernel : Type 1 where
  -- Non-nil Go errors.
  pub Error : Type 0
  pub State : Type 0
  -- `*ebpf.Program`, `*ebpf.Map` and `link.Link`; nil is `none` where they are used.
  pub Program : Type 0
  pub Map : Type 0
  pub Link : Type 0
  pub Spec : Type 0
  -- A `netlink.Filter` of another type than `*netlink.BpfFilter`.
  pub OtherFilter : Type 0
  -- `ebpf.LoadCollectionSpecFromReader`, and `spec.LoadAndAssign` for the two kinds of objects:
  -- a program and the maps pod_policy_map and scion_path_cache.
  pub load_collection_spec : List ℕ → Result Error Spec
  pub load_and_assign : Spec → State → Result Error (Program × Map × Map) × State
  -- The `Close` methods; a nil program or map is allowed.
  pub close_program : Option Program → State → Option Error × State
  pub close_map : Option Map → State → Option Error × State
  pub close_link : Link → State → State
  pub program_fd : Program → ℕ
  -- `Put` and `Delete` of the two maps.
  pub put_policy : Map → ℕ → ℕ → State → Option Error × State
  pub delete_policy : Map → ℕ → State → Option Error × State
  pub put_path : Map → ℕ → ScionPathEntry → State → Option Error × State
  pub delete_path : Map → ℕ → State → Option Error × State
  -- package netlink; a link is its index.
  pub link_by_name : String → State → Result Error ℕ
  pub qdisc_add : Qdisc → State → Option Error × State
  pub is_eexist : Error → Bool
  pub filter_add : BpfFilter → State → Option Error × State
  pub filter_del : BpfFilter → State → Option Error × State
  pub filter_list : ℕ → ℕ → State → Result Error (List (Result OtherFilter BpfFilter))
  pub make_handle : ℕ → ℕ → ℕ
  pub handle_clsact : ℕ
  pub handle_min_egress : ℕ
  pub eth_p_all : ℕ
  -- `link.AttachXDP`
  pub attach_xdp : XdpOptions Program → State → Result Error Link × State
