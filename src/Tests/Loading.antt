-- ===== src/Tests/Loading.antt =====
-- Runs of the loader on the small kernel, and its theorems there.
use cillion.Base.{
  ℕ, nat_eq, string_eq, ℕ_discrete, ◌≡◌, ◌≢◌, ◌↔◌, refl, true, Option, none, some, List, [], ◌∷◌,
  arith,
}
use cillion.Bpf.Key.{little, to4, uint32, ip_to_key}
use cillion.Bpf.Kernel.{ScionPathEntry, Result, ok, err, BpfFilter}
use cillion.Bpf.Objects.{
  Images, Error, repository_images, wrapped, message, close_tc, load_tc_egress_objects,
  load_xdp_ingress_objects, tc_objects, xdp_objects,
}
use cillion.Bpf.Loader.{
  Loader, new, after_tc, load, returned, tc_filter, add_filter, attach_tc, delete_filters,
  detach_tc, attach_xdp, close,
}
use cillion.Bpf.Loader.Maps.{
  Call, updates_policy, deletes_policy, updates_path, Tables, apply_all, call, calls, Holds,
  calls-Holds,
}
use cillion.Bpf.Loader.Load.{ClosesCleanly, Loaded, load_all_or_nothing}
use cillion.Bpf.Loader.Tc.{detach_tc_lem}
use cillion.Bpf.Loader.Close.{attach_xdp_loses_link}
use cillion.Tests.Keys.{pod_ip}
use cillion.Tests.KernelModel.{State, toy_kernel, toy_kernel_view, toy_kernel-IsLawful}

abbrev pub empty_kernel : State
empty_kernel = record {
  programs = [];
  maps = [];
  links = [];
  policies = λ m k. none;
  paths = λ m k. none;
  clsact = 2 ∷ [];
  filters = [];
}

abbrev pub images : Images
images = record { tc_egress_bytes = 127 ∷ 69 ∷ []; xdp_ingress_bytes = 127 ∷ 69 ∷ [] }

loading : Images → Option (Error toy_kernel) × Loader toy_kernel × State
unfolding load after_tc load_tc_egress_objects load_xdp_ingress_objects close_tc ℕ_discrete
loading images = load toy_kernel images (new toy_kernel) empty_kernel

abbrev pub loaded : Loader toy_kernel
loaded = record (new toy_kernel) {
  tc_objs = tc_objects toy_kernel (0, 0, 1);
  xdp_objs = xdp_objects toy_kernel (1, 3, 4);
}

load_run : (loading images).0 ≡ none
unfolding loading
load_run = refl

load_run_loader : (loading images).1 ≡ loaded
unfolding loading
load_run_loader = refl

-- With the images of the repository, before they are compiled, `Load` fails and opens nothing.
load_unbuilt : loading repository_images ≡ (
  some (
      wrapped "load tc_egress: %w"
        (message "tc_egress eBPF object not compiled: run 'go generate ./pkg/bpf/'")),
  new toy_kernel,
  empty_kernel,
)
unfolding loading
load_unbuilt = refl

abbrev pub kernel_after : State
kernel_after = (load toy_kernel images (new toy_kernel) empty_kernel).2

pub load-images :
    load toy_kernel images (new toy_kernel) empty_kernel ≡ (none, loaded, kernel_after)
unfolding loading
load-images = refl

pub closes_cleanly : ClosesCleanly toy_kernel toy_kernel_view toy_kernel-IsLawful
closes_cleanly = record { programs = λ p s. ground arith; maps = λ m s. ground arith }

-- The XDP image is refused after the TC program has been loaded.
abbrev bad_images : Images
bad_images = record { tc_egress_bytes = 127 ∷ []; xdp_ingress_bytes = 1 ∷ [] }

load_all_or_nothing_example :
    Loaded toy_kernel toy_kernel_view toy_kernel-IsLawful
      (new toy_kernel)
      empty_kernel
      (load toy_kernel bad_images (new toy_kernel) empty_kernel)
load_all_or_nothing_example =
    load_all_or_nothing toy_kernel toy_kernel_view toy_kernel-IsLawful closes_cleanly bad_images
      (new toy_kernel) empty_kernel

abbrev pub entry : ScionPathEntry
entry = record {
  next_hop_ip = 198 ∷ 51 ∷ 100 ∷ 42 ∷ [];
  next_hop_mac = 0xde ∷ 0xad ∷ 0xbe ∷ 0xef ∷ 0 ∷ 1 ∷ [];
  path_len = 64;
  hop_fields = [];
  mac_key = [];
}

abbrev script : List Call
script =
    updates_policy pod_ip 42
    ∷ updates_path 42 entry
    ∷ updates_policy (10 ∷ 0 ∷ 1 ∷ 6 ∷ []) 7
    ∷ deletes_policy pod_ip
    ∷ []

abbrev empty_tables : Tables
empty_tables = record { policies = λ k. none; paths = λ k. none }

calls-Holds_example :
    Holds toy_kernel toy_kernel_view 0 1
      (calls little toy_kernel loaded script empty_kernel).1
      (apply_all little empty_tables script)
unfolding calls call ip_to_key to4 uint32 ℕ_discrete
calls-Holds_example =
    calls-Holds little toy_kernel loaded toy_kernel_view toy_kernel-IsLawful 0 1 refl refl script
      empty_kernel empty_tables (refl, (refl, (refl, (refl, tt))))
      (record { policies = λ k. refl; paths = λ k. refl })

abbrev foreign_filter : BpfFilter
foreign_filter = record (tc_filter toy_kernel 2 9) { name = "foreign"; handle = 7 }

-- A filter of another kind, one of another name, and the one that `AttachTC` adds.
abbrev filters : List (Result ℕ BpfFilter)
filters = err 5 ∷ ok foreign_filter ∷ ok (tc_filter toy_kernel 2 0) ∷ []

abbrev filtered : State
filtered = record empty_kernel { filters = filters }

attach_tc_run :
    attach_tc toy_kernel loaded "eth0" empty_kernel
    ≡ (returned none, record empty_kernel { filters = ok (tc_filter toy_kernel 2 0) ∷ [] })
unfolding attach_tc add_filter ℕ_discrete
attach_tc_run = refl

detach_tc_run :
    detach_tc toy_kernel "eth0" filtered
    ≡ (none, record filtered { filters = err 5 ∷ ok foreign_filter ∷ [] })
unfolding detach_tc delete_filters string_eq ℕ_discrete
detach_tc_run = refl

detach_tc_lem_example :
    let after = record filtered { filters = err 5 ∷ ok foreign_filter ∷ [] } in
    ((detach_tc toy_kernel "eth0" filtered).1 ≡ after)
    × (((detach_tc toy_kernel "eth0" filtered).0 ≡ none) ↔ (◌≡◌ {A = Option ℕ} none none))
    × ((i : ℕ)
        → toy_kernel_view.clsact_at (detach_tc toy_kernel "eth0" filtered).1 i
          ≡ toy_kernel_view.clsact_at filtered i)
unfolding string_eq ℕ_discrete
detach_tc_lem_example =
    detach_tc_lem toy_kernel toy_kernel_view toy_kernel-IsLawful "eth0" 2 filters filtered refl refl

abbrev linked : State
linked = record empty_kernel { links = 5 ∷ [] }

attach_xdp_loses_link_example :
    let (failure, l', s') =
      attach_xdp toy_kernel (record loaded { xdp_link = some 5 }) "eth1" linked in
    (l'.xdp_link ≢ some 5) × (toy_kernel_view.attached (close toy_kernel l' s') 5 ≡ true)
attach_xdp_loses_link_example =
    attach_xdp_loses_link toy_kernel toy_kernel_view toy_kernel-IsLawful
      (record loaded { xdp_link = some 5 }) "eth1" 2 5 linked (ground arith) refl
