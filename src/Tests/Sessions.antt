-- ===== src/Tests/Sessions.antt =====
-- A life of a loader on the small kernel.
use cillion.Base.{nat_eq, ℕ_discrete, refl, List, [], ◌∷◌, arith}
use cillion.Bpf.Key.{little}
use cillion.Bpf.Contract.{SameHandles}
use cillion.Bpf.Loader.{close}
use cillion.Bpf.Loader.Maps.{updates_policy, updates_path}
use cillion.Bpf.Loader.Session.{
  Operation, calls_map, attaches_tc, detaches_tc, attaches_xdp, session, LinksOnce, KeepsHandles,
}
use cillion.Bpf.Loader.Session.Released.{session_releases_handles}
use cillion.Tests.Keys.{pod_ip}
use cillion.Tests.KernelModel.{toy_kernel, toy_kernel_view, toy_kernel-IsLawful, State}
use cillion.Tests.Loading.{
  empty_kernel, images, loaded, kernel_after, load-images, entry, closes_cleanly,
}

unchanged : (s : State) → SameHandles toy_kernel toy_kernel_view s s
unchanged s = record { programs = λ p. refl; maps = λ m. refl; links = λ k. refl }

toy_kernel-KeepsHandles : KeepsHandles toy_kernel toy_kernel_view
toy_kernel-KeepsHandles = record {
  put_policy = λ m k id s. record { programs = λ p. refl; maps = λ m. refl; links = λ k. refl };
  delete_policy = λ m k s. record { programs = λ p. refl; maps = λ m. refl; links = λ k. refl };
  put_path = λ m k x s. record { programs = λ p. refl; maps = λ m. refl; links = λ k. refl };
  delete_path = λ m k s. record { programs = λ p. refl; maps = λ m. refl; links = λ k. refl };
  qdisc_add = λ q s. unchanged s;
  filter_add = λ f s. record { programs = λ p. refl; maps = λ m. refl; links = λ k. refl };
  filter_del = λ f s. record { programs = λ p. refl; maps = λ m. refl; links = λ k. refl };
  attach_xdp-programs = λ o s p. refl;
  attach_xdp-maps = λ o s m. refl;
  attach_xdp-links = λ o k j s s' made differ. ground arith;
  attach_xdp-no_links = λ o x j s s' made. absurd (ground arith);
  link_dec = ℕ_discrete;
}

abbrev operations : List Operation
operations =
    attaches_tc "eth0"
    ∷ calls_map (updates_policy pod_ip 42)
    ∷ calls_map (updates_path 42 entry)
    ∷ attaches_xdp "eth0"
    ∷ detaches_tc "eth0"
    ∷ []

operations-LinksOnce : LinksOnce toy_kernel little operations (loaded, kernel_after)
operations-LinksOnce = (tt, (tt, (tt, (refl, (tt, tt)))))

session_releases_handles_example : SameHandles toy_kernel toy_kernel_view empty_kernel (
    close toy_kernel
      (session toy_kernel little operations (loaded, kernel_after)).0
      (session toy_kernel little operations (loaded, kernel_after)).1)
session_releases_handles_example =
    session_releases_handles toy_kernel toy_kernel_view toy_kernel-IsLawful toy_kernel-KeepsHandles
      little closes_cleanly images empty_kernel kernel_after loaded load-images operations
      operations-LinksOnce
