-- ===== src/Dataplane/Ingress/Loaded.antt =====
-- The XDP program on the maps that the loader gives it.
use cillion.Base.{ℕ, ◌≡◌, ◌⊎◌, none, some, Option, List, drop}
use cillion.Bpf.Key.{Endian}
use cillion.Bpf.Key.Laws.{AreBytes}
use cillion.Bpf.Kernel.{Kernel}
use cillion.Bpf.Contract.{View, IsLawful}
use cillion.Bpf.Objects.{Images}
use cillion.Bpf.Loader.{Loader, load}
use cillion.Bpf.Loader.Maps.{Call, calls}
use cillion.Bpf.Loader.Separate.{xdp_path_cache_stays_empty}
use cillion.Dataplane.Packet.{verdict}
use cillion.Dataplane.Ingress.{xdp_pass, xdp_drop, xdp_ingress}
use cillion.Dataplane.Ingress.Outcomes.{xdp_ingress-no_entry}

module _ (K : Kernel) (v : View K) (L : IsLawful K v) (adjust_head : ℕ → List ℕ → Option (List ℕ))
    (moves : (n : ℕ) (q q' : List ℕ) → adjust_head n q ≡ some q' → q' ≡ drop n q) where
  -- After a successful `Load`, no sequence of map calls of the loader makes the XDP program
  -- decapsulate anything: with the contents of its own path cache, every packet of bytes goes on as
  -- it came or is dropped. The kernel's `bpf_xdp_adjust_head` is only supposed to remove bytes at
  -- the front when it succeeds.
  pub loaded_xdp_decapsulates_nothing :
      (images : Images) (l l' : Loader K) (s s' : K.State) (e : Endian) (cs : List Call)
      (p : List ℕ)
      → load K images l s ≡ (none, l', s')
      → AreBytes p
      → (y : K.Map) × (l'.xdp_objs.scion_path_cache ≡ some y)
        × ((verdict (xdp_ingress (v.path_at (calls e K l' cs s').1 y) adjust_head p)
              ≡ some (xdp_pass p))
            ⊎ (verdict (xdp_ingress (v.path_at (calls e K l' cs s').1 y) adjust_head p)
                ≡ some xdp_drop))
  loaded_xdp_decapsulates_nothing images l l' s s' e cs p h bytes =
      let (y, has, empty) = xdp_path_cache_stays_empty K v L images l l' s s' h in
      (
        y,
        has,
        xdp_ingress-no_entry (v.path_at (calls e K l' cs s').1 y) p adjust_head moves bytes
            (empty e cs 0),
      )
