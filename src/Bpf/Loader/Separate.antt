-- ===== src/Bpf/Loader/Separate.antt =====
-- The maps of the two programs, which the comment on `Loader` calls the same logical maps.
use cillion.Base.{ℕ, nat_eq, ◌≡◌, ◌≢◌, ap, subst, ◌∙◌, true, false, none, some, List}
use cillion.Bpf.Key.{Endian}
use cillion.Bpf.Kernel.{Kernel}
use cillion.Bpf.Contract.{View, IsLawful}
use cillion.Bpf.Objects.{Images}
use cillion.Bpf.Loader.{Loader, load}
use cillion.Bpf.Loader.Maps.{Call, calls, calls_other}
use cillion.Bpf.Loader.Load.{LoadedIfClean, load_lem}

module _ (K : Kernel) (v : View K) (L : IsLawful K v) where
  pub differ : {t : K.State} {a b : K.Map} → v.map_open t a ≡ false → v.map_open t b ≡ true → a ≢ b
  differ {t} closed opened same = cc (ap (v.map_open t) same)

  -- The two programs do not share their maps: after a successful `Load`, no sequence of map calls
  -- of the loader, whatever they return, puts an entry into the path cache that the XDP program
  -- reads. It stays empty at every key.
  pub xdp_path_cache_stays_empty :
      (images : Images) (l l' : Loader K) (s s' : K.State)
      → load K images l s ≡ (none, l', s')
      → (y : K.Map) × (l'.xdp_objs.scion_path_cache ≡ some y)
        × ((e : Endian) (cs : List Call) (k : ℕ) → v.path_at (calls e K l' cs s').1 y k ≡ none)
  xdp_path_cache_stays_empty images l l' s s' h =
      let (p, m, n, q, x, y, mid, made, f, g) =
        subst (LoadedIfClean K v L l s) h (load_lem K v L images l s) in
      (
        y,
        ap (λ (t : Loader K). t.xdp_objs.scion_path_cache) made,
        λ e cs k.
            (calls_other e K l' v L m n (ap (λ (t : Loader K). t.tc_objs.pod_policy_map) made)
              (ap (λ (t : Loader K). t.tc_objs.scion_path_cache) made) cs s' y k
              (λ same. differ g.path_map_new.0 f.policy_map_new.1 same)
              (λ same. differ g.path_map_new.0 f.path_map_new.1 same)).1
            ∙ g.paths_empty k,
      )
