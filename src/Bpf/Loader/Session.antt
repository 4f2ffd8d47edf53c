-- ===== src/Bpf/Loader/Session.antt =====
-- A whole life of a loader: any sequence of its methods between `Load` and `Close`.
pub mod Handles
pub mod Released
use cillion.Base.{ℕ, String, ◌≡◌, ◌≢◌, Option, none, some, List, [], ◌∷◌}
use cillion.Bpf.Key.{Endian}
use cillion.Bpf.Kernel.{ScionPathEntry, Kernel, ok, err, Qdisc, BpfFilter, XdpOptions}
use cillion.Bpf.Contract.{View, SameHandles}
use cillion.Bpf.Loader.{Loader, attach_tc, detach_tc, attach_xdp}
use cillion.Bpf.Loader.Maps.{Call, call}

-- A method with its arguments.
pub data Operation : Type 0 where
  calls_map : Call → Operation
  attaches_tc : String → Operation
  detaches_tc : String → Operation
  attaches_xdp : String → Operation

module _ (K : Kernel) (e : Endian) where
  abbrev pub perform : Operation → Loader K × K.State → Loader K × K.State
  perform (calls_map c) (l, s) = (l, (call e K l c s).1)
  perform (attaches_tc iface) (l, s) = (l, (attach_tc K l iface s).1)
  perform (detaches_tc iface) (l, s) = (l, (detach_tc K iface s).1)
  perform (attaches_xdp iface) (l, s) = let (failure, l', s') = attach_xdp K l iface s in (l', s')

  abbrev pub session : List Operation → Loader K × K.State → Loader K × K.State
  session [] x = x
  session (op ∷ ops) x = session ops (perform op x)

  -- `AttachXDP` is called only where the loader holds no link.
  abbrev pub Alone : Operation → Loader K → Type 0
  Alone (attaches_xdp iface) l = l.xdp_link ≡ none
  Alone _ l = Unit

  abbrev pub LinksOnce : List Operation → Loader K × K.State → Type 0
  LinksOnce [] x = Unit
  LinksOnce (op ∷ ops) x = Alone op x.0 × LinksOnce ops (perform op x)

-- The calls that make no handle and close none, and what `AttachXDP` makes.
pub record KeepsHandles (K : Kernel) (v : View K) : Type 0 where
  pub put_policy :
      (m : K.Map) (k id : ℕ) (s : K.State) → SameHandles K v s (K.put_policy m k id s).1
  pub delete_policy :
      (m : K.Map) (k : ℕ) (s : K.State) → SameHandles K v s (K.delete_policy m k s).1
  pub put_path :
      (m : K.Map) (k : ℕ) (x : ScionPathEntry) (s : K.State)
      → SameHandles K v s (K.put_path m k x s).1
  pub delete_path : (m : K.Map) (k : ℕ) (s : K.State) → SameHandles K v s (K.delete_path m k s).1
  pub qdisc_add : (q : Qdisc) (s : K.State) → SameHandles K v s (K.qdisc_add q s).1
  pub filter_add : (f : BpfFilter) (s : K.State) → SameHandles K v s (K.filter_add f s).1
  pub filter_del : (f : BpfFilter) (s : K.State) → SameHandles K v s (K.filter_del f s).1
  pub attach_xdp-programs :
      (o : XdpOptions K.Program) (s : K.State) (p : K.Program)
      → v.program_open (K.attach_xdp o s).1 p ≡ v.program_open s p
  pub attach_xdp-maps :
      (o : XdpOptions K.Program) (s : K.State) (m : K.Map)
      → v.map_open (K.attach_xdp o s).1 m ≡ v.map_open s m
  pub attach_xdp-links :
      (o : XdpOptions K.Program) (k j : K.Link) (s s' : K.State)
      → K.attach_xdp o s ≡ (ok k, s')
      → j ≢ k
      → v.attached s' j ≡ v.attached s j
  pub attach_xdp-no_links :
      (o : XdpOptions K.Program) (error : K.Error) (j : K.Link) (s s' : K.State)
      → K.attach_xdp o s ≡ (err error, s')
      → v.attached s' j ≡ v.attached s j
  -- Go's `==` on links.
  pub link_dec : Discrete K.Link
