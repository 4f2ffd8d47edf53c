-- ===== src/Bpf/Loader/Close.antt =====
-- `Close`, and the XDP link that it closes.
use cillion.Base.{ℕ, String, ◌≡◌, ◌≢◌, refl, sym, ◌∙◌, ap, true, Option, none, some, arith}
use cillion.Bpf.Kernel.{Kernel, Result, ok, err, XdpOptions}
use cillion.Bpf.Contract.{View, IsLawful}
use cillion.Bpf.Objects.{
  TcEgressObjects, XdpIngressObjects, close_tc, close_xdp, tc_objects, xdp_objects,
}
use cillion.Bpf.Loader.{Loader, xdp_options, close_xdp_link, attach_xdp, close}
use cillion.Bpf.Loader.Load.{ClosesCleanly, closed_program, closed_cache}

module _ (K : Kernel) (v : View K) (L : IsLawful K v) where
  link-close_tc :
      (o : TcEgressObjects K) (k : K.Link) (s : K.State)
      → v.attached (close_tc K o s).1 k ≡ v.attached s k
  unfolding close_tc
  link-close_tc o k s =
      let s1 = (K.close_program o.tc_egress s).1 in
      let s2 = (K.close_map o.pod_policy_map s1).1 in
      ground (
        arith,
        L.link-close_program o.tc_egress k s,
        L.link-close_map o.pod_policy_map k s1,
        L.link-close_map o.scion_path_cache k s2,
      )

  link-close_xdp :
      (o : XdpIngressObjects K) (k : K.Link) (s : K.State)
      → v.attached (close_xdp K o s).1 k ≡ v.attached s k
  unfolding close_xdp
  link-close_xdp o k s =
      let s1 = (K.close_program o.xdp_ingress s).1 in
      let s2 = (K.close_map o.pod_policy_map s1).1 in
      ground (
        arith,
        L.link-close_program o.xdp_ingress k s,
        L.link-close_map o.pod_policy_map k s1,
        L.link-close_map o.scion_path_cache k s2,
      )

  link-close_xdp_link :
      (o : Option K.Link) (k : K.Link) (s : K.State)
      → o ≢ some k
      → v.attached (close_xdp_link K o s) k ≡ v.attached s k
  link-close_xdp_link none k s other = refl
  link-close_xdp_link (some j) k s other = L.link-close_other j k s (λ e. other (ap some (sym e)))

  -- `Close` detaches no link but the one in the loader.
  close_keeps_link :
      (l : Loader K) (k : K.Link) (s : K.State)
      → l.xdp_link ≢ some k
      → v.attached (close K l s) k ≡ v.attached s k
  unfolding close
  close_keeps_link l k s other =
      link-close_xdp l.xdp_objs k _
      ∙ link-close_tc l.tc_objs k _
      ∙ link-close_xdp_link l.xdp_link k s other

  -- The loader that `AttachXDP` leaves, by the result of attaching.
  abbrev pub attached_to : Loader K → Result K.Error K.Link → Loader K
  attached_to l (ok k) = record l { xdp_link = some k }
  attached_to l (err e) = record l { xdp_link = none }

  pub attach_xdp-attached_to :
      (l : Loader K) (iface : String) (index : ℕ) (s : K.State)
      → K.link_by_name iface s ≡ ok index
      → ((attach_xdp K l iface s).1 ≡ attached_to l (K.attach_xdp (xdp_options K l index) s).0)
        × ((attach_xdp K l iface s).2 ≡ (K.attach_xdp (xdp_options K l index) s).1)
  unfolding attach_xdp
  attach_xdp-attached_to l iface index s found = (ground arith, ground arith)

  attached_to-ne :
      (l : Loader K) (o : XdpOptions K.Program) (old : K.Link) (s : K.State)
      (r : Result K.Error K.Link)
      → K.attach_xdp o s ≡ (r, (K.attach_xdp o s).1)
      → v.attached s old ≡ true
      → (attached_to l r).xdp_link ≢ some old
  attached_to-ne l o old s (ok k) h up e =
      let fresh = (L.attach_xdp_ok o k s (K.attach_xdp o s).1 h).0 in ground arith
  attached_to-ne l o old s (err x) h up e = cc

  -- `AttachXDP` forgets the links that were attached before it, the loader's own among them. Once
  -- the interface is found, whether it attaches or fails, the loader holds none of them, and
  -- `Close` leaves every one of them attached.
  pub attach_xdp_loses_link :
      (l : Loader K) (iface : String) (index : ℕ) (old : K.Link) (s : K.State)
      → v.attached s old ≡ true
      → K.link_by_name iface s ≡ ok index
      → let (failure, l', s') = attach_xdp K l iface s in
        (l'.xdp_link ≢ some old) × (v.attached (close K l' s') old ≡ true)
  attach_xdp_loses_link l iface index old s up found =
      let o = xdp_options K l index in
      let (made, state) = attach_xdp-attached_to l iface index s found in
      let other = attached_to-ne l o old s (K.attach_xdp o s).0 refl up in
      rw (made, state)
        (
          other,
          close_keeps_link (attached_to l (K.attach_xdp o s).0) old (K.attach_xdp o s).1 other
              ∙ L.attach_xdp_other o old s up,
        )

  module _ (clean : ClosesCleanly K v L) (p : K.Program) (m n : K.Map) (s : K.State) where
    close_tc-closed_cache :
        (close_tc K (tc_objects K (p, m, n)) s).1 ≡ (closed_cache K v L p m n s).1
    unfolding close_tc
    close_tc-closed_cache =
        ground
          (arith, clean.programs (some p) s, clean.maps (some m) (closed_program K v L p m n s).1)

    close_xdp-closed_cache :
        (close_xdp K (xdp_objects K (p, m, n)) s).1 ≡ (closed_cache K v L p m n s).1
    unfolding close_xdp
    close_xdp-closed_cache =
        ground
          (arith, clean.programs (some p) s, clean.maps (some m) (closed_program K v L p m n s).1)

  -- `Close` of a loader with both programs loaded, as two runs of the same three steps.
  pub close-closed_cache :
      ClosesCleanly K v L
      → (l : Loader K) (s : K.State) (p q : K.Program) (m n x y : K.Map)
      → l.tc_objs ≡ tc_objects K (p, m, n)
      → l.xdp_objs ≡ xdp_objects K (q, x, y)
      → close K l s
        ≡ (closed_cache K v L q x y (closed_cache K v L p m n (close_xdp_link K l.xdp_link s)).1).1
  unfolding close
  close-closed_cache clean l s p q m n x y tc xdp =
      let s1 = close_xdp_link K l.xdp_link s in
      let s2 = (closed_cache K v L p m n s1).1 in
      ap (λ (o : XdpIngressObjects K). (close_xdp K o (close_tc K l.tc_objs s1).1).1) xdp
      ∙ ap
          (λ (o : TcEgressObjects K). (close_xdp K (xdp_objects K (q, x, y)) (close_tc K o s1).1).1)
          tc
      ∙ ap (λ (u : K.State). (close_xdp K (xdp_objects K (q, x, y)) u).1)
          (close_tc-closed_cache clean p m n s1)
      ∙ close_xdp-closed_cache clean q x y s2
