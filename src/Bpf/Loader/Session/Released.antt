-- ===== src/Bpf/Loader/Session/Released.antt =====
-- `Close` at the end of a session gives back what `Load` and the session took.
use mathlib.Core.Option.{some-injective}
use cillion.Base.{
  String, ◌≡◌, ◌≢◌, refl, subst, sym, ◌∙◌, ap, false, Option, none, some, List, [], ◌∷◌, arith,
}
use cillion.Bpf.Key.{Endian}
use cillion.Bpf.Kernel.{Kernel, Result, ok, err}
use cillion.Bpf.Contract.{View, IsLawful, SameHandles, IsFresh}
use cillion.Bpf.Objects.{Images, tc_objects, xdp_objects}
use cillion.Bpf.Loader.{Loader, new, load, xdp_options, attach_xdp, close_xdp_link, close}
use cillion.Bpf.Loader.Load.{
  ClosesCleanly, LoadedIfClean, load_lem, closed_cache, closed_program, closed_map,
  program-closed_cache, map-closed_cache, link-closed_cache,
}
use cillion.Bpf.Loader.Close.{attached_to, attach_xdp-attached_to, close-closed_cache}
use cillion.Bpf.Loader.Session.{
  Operation, calls_map, attaches_tc, detaches_tc, attaches_xdp, perform, session, Alone, LinksOnce,
  KeepsHandles,
}
use cillion.Bpf.Loader.Session.Handles.{call-same, attach_tc-same, detach_tc-same}

module _ (K : Kernel) (v : View K) (L : IsLawful K v) (h : KeepsHandles K v) (e : Endian)
    (l0 : Loader K) (s0 : K.State) where
  -- Since `Load`: the objects are the loader's, and the loader's link is all that has been attached.
  pub record Held (l : Loader K) (s : K.State) : Type 0 where
    pub tc : l.tc_objs ≡ l0.tc_objs
    pub xdp : l.xdp_objs ≡ l0.xdp_objs
    pub programs : (p : K.Program) → v.program_open s p ≡ v.program_open s0 p
    pub maps : (m : K.Map) → v.map_open s m ≡ v.map_open s0 m
    pub own_link : (k : K.Link) → l.xdp_link ≡ some k → v.attached s0 k ≡ false
    pub other_links : (k : K.Link) → l.xdp_link ≢ some k → v.attached s k ≡ v.attached s0 k

  Held-same : (l : Loader K) (s t : K.State) → SameHandles K v s t → Held l s → Held l t
  Held-same l s t a i = record {
    tc = i.tc;
    xdp = i.xdp;
    programs = λ p. a.programs p ∙ i.programs p;
    maps = λ m. a.maps m ∙ i.maps m;
    own_link = i.own_link;
    other_links = λ k other. a.links k ∙ i.other_links k other;
  }

  attached-Held :
      (l : Loader K) (s : K.State) (index : _) (r : Result K.Error K.Link)
      → K.attach_xdp (xdp_options K l index) s ≡ (r, (K.attach_xdp (xdp_options K l index) s).1)
      → l.xdp_link ≡ none
      → Held l s
      → Held (attached_to K v L l r) (K.attach_xdp (xdp_options K l index) s).1
  attached-Held l s index (ok k) made alone i =
      let o = xdp_options K l index in
      let s' = (K.attach_xdp o s).1 in
      record {
        tc = i.tc;
        xdp = i.xdp;
        programs = λ p. h.attach_xdp-programs o s p ∙ i.programs p;
        maps = λ m. h.attach_xdp-maps o s m ∙ i.maps m;
        own_link = λ j is. ground (arith, L.attach_xdp_ok o k s s' made, i.other_links k (λ x. cc));
        other_links = λ j other.
            h.attach_xdp-links o k j s s' made (λ x. other (ap some (sym x)))
            ∙ i.other_links j (λ x. cc);
      }
  attached-Held l s index (err x) made alone i =
      let o = xdp_options K l index in
      let s' = (K.attach_xdp o s).1 in
      record {
        tc = i.tc;
        xdp = i.xdp;
        programs = λ p. h.attach_xdp-programs o s p ∙ i.programs p;
        maps = λ m. h.attach_xdp-maps o s m ∙ i.maps m;
        own_link = λ j is. absurd cc;
        other_links = λ j other. h.attach_xdp-no_links o x j s s' made ∙ i.other_links j (λ y. cc);
      }

  attach_xdp_missing :
      (l : Loader K) (iface : String) (s : K.State) (x : K.Error)
      → K.link_by_name iface s ≡ err x
      → ((attach_xdp K l iface s).1 ≡ l) × ((attach_xdp K l iface s).2 ≡ s)
  unfolding attach_xdp
  attach_xdp_missing l iface s x missing = (ground arith, ground arith)

  attach_xdp-Held :
      (l : Loader K) (iface : String) (s : K.State)
      → l.xdp_link ≡ none
      → Held l s
      → Held (attach_xdp K l iface s).1 (attach_xdp K l iface s).2
  attach_xdp-Held l iface s alone i = by_link (K.link_by_name iface s) refl
    where
      by_link :
          (x : Result K.Error _)
          → K.link_by_name iface s ≡ x
          → Held (attach_xdp K l iface s).1 (attach_xdp K l iface s).2
      by_link (err x) missing =
          let (loader, state) = attach_xdp_missing l iface s x missing in rw (loader, state) i
      by_link (ok index) found =
          let (made, state) = attach_xdp-attached_to K v L l iface index s found in
          rw (made, state)
            (attached-Held l s index (K.attach_xdp (xdp_options K l index) s).0 refl alone i)

  perform-Held :
      (op : Operation) (l : Loader K) (s : K.State)
      → Alone K e op l
      → Held l s
      → Held (perform K e op (l, s)).0 (perform K e op (l, s)).1
  perform-Held (calls_map c) l s alone i = Held-same l s _ (call-same K v h e l c s) i
  perform-Held (attaches_tc iface) l s alone i = Held-same l s _ (attach_tc-same K v h l iface s) i
  perform-Held (detaches_tc iface) l s alone i = Held-same l s _ (detach_tc-same K v h iface s) i
  perform-Held (attaches_xdp iface) l s alone i = attach_xdp-Held l iface s alone i

  session-Held :
      (ops : List Operation) (l : Loader K) (s : K.State)
      → LinksOnce K e ops (l, s)
      → Held l s
      → Held (session K e ops (l, s)).0 (session K e ops (l, s)).1
  session-Held [] l s once i = i
  session-Held (op ∷ ops) l s (alone, once) i =
      session-Held ops (perform K e op (l, s)).0 (perform K e op (l, s)).1 once
        (perform-Held op l s alone i)

  -- With the link closed, every link is as it was at the beginning.
  link-closed :
      (l : Loader K) (s : K.State) (o : Option K.Link) (k : K.Link)
      → l.xdp_link ≡ o
      → Held l s
      → v.attached (close_xdp_link K o s) k ≡ v.attached s0 k
  link-closed l s none k is i = i.other_links k (λ x. cc)
  link-closed l s (some j) k is i = elim (h.link_dec k j) [
    | yes e ↦
        subst (λ (x : K.Link). v.attached (K.close_link j s) x ≡ v.attached s0 x) (sym e)
          (L.link-close j s ∙ sym (i.own_link j is))
    | no differ ↦
        L.link-close_other j k s differ
        ∙ i.other_links k (λ x. differ (some-injective k j (sym x ∙ is)))
  ]

  program-link_closed :
      (o : Option K.Link) (s : K.State) (p : K.Program)
      → v.program_open (close_xdp_link K o s) p ≡ v.program_open s p
  program-link_closed none s p = refl
  program-link_closed (some k) s p = L.program-close_link k p s

  map-link_closed :
      (o : Option K.Link) (s : K.State) (m : K.Map)
      → v.map_open (close_xdp_link K o s) m ≡ v.map_open s m
  map-link_closed none s m = refl
  map-link_closed (some k) s m = L.map-close_link k m s

module _ (K : Kernel) (v : View K) (L : IsLawful K v) (h : KeepsHandles K v) (e : Endian)
    (clean : ClosesCleanly K v L) where
  module _ (s mid s0 : K.State) (p q : K.Program) (m n x y : K.Map) (f : IsFresh K v s mid p m n)
      (g : IsFresh K v mid s0 q x y) (l0 : Loader K) (tc0 : l0.tc_objs ≡ tc_objects K (p, m, n))
      (xdp0 : l0.xdp_objs ≡ xdp_objects K (q, x, y)) where
    close-Held :
        (l : Loader K) (u : K.State) → Held K v L h e l0 s0 l u → SameHandles K v s (close K l u)
    close-Held l u i =
        let u1 = close_xdp_link K l.xdp_link u in
        let u2 = (closed_cache K v L p m n u1).1 in
        rw (close-closed_cache K v L clean l u p q m n x y (i.tc ∙ tc0) (i.xdp ∙ xdp0)) (record {
          programs = λ r.
              program-closed_cache K v L q x y u2 (clean.programs (some q) u2) r
              ∙ ground (
                arith,
                program-closed_cache K v L p m n u1 (clean.programs (some p) u1) r,
                program-link_closed K v L h e l0 s0 l.xdp_link u r,
                i.programs r,
                f.other_programs r,
                g.other_programs r,
                f.program_new,
                g.program_new,
              );
          maps = λ z.
              map-closed_cache K v L q x y u2
                (clean.maps (some x) (closed_program K v L q x y u2).1)
                (clean.maps (some y) (closed_map K v L q x y u2).1) z
              ∙ ground (
                arith,
                map-closed_cache K v L p m n u1
                    (clean.maps (some m) (closed_program K v L p m n u1).1)
                    (clean.maps (some n) (closed_map K v L p m n u1).1) z,
                map-link_closed K v L h e l0 s0 l.xdp_link u z,
                i.maps z,
                f.other_maps z,
                g.other_maps z,
                f.policy_map_new,
                f.path_map_new,
                g.policy_map_new,
                g.path_map_new,
              );
          links = λ k.
              link-closed_cache K v L q x y u2 k
              ∙ link-closed_cache K v L p m n u1 k
              ∙ link-closed K v L h e l0 s0 l u l.xdp_link k refl i
              ∙ g.links k
              ∙ f.links k;
        })

  -- A whole life of a loader leaves no handle and no XDP link behind. If no `Close` of a program or a map fails: after
  -- `Load` of a new loader has returned no error, and any sequence of map calls, `AttachTC`,
  -- `DetachTC` and `AttachXDP`, whatever they return, in which `AttachXDP` is called only where the
  -- loader holds no link, `Close` leaves exactly the programs and the maps open, and the links
  -- attached, that were so before `Load`. Qdiscs and filters are not
  -- among them.
  pub session_releases_handles :
      (images : Images) (s s0 : K.State) (l0 : Loader K)
      → load K images (new K) s ≡ (none, l0, s0)
      → (ops : List Operation) → LinksOnce K e ops (l0, s0)
      → let (l, u) = session K e ops (l0, s0) in SameHandles K v s (close K l u)
  session_releases_handles images s s0 l0 loaded ops once =
      let (p, m, n, q, x, y, mid, is, f, g) =
        subst (LoadedIfClean K v L (new K) s) loaded (load_lem K v L images (new K) s) in
      let held : Held K v L h e l0 s0 l0 s0 = record {
        tc = refl;
        xdp = refl;
        programs = λ r. refl;
        maps = λ z. refl;
        own_link = λ k own. absurd (ground arith);
        other_links = λ k other. refl;
      } in
      close-Held s mid s0 p q m n x y f g l0 (ap (λ (l : Loader K). l.tc_objs) is)
        (ap (λ (l : Loader K). l.xdp_objs) is) (session K e ops (l0, s0)).0
        (session K e ops (l0, s0)).1 (session-Held K v L h e l0 s0 ops l0 s0 once held)
