-- ===== src/Bpf/Loader/Tc.antt =====
-- `DetachTC`: which filters it deletes, and what it leaves.
use cillion.Base.{
  ℕ, String, ◌==◌, string_eq, if◌then◌else◌, ◌≡◌, ◌↔◌, refl, Option, none, some, List, [], ◌∷◌,
  arith,
}
use cillion.Bpf.Kernel.{Kernel, Result, ok, err, BpfFilter}
use cillion.Bpf.Contract.{View, IsLawful}
use cillion.Bpf.Loader.{delete_filters, detach_tc}

module _ (K : Kernel) where
  -- The BPF filters named "tc_egress", in the order of the list.
  abbrev pub own_filters : List (Result K.OtherFilter BpfFilter) → List BpfFilter
  own_filters [] = []
  own_filters (err other ∷ fs) = own_filters fs
  own_filters (ok f ∷ fs) = if f.name == "tc_egress" then f ∷ own_filters fs else own_filters fs

  -- Deletes one filter after the other, up to the first error.
  abbrev pub delete_each : List BpfFilter → K.State → Option K.Error × K.State
  delete_each [] s = (none, s)
  delete_each (f ∷ fs) s = elim (K.filter_del f s).0 [
    | none ↦ delete_each fs (K.filter_del f s).1
    | some e ↦ (some e, (K.filter_del f s).1)
  ]

  delete_filters_lem :
      (fs : List (Result K.OtherFilter BpfFilter)) (s : K.State)
      → delete_filters K fs s ≡ delete_each (own_filters fs) s
  unfolding delete_filters
  delete_filters_lem [] s = refl
  delete_filters_lem (err other ∷ fs) s = delete_filters_lem fs s
  delete_filters_lem (ok f ∷ fs) s =
      ground (arith, delete_filters_lem fs s, delete_filters_lem fs (K.filter_del f s).1)

  clsact-delete_each :
      (v : View K)
      → IsLawful K v
      → (fs : List BpfFilter) (s : K.State) (i : ℕ)
      → v.clsact_at (delete_each fs s).1 i ≡ v.clsact_at s i
  clsact-delete_each v L [] s i = refl
  clsact-delete_each v L (f ∷ fs) s i =
      ground (arith, clsact-delete_each v L fs (K.filter_del f s).1 i, L.clsact-filter_del f i s)

  -- With the interface found and its filters listed, `DetachTC` deletes the BPF filters named
  -- "tc_egress" in the order of the list, up to the first error, and no others; it returns no error
  -- exactly if each deletion succeeded. Every clsact qdisc stays, that of the interface too.
  pub detach_tc_lem :
      (v : View K)
      → IsLawful K v
      → (iface : String) (index : ℕ) (fs : List (Result K.OtherFilter BpfFilter)) (s : K.State)
      → K.link_by_name iface s ≡ ok index
      → K.filter_list index K.handle_min_egress s ≡ ok fs
      → let deleted = delete_each (own_filters fs) s in
        ((detach_tc K iface s).1 ≡ deleted.1)
        × (((detach_tc K iface s).0 ≡ none) ↔ (deleted.0 ≡ none))
        × ((i : ℕ) → v.clsact_at (detach_tc K iface s).1 i ≡ v.clsact_at s i)
  unfolding detach_tc
  detach_tc_lem v L iface index fs s found listed =
      let e = delete_filters_lem fs s in
      (ground arith, ground arith, λ i. ground (arith, clsact-delete_each v L (own_filters fs) s i))
