-- ===== src/Bpf/Objects/Close.antt =====
-- The chain of `Close` calls.
use cillion.Base.{◌≡◌, none, some, List, [], ◌∷◌, ◌++◌, arith}
use cillion.Bpf.Kernel.{Kernel}
use cillion.Bpf.Objects.{Closer, close_one, close_all}

module _ (K : Kernel) where
  -- The chain returns the first error and stops there: if the closers before one close without an
  -- error and that one fails, its error is returned and none of those behind it is closed. If none
  -- fails, then each of them has been closed in turn.
  close_all_stops :
      (before : List (Closer K)) (s s1 : K.State)
      → close_all K before s ≡ (none, s1)
      → ((after : List (Closer K)) (c : Closer K) (e : K.Error) (s2 : K.State)
          → close_one K c s1 ≡ (some e, s2)
          → close_all K (before ++ c ∷ after) s ≡ (some e, s2))
        × ((after : List (Closer K)) → close_all K (before ++ after) s ≡ close_all K after s1)
  unfolding close_all
  close_all_stops [] s s1 h = (λ after c e s2 g. ground arith, λ after. ground arith)
  close_all_stops (b ∷ before) s s1 h =
      let ih = close_all_stops before (close_one K b s).1 s1 (ground arith) in
      let first : (close_one K b s).0 ≡ none = ground arith in
      (
        λ after c e s2 g. rw (first, close_all) (ih.0 after c e s2 g),
        λ after. rw (first, close_all) (ih.1 after),
      )
