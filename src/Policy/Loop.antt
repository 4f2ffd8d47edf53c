-- ===== src/Policy/Loop.antt =====
-- The loop of `Reconcile` against what it means to do: the answers of the SCION service, fetched in
-- order, and the computed path that each key should hold after them.
use cillion.Base.{
  String, string_eq, if◌then◌else◌, ◌≡◌, Bool, true, ◌&&◌, Option, none, some, List, [], ◌∷◌, arith,
}
use cillion.Api.{NamespacedName, same_key, key_of, ScionComputedPathSpec, ScionClusterPeer}
use cillion.Platform.{Platform, View, IsLawful, ok, Fetched}
use cillion.Policy.Exec.{go, >>=-eq-go}
use cillion.Policy.{
  ScionClient, ScionPathPolicyReconciler, World, PathPolicy, fetch, new_computed_path, path_spec,
  mutate, compute_path, compute_paths,
}

module _ (P : Platform) where
  abbrev pub Answers : Type 0
  Answers = List (ScionClusterPeer × Fetched P.Error)

  -- The answers for the peers, and the service's state behind them.
  abbrev pub answers :
      ScionClient P → String → List ScionClusterPeer → P.Daemon → Answers × P.Daemon
  answers client preference [] d = ([], d)
  answers client preference (peer ∷ peers) d =
      let (f, d') = client peer.spec.remote_as preference d in
      let (rest, last) = answers client preference peers d' in ((peer, f) ∷ rest, last)

  abbrev pub all_ready : Answers → Bool
  all_ready [] = true
  all_ready ((peer, f) ∷ rest) = f.is_ready && all_ready rest

  abbrev pub path_key : PathPolicy P → ScionClusterPeer → NamespacedName
  path_key policy peer = key_of (new_computed_path P policy peer).meta

  -- What a key holds after the answers: the path of the last ready peer of that name, and what it
  -- held before where there is none.
  abbrev pub latest :
      PathPolicy P
      → NamespacedName
      → Answers
      → Option ScionComputedPathSpec
      → Option ScionComputedPathSpec
  latest policy k [] old = old
  latest policy k ((peer, f) ∷ rest) old = latest policy k rest (
      if f.is_ready && same_key k (path_key policy peer)
      then some (path_spec P policy peer f)
      else old)

  pub mutate-spec :
      (scheme : P.Scheme) (policy : PathPolicy P) (peer : ScionClusterPeer) (f : Fetched P.Error)
      (old new : _)
      → mutate P scheme policy peer f old ≡ ok new
      → new.spec ≡ path_spec P policy peer f
  unfolding mutate
  mutate-spec scheme policy peer f old new h = ground arith

  module _ (v : View P) (L : IsLawful P v) (r : ScionPathPolicyReconciler P) (policy : PathPolicy P)
      (client : ScionClient P) (preference : String) (has_client : r.scion_client ≡ some client)
      (has_preference : policy.spec.preference ≡ some preference) where
    stored :
        (peer : ScionClusterPeer) (f : Fetched P.Error) (c : P.Cluster) (k : NamespacedName)
        → let out =
            P.create_or_update
              (new_computed_path P policy peer)
              (mutate P r.scheme policy peer f)
              c in
          out.0 ≡ none
          → v.path_at out.1 k ≡ (
              if same_key k (path_key policy peer)
              then some (path_spec P policy peer f)
              else v.path_at c k)
    stored peer f c k h =
        L.path-create_or_update (new_computed_path P policy peer) _ _
          (mutate-spec r.scheme policy peer f) c _ (ground arith) k

    compute_path_lem :
        (peer : ScionClusterPeer) (ready ready' : Bool) (w w' : World P)
        → compute_path P r policy peer ready w ≡ (go ready', w')
        → let (f, d) = client peer.spec.remote_as preference w.daemon in
          (ready' ≡ (ready && f.is_ready))
          × (w'.daemon ≡ d)
          × ((k : NamespacedName)
              → v.path_at w'.cluster k ≡ (
                  if f.is_ready && same_key k (path_key policy peer)
                  then some (path_spec P policy peer f)
                  else v.path_at w.cluster k))
    unfolding compute_path fetch
    compute_path_lem peer ready ready' w w' h =
        let f = (client peer.spec.remote_as preference w.daemon).0 in
        (ground arith, ground arith, λ k. ground (arith, stored peer f w.cluster k))

    -- The loop, where it goes on to the end: the flag is set exactly when every answer was ready,
    -- and each key holds what the answers say that it should.
    pub compute_paths_lem :
        (peers : List ScionClusterPeer) (ready ready' : Bool) (w w' : World P)
        → compute_paths P r policy peers ready w ≡ (go ready', w')
        → let (got, d) = answers client preference peers w.daemon in
          (ready' ≡ (ready && all_ready got))
          × (w'.daemon ≡ d)
          × ((k : NamespacedName)
              → v.path_at w'.cluster k ≡ latest policy k got (v.path_at w.cluster k))
    unfolding compute_paths
    compute_paths_lem [] ready ready' w w' h = (ground arith, ground arith, λ k. ground arith)
    compute_paths_lem (peer ∷ peers) ready ready' w w' h =
        let (mid, u, first, rest) =
          >>=-eq-go (compute_path P r policy peer ready) (compute_paths P r policy peers) w w'
            ready' h in
        let (now, moved, wrote) = compute_path_lem peer ready mid w u first in
        let (end, last, writes) = compute_paths_lem peers mid ready' u w' rest in
        (rw (← moved) (ground arith), rw (← moved) last, λ k. rw (← moved, ← wrote k) (writes k))
