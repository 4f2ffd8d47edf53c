-- ===== src/Bpf/Loader/Maps.antt =====
-- The map operations of the loader against two abstract tables.
use cillion.Base.{
  ℕ, ◌==◌, nat_eq, if◌then◌else◌, ◌≡◌, ◌≢◌, refl, ◌∙◌, Option, none, some, List, [], ◌∷◌, arith,
}
use cillion.Bpf.Key.{Endian, KeyResult, key, not_ipv4, panicked, ip_to_key}
use cillion.Bpf.Kernel.{ScionPathEntry, Kernel}
use cillion.Bpf.Contract.{View, IsLawful}
use cillion.Bpf.Loader.{
  Loader, Ending, returned, update_pod_policy, delete_pod_policy, update_scion_path,
  delete_scion_path,
}

-- A call of one of the four methods.
pub data Call : Type 0 where
  updates_policy : List ℕ → ℕ → Call
  deletes_policy : List ℕ → Call
  updates_path : ℕ → ScionPathEntry → Call
  deletes_path : ℕ → Call

-- The tables that the calls are meant to keep, by key.
pub record Tables : Type 0 where
  pub policies : ℕ → Option ℕ
  pub paths : ℕ → Option ScionPathEntry

abbrev pub update {ℓ} : {A : Type ℓ} → (ℕ → A) → ℕ → A → ℕ → A
update f k a j = if j == k then a else f j

module _ (K : Kernel) (v : View K) (m n : K.Map) where
  -- The contents of the two maps are those of the tables.
  pub record Holds (s : K.State) (t : Tables) : Type 0 where
    pub policies : (k : ℕ) → v.policy_at s m k ≡ t.policies k
    pub paths : (k : ℕ) → v.path_at s n k ≡ t.paths k

module _ (K : Kernel) (v : View K) (L : IsLawful K v) (m n : K.Map) where
  put_policy-Holds :
      (k id : ℕ) (s : K.State) (t : Tables)
      → (K.put_policy m k id s).0 ≡ none
      → Holds K v m n s t
      → Holds K v m n
          (K.put_policy m k id s).1
          (record t { policies = update t.policies k (some id) })
  put_policy-Holds k id s t ok h = record {
    policies = λ j. ground (arith, L.policy-put m k j id s (K.put_policy m k id s).1, h.policies j);
    paths = λ j. L.path-put_policy m n k j id s ∙ h.paths j;
  }

  delete_policy-Holds :
      (k : ℕ) (s : K.State) (t : Tables)
      → (K.delete_policy m k s).0 ≡ none
      → Holds K v m n s t
      → Holds K v m n (K.delete_policy m k s).1 (record t { policies = update t.policies k none })
  delete_policy-Holds k s t ok h = record {
    policies = λ j. ground (arith, L.policy-delete m k j s (K.delete_policy m k s).1, h.policies j);
    paths = λ j. L.path-delete_policy m n k j s ∙ h.paths j;
  }

  put_path-Holds :
      (k : ℕ) (x : ScionPathEntry) (s : K.State) (t : Tables)
      → (K.put_path n k x s).0 ≡ none
      → Holds K v m n s t
      → Holds K v m n (K.put_path n k x s).1 (record t { paths = update t.paths k (some x) })
  put_path-Holds k x s t ok h = record {
    policies = λ j. L.policy-put_path n m k j x s ∙ h.policies j;
    paths = λ j. ground (arith, L.path-put n k j x s (K.put_path n k x s).1, h.paths j);
  }

  delete_path-Holds :
      (k : ℕ) (s : K.State) (t : Tables)
      → (K.delete_path n k s).0 ≡ none
      → Holds K v m n s t
      → Holds K v m n (K.delete_path n k s).1 (record t { paths = update t.paths k none })
  delete_path-Holds k s t ok h = record {
    policies = λ j. L.policy-delete_path n m k j s ∙ h.policies j;
    paths = λ j. ground (arith, L.path-delete n k j s (K.delete_path n k s).1, h.paths j);
  }

module _ (e : Endian) where
  abbrev at_key : KeyResult → (ℕ → Tables) → Tables → Tables
  at_key (key k) f t = f k
  at_key not_ipv4 f t = t
  at_key panicked f t = t

  -- What a call should do to the tables.
  abbrev pub apply : Tables → Call → Tables
  apply t (updates_policy ip id) =
      at_key (ip_to_key e ip) (λ k. record t { policies = update t.policies k (some id) }) t
  apply t (deletes_policy ip) =
      at_key (ip_to_key e ip) (λ k. record t { policies = update t.policies k none }) t
  apply t (updates_path id x) = record t { paths = update t.paths id (some x) }
  apply t (deletes_path id) = record t { paths = update t.paths id none }

  abbrev pub apply_all : Tables → List Call → Tables
  apply_all t [] = t
  apply_all t (c ∷ cs) = apply_all (apply t c) cs

  module _ (K : Kernel) (l : Loader K) where
    unfoldable pub call : Call → K.State → Ending K × K.State
    unfolding update_pod_policy delete_pod_policy update_scion_path delete_scion_path
    call (updates_policy ip id) = update_pod_policy K e l ip id
    call (deletes_policy ip) = delete_pod_policy K e l ip
    call (updates_path id x) = update_scion_path K l id x
    call (deletes_path id) = delete_scion_path K l id

    unfoldable pub calls : List Call → K.State → List (Ending K) × K.State
    calls [] s = ([], s)
    calls (c ∷ cs) s = let (o, s') = call c s in let (os, s'') = calls cs s' in (o ∷ os, s'')

    abbrev pub AllSucceed : List (Ending K) → Type 0
    AllSucceed [] = Unit
    AllSucceed (o ∷ os) = (o ≡ returned none) × AllSucceed os

    module _ (v : View K) (L : IsLawful K v) (m n : K.Map)
        (has_policies : l.tc_objs.pod_policy_map ≡ some m)
        (has_paths : l.tc_objs.scion_path_cache ≡ some n) where
      call-Holds :
          (c : Call) (s : K.State) (t : Tables)
          → (call c s).0 ≡ returned none
          → Holds K v m n s t
          → Holds K v m n (call c s).1 (apply t c)
      unfolding call
      call-Holds (updates_path id x) s t ok h =
          rw has_paths (put_path-Holds K v L m n id x s t (ground arith) h)
      call-Holds (deletes_path id) s t ok h =
          rw has_paths (delete_path-Holds K v L m n id s t (ground arith) h)
      call-Holds (updates_policy ip id) s t ok h = by_key (ip_to_key e ip) refl
        where
          by_key :
              (x : KeyResult)
              → ip_to_key e ip ≡ x
              → Holds K v m n (call (updates_policy ip id) s).1 (apply t (updates_policy ip id))
          by_key (key k) found =
              rw (found, has_policies) (put_policy-Holds K v L m n k id s t (ground arith) h)
          by_key not_ipv4 found = absurd (ground arith)
          by_key panicked found = absurd (ground arith)
      call-Holds (deletes_policy ip) s t ok h = by_key (ip_to_key e ip) refl
        where
          by_key :
              (x : KeyResult)
              → ip_to_key e ip ≡ x
              → Holds K v m n (call (deletes_policy ip) s).1 (apply t (deletes_policy ip))
          by_key (key k) found =
              rw (found, has_policies) (delete_policy-Holds K v L m n k s t (ground arith) h)
          by_key not_ipv4 found = absurd (ground arith)
          by_key panicked found = absurd (ground arith)

      -- If every call of a sequence returns no error, then the TC program's maps, which held the
      -- tables before, hold the tables that the calls make of them.
      pub calls-Holds :
          (cs : List Call) (s : K.State) (t : Tables)
          → AllSucceed (calls cs s).0
          → Holds K v m n s t
          → Holds K v m n (calls cs s).1 (apply_all t cs)
      unfolding calls
      calls-Holds [] s t ok h = h
      calls-Holds (c ∷ cs) s t ok h =
          calls-Holds cs (call c s).1 (apply t c) ok.1 (call-Holds c s t ok.0 h)

      call_other :
          (c : Call) (s : K.State) (x : K.Map) (k : ℕ)
          → x ≢ m
          → x ≢ n
          → (v.policy_at (call c s).1 x k ≡ v.policy_at s x k)
            × (v.path_at (call c s).1 x k ≡ v.path_at s x k)
      unfolding call
      call_other (updates_path id y) s x k p q =
          rw has_paths (L.policy-put_path n x id k y s, L.path-put_other n x id k y s q)
      call_other (deletes_path id) s x k p q =
          rw has_paths (L.policy-delete_path n x id k s, L.path-delete_other n x id k s q)
      call_other (updates_policy ip id) s x k p q = by_key (ip_to_key e ip) refl
        where
          by_key :
              (y : KeyResult)
              → ip_to_key e ip ≡ y
              → (v.policy_at (call (updates_policy ip id) s).1 x k ≡ v.policy_at s x k)
                × (v.path_at (call (updates_policy ip id) s).1 x k ≡ v.path_at s x k)
          by_key (key j) found =
              rw (found, has_policies)
                (L.policy-put_other m x j k id s p, L.path-put_policy m x j k id s)
          by_key not_ipv4 found = rw found (refl, refl)
          by_key panicked found = rw found (refl, refl)
      call_other (deletes_policy ip) s x k p q = by_key (ip_to_key e ip) refl
        where
          by_key :
              (y : KeyResult)
              → ip_to_key e ip ≡ y
              → (v.policy_at (call (deletes_policy ip) s).1 x k ≡ v.policy_at s x k)
                × (v.path_at (call (deletes_policy ip) s).1 x k ≡ v.path_at s x k)
          by_key (key j) found =
              rw (found, has_policies)
                (L.policy-delete_other m x j k s p, L.path-delete_policy m x j k s)
          by_key not_ipv4 found = rw found (refl, refl)
          by_key panicked found = rw found (refl, refl)

      -- Whatever the calls return, they leave every other map alone.
      pub calls_other :
          (cs : List Call) (s : K.State) (x : K.Map) (k : ℕ)
          → x ≢ m
          → x ≢ n
          → (v.policy_at (calls cs s).1 x k ≡ v.policy_at s x k)
            × (v.path_at (calls cs s).1 x k ≡ v.path_at s x k)
      unfolding calls
      calls_other [] s x k p q = (refl, refl)
      calls_other (c ∷ cs) s x k p q =
          let (a, b) = call_other c s x k p q in
          let (a', b') = calls_other cs (call c s).1 x k p q in (a' ∙ a, b' ∙ b)
