-- ===== src/Bpf/Contract.antt =====
-- What an observer sees of the kernel, and the documented behaviour that the loader relies on.
use cillion.Base.{ℕ, ◌==◌, nat_eq, if◌then◌else◌, ◌≡◌, ◌≢◌, Bool, true, false, Option, none, some}
use cillion.Bpf.Kernel.{ScionPathEntry, Kernel, ok, err, BpfFilter, XdpOptions}

module _ (K : Kernel) where
  pub record View : Type 0 where
    pub program_open : K.State → K.Program → Bool
    pub map_open : K.State → K.Map → Bool
    pub attached : K.State → K.Link → Bool
    -- Whether the interface has a clsact qdisc.
    pub clsact_at : K.State → ℕ → Bool
    -- Go's `==` on the pointers.
    pub program_dec : Discrete K.Program
    pub map_dec : Discrete K.Map
    -- The contents of the maps.
    pub policy_at : K.State → K.Map → ℕ → Option ℕ
    pub path_at : K.State → K.Map → ℕ → Option ScionPathEntry

  -- The same handles are open in both states, and links attached.
  pub record SameHandles (v : View) (s s' : K.State) : Type 0 where
    pub programs : (p : K.Program) → v.program_open s' p ≡ v.program_open s p
    pub maps : (m : K.Map) → v.map_open s' m ≡ v.map_open s m
    pub links : (l : K.Link) → v.attached s' l ≡ v.attached s l

  -- The objects of a successful load, none of which was open before. The maps are empty. Nothing
  -- else has changed.
  pub record IsFresh (v : View) (s s' : K.State) (p : K.Program) (m n : K.Map) : Type 0 where
    pub program_new : (v.program_open s p ≡ false) × (v.program_open s' p ≡ true)
    pub policy_map_new : (v.map_open s m ≡ false) × (v.map_open s' m ≡ true)
    pub path_map_new : (v.map_open s n ≡ false) × (v.map_open s' n ≡ true)
    pub maps_differ : m ≢ n
    pub policies_empty : (j : ℕ) → v.policy_at s' m j ≡ none
    pub paths_empty : (j : ℕ) → v.path_at s' n j ≡ none
    pub other_programs : (q : K.Program) → q ≢ p → v.program_open s' q ≡ v.program_open s q
    pub other_maps : (x : K.Map) → x ≢ m → x ≢ n → v.map_open s' x ≡ v.map_open s x
    pub other_policies : (x : K.Map) (j : ℕ) → x ≢ m → v.policy_at s' x j ≡ v.policy_at s x j
    pub other_paths : (x : K.Map) (j : ℕ) → x ≢ n → v.path_at s' x j ≡ v.path_at s x j
    pub links : (l : K.Link) → v.attached s' l ≡ v.attached s l

  pub record IsLawful (v : View) : Type 0 where
    -- A write that succeeds is read back. It touches one key of one map.
    pub policy-put :
        (m : K.Map) (k j id : ℕ) (s s' : K.State)
        → K.put_policy m k id s ≡ (none, s')
        → v.policy_at s' m j ≡ (if j == k then some id else v.policy_at s m j)
    pub policy-put_other :
        (m n : K.Map) (k j id : ℕ) (s : K.State)
        → n ≢ m
        → v.policy_at (K.put_policy m k id s).1 n j ≡ v.policy_at s n j
    pub policy-delete :
        (m : K.Map) (k j : ℕ) (s s' : K.State)
        → K.delete_policy m k s ≡ (none, s')
        → v.policy_at s' m j ≡ (if j == k then none else v.policy_at s m j)
    pub policy-delete_other :
        (m n : K.Map) (k j : ℕ) (s : K.State)
        → n ≢ m
        → v.policy_at (K.delete_policy m k s).1 n j ≡ v.policy_at s n j
    pub path-put :
        (m : K.Map) (k j : ℕ) (x : ScionPathEntry) (s s' : K.State)
        → K.put_path m k x s ≡ (none, s')
        → v.path_at s' m j ≡ (if j == k then some x else v.path_at s m j)
    pub path-put_other :
        (m n : K.Map) (k j : ℕ) (x : ScionPathEntry) (s : K.State)
        → n ≢ m
        → v.path_at (K.put_path m k x s).1 n j ≡ v.path_at s n j
    pub path-delete :
        (m : K.Map) (k j : ℕ) (s s' : K.State)
        → K.delete_path m k s ≡ (none, s')
        → v.path_at s' m j ≡ (if j == k then none else v.path_at s m j)
    pub path-delete_other :
        (m n : K.Map) (k j : ℕ) (s : K.State)
        → n ≢ m
        → v.path_at (K.delete_path m k s).1 n j ≡ v.path_at s n j
    -- The two maps hold different things.
    pub path-put_policy :
        (m n : K.Map) (k j id : ℕ) (s : K.State)
        → v.path_at (K.put_policy m k id s).1 n j ≡ v.path_at s n j
    pub path-delete_policy :
        (m n : K.Map) (k j : ℕ) (s : K.State)
        → v.path_at (K.delete_policy m k s).1 n j ≡ v.path_at s n j
    pub policy-put_path :
        (m n : K.Map) (k j : ℕ) (x : ScionPathEntry) (s : K.State)
        → v.policy_at (K.put_path m k x s).1 n j ≡ v.policy_at s n j
    pub policy-delete_path :
        (m n : K.Map) (k j : ℕ) (s : K.State)
        → v.policy_at (K.delete_path m k s).1 n j ≡ v.policy_at s n j
    -- Loading: all objects of a collection or none.
    pub load_ok :
        (spec : K.Spec) (p : K.Program) (m n : K.Map) (s s' : K.State)
        → K.load_and_assign spec s ≡ (ok (p, m, n), s')
        → IsFresh v s s' p m n
    pub load_err :
        (spec : K.Spec) (e : K.Error) (s s' : K.State)
        → K.load_and_assign spec s ≡ (err e, s')
        → SameHandles v s s'
    -- Closing without an error closes the handle; with or without, no other is touched.
    pub program-close :
        (p : K.Program) (s s' : K.State)
        → K.close_program (some p) s ≡ (none, s')
        → v.program_open s' p ≡ false
    pub program-close_other :
        (p q : K.Program) (s : K.State)
        → q ≢ p
        → v.program_open (K.close_program (some p) s).1 q ≡ v.program_open s q
    pub map-close_program :
        (p : Option K.Program) (m : K.Map) (s : K.State)
        → v.map_open (K.close_program p s).1 m ≡ v.map_open s m
    pub link-close_program :
        (p : Option K.Program) (l : K.Link) (s : K.State)
        → v.attached (K.close_program p s).1 l ≡ v.attached s l
    pub map-close :
        (m : K.Map) (s s' : K.State) → K.close_map (some m) s ≡ (none, s') → v.map_open s' m ≡ false
    pub map-close_other :
        (m n : K.Map) (s : K.State)
        → n ≢ m
        → v.map_open (K.close_map (some m) s).1 n ≡ v.map_open s n
    pub program-close_map :
        (m : Option K.Map) (p : K.Program) (s : K.State)
        → v.program_open (K.close_map m s).1 p ≡ v.program_open s p
    pub link-close_map :
        (m : Option K.Map) (l : K.Link) (s : K.State)
        → v.attached (K.close_map m s).1 l ≡ v.attached s l
    -- Deleting a filter removes no qdisc.
    pub clsact-filter_del :
        (f : BpfFilter) (i : ℕ) (s : K.State) → v.clsact_at (K.filter_del f s).1 i ≡ v.clsact_at s i
    -- A link is new when it is made, and closing one link detaches that link alone.
    pub attach_xdp_ok :
        (o : XdpOptions K.Program) (k : K.Link) (s s' : K.State)
        → K.attach_xdp o s ≡ (ok k, s')
        → (v.attached s k ≡ false) × (v.attached s' k ≡ true)
    pub attach_xdp_other :
        (o : XdpOptions K.Program) (k : K.Link) (s : K.State)
        → v.attached s k ≡ true
        → v.attached (K.attach_xdp o s).1 k ≡ true
    pub link-close : (k : K.Link) (s : K.State) → v.attached (K.close_link k s) k ≡ false
    pub link-close_other :
        (k j : K.Link) (s : K.State) → j ≢ k → v.attached (K.close_link k s) j ≡ v.attached s j
    pub program-close_link :
        (k : K.Link) (p : K.Program) (s : K.State)
        → v.program_open (K.close_link k s) p ≡ v.program_open s p
    pub map-close_link :
        (k : K.Link) (m : K.Map) (s : K.State) → v.map_open (K.close_link k s) m ≡ v.map_open s m
