-- ===== src/Tests/KernelModel.antt =====
-- A small kernel that meets what the loader relies on. Handles are numbers.
use cillion.Base.{
  ℕ, suc, ◌+◌, ◌*◌, ◌≤◌, ◌==◌, nat_eq, ℕ_discrete, contains, if◌then◌else◌, ◌≡◌, refl, Bool, true,
  false, ◌&&◌, Option, none, some, List, [], ◌∷◌, arith, Bool-cases, inl, inr, subst,
}
use cillion.Bpf.Kernel.{ScionPathEntry, Kernel, Result, ok, err, BpfFilter}
use cillion.Bpf.Contract.{View, IsLawful, SameHandles, IsFresh}

pub record State : Type 0 where
  pub programs : List ℕ
  pub maps : List ℕ
  pub links : List ℕ
  pub policies : ℕ → ℕ → Option ℕ
  pub paths : ℕ → ℕ → Option ScionPathEntry
  pub clsact : List ℕ
  pub filters : List (Result ℕ BpfFilter)

-- A number that is not in the list.
abbrev above : List ℕ → ℕ
above [] = 0
above (x ∷ xs) = suc (x + above xs)

contains-above : (xs : List ℕ) (j : ℕ) → above xs ≤ j → contains xs j ≡ false
contains-above [] j h = refl
contains-above (x ∷ xs) j h = ground (arith, contains-above xs j)

abbrev erase : List ℕ → ℕ → List ℕ
erase [] a = []
erase (x ∷ xs) a = if x == a then erase xs a else x ∷ erase xs a

contains-erase :
    (xs : List ℕ) (a b : ℕ) → contains (erase xs a) b ≡ (if b == a then false else contains xs b)
contains-erase [] a b = ground arith
contains-erase (x ∷ xs) a b = ground (arith, contains-erase xs a b)

abbrev put {ℓ} : {A : Type ℓ} → (ℕ → ℕ → A) → ℕ → ℕ → A → ℕ → ℕ → A
put f m k a n j = if n == m && j == k then a else f n j

abbrev clear {ℓ} : {A : Type ℓ} → (ℕ → ℕ → Option A) → ℕ → ℕ → ℕ → Option A
clear f m n j = if n == m then none else f n j

-- An image that begins with 0 is refused by the loader, one that begins with 1 by the verifier.
abbrev load_collection_spec : List ℕ → Result ℕ (List ℕ)
load_collection_spec [] = err 22
load_collection_spec (b ∷ bs) = if b == 0 then err 22 else ok (b ∷ bs)

abbrev with_objects : State → State
with_objects s = record s {
  programs = above s.programs ∷ s.programs;
  maps = above s.maps ∷ suc (above s.maps) ∷ s.maps;
  policies = clear s.policies (above s.maps);
  paths = clear s.paths (suc (above s.maps));
}

abbrev is_refused : List ℕ → Bool
is_refused [] = true
is_refused (b ∷ bs) = b == 1

abbrev load_and_assign : List ℕ → State → Result ℕ (ℕ × ℕ × ℕ) × State
load_and_assign spec s =
    if is_refused spec
    then (err 13, s)
    else (ok (above s.programs, above s.maps, suc (above s.maps)), with_objects s)

abbrev close_program : Option ℕ → State → Option ℕ × State
close_program none s = (none, s)
close_program (some p) s = (none, record s { programs = erase s.programs p })

abbrev close_map : Option ℕ → State → Option ℕ × State
close_map none s = (none, s)
close_map (some m) s = (none, record s { maps = erase s.maps m })

abbrev unfiltered : List (Result ℕ BpfFilter) → ℕ → List (Result ℕ BpfFilter)
unfiltered [] h = []
unfiltered (err other ∷ fs) h = err other ∷ unfiltered fs h
unfiltered (ok f ∷ fs) h = if f.handle == h then unfiltered fs h else ok f ∷ unfiltered fs h

abbrev pub toy_kernel : Kernel
toy_kernel = record {
  Error = ℕ;
  State = State;
  Program = ℕ;
  Map = ℕ;
  Link = ℕ;
  Spec = List ℕ;
  OtherFilter = ℕ;
  load_collection_spec = load_collection_spec;
  load_and_assign = load_and_assign;
  close_program = close_program;
  close_map = close_map;
  close_link = λ k s. record s { links = erase s.links k };
  program_fd = λ p. p;
  put_policy = λ m k id s. (none, record s { policies = put s.policies m k (some id) });
  delete_policy = λ m k s. (none, record s { policies = put s.policies m k none });
  put_path = λ m k x s. (none, record s { paths = put s.paths m k (some x) });
  delete_path = λ m k s. (none, record s { paths = put s.paths m k none });
  link_by_name = λ iface s. ok 2;
  qdisc_add = λ q s. (some 17, s);
  is_eexist = λ e. e == 17;
  filter_add = λ f s. (none, record s { filters = ok f ∷ s.filters });
  filter_del = λ f s. (none, record s { filters = unfiltered s.filters f.handle });
  filter_list = λ index parent s. ok s.filters;
  make_handle = λ major minor. 65_536 * major + minor;
  handle_clsact = 0xfffffff1;
  handle_min_egress = 0xfffffff3;
  eth_p_all = 3;
  attach_xdp = λ o s. (ok (above s.links), record s { links = above s.links ∷ s.links });
}

abbrev pub toy_kernel_view : View toy_kernel
toy_kernel_view = record {
  program_open = λ s p. contains s.programs p;
  map_open = λ s m. contains s.maps m;
  attached = λ s k. contains s.links k;
  policy_at = λ s m k. s.policies m k;
  path_at = λ s m k. s.paths m k;
  clsact_at = λ s i. contains s.clsact i;
  program_dec = ℕ_discrete;
  map_dec = ℕ_discrete;
}

with_objects-IsFresh :
    (s : State)
    → IsFresh toy_kernel toy_kernel_view s
        (with_objects s)
        (above s.programs)
        (above s.maps)
        (suc (above s.maps))
with_objects-IsFresh s = record {
  program_new = (contains-above s.programs _ (omega arith), ground arith);
  policy_map_new = (contains-above s.maps _ (omega arith), ground arith);
  path_map_new = (contains-above s.maps _ (omega arith), ground arith);
  maps_differ = λ e. omega arith;
  policies_empty = λ j. ground arith;
  paths_empty = λ j. ground arith;
  other_programs = λ q d. ground arith;
  other_maps = λ x d e. ground arith;
  other_policies = λ x j d. ground arith;
  other_paths = λ x j d. ground arith;
  links = λ l. refl;
}

abbrev FreshResult : State → Result ℕ (ℕ × ℕ × ℕ) × State → Type 0
FreshResult s (ok (p, m, n), s') = IsFresh toy_kernel toy_kernel_view s s' p m n
FreshResult s (err e, s') = Unit

load_ok :
    (spec : List ℕ) (p m n : ℕ) (s s' : State)
    → load_and_assign spec s ≡ (ok (p, m, n), s')
    → IsFresh toy_kernel toy_kernel_view s s' p m n
load_ok spec p m n s s' h = elim (Bool-cases (is_refused spec)) [
  | inl bad ↦ absurd (ground arith)
  | inr good ↦ moved (rw good at h)
]
  where
    moved :
        ◌≡◌ {A = Result ℕ (ℕ × ℕ × ℕ) × State}
          (ok (above s.programs, above s.maps, suc (above s.maps)), with_objects s)
          (ok (p, m, n), s')
        → IsFresh toy_kernel toy_kernel_view s s' p m n
    moved e =
        subst (λ (r : Result ℕ (ℕ × ℕ × ℕ) × State). FreshResult s r) e (with_objects-IsFresh s)

load_err :
    (spec : List ℕ) (e : ℕ) (s s' : State)
    → load_and_assign spec s ≡ (err e, s')
    → SameHandles toy_kernel toy_kernel_view s s'
load_err spec e s s' h = record {
  programs = λ p. ground arith;
  maps = λ m. ground arith;
  links = λ k. ground arith;
}

pub toy_kernel-IsLawful : IsLawful toy_kernel toy_kernel_view
toy_kernel-IsLawful = record {
  policy-put = λ m k j id s s' h. ground arith;
  policy-put_other = λ m n k j id s d. ground arith;
  policy-delete = λ m k j s s' h. ground arith;
  policy-delete_other = λ m n k j s d. ground arith;
  path-put = λ m k j x s s' h. ground arith;
  path-put_other = λ m n k j x s d. ground arith;
  path-delete = λ m k j s s' h. ground arith;
  path-delete_other = λ m n k j s d. ground arith;
  path-put_policy = λ m n k j id s. refl;
  path-delete_policy = λ m n k j s. refl;
  policy-put_path = λ m n k j x s. refl;
  policy-delete_path = λ m n k j s. refl;
  load_ok = load_ok;
  load_err = load_err;
  program-close = λ p s s' h. ground (arith, contains-erase s.programs p p);
  program-close_other = λ p q s d. ground (arith, contains-erase s.programs p q);
  map-close_program = λ p m s. ground arith;
  link-close_program = λ p l s. ground arith;
  map-close = λ m s s' h. ground (arith, contains-erase s.maps m m);
  map-close_other = λ m n s d. ground (arith, contains-erase s.maps m n);
  program-close_map = λ m p s. ground arith;
  link-close_map = λ m l s. ground arith;
  clsact-filter_del = λ f i s. refl;
  attach_xdp_ok = λ o k s s' h. ground (arith, contains-above s.links (above s.links));
  attach_xdp_other = λ o k s up. ground arith;
  link-close = λ k s. ground (arith, contains-erase s.links k k);
  link-close_other = λ k j s d. ground (arith, contains-erase s.links k j);
  program-close_link = λ k p s. refl;
  map-close_link = λ k m s. refl;
}
