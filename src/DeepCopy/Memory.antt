-- ===== src/DeepCopy/Memory.antt =====
-- Memory as the deep copies see it: a slice, or a pointer to a string, is nil or the number of a
-- cell. A struct that holds such numbers shares those cells with every plain copy of it.
use cillion.Base.{ℕ, suc, String, ◌≤◌, ◌<◌, ◌==◌, nat_eq, if◌then◌else◌, ◌≡◌, Option, List, []}
use cillion.Api.{Condition, ScionClusterPeerSpec}

pub record TypeMeta : Type 0 where
  pub kind : String
  pub api_version : String

-- The three status types have this one field.
pub record Status : Type 0 where
  pub conditions : Option ℕ

pub record PathSpec : Type 0 where
  pub policy_ref : String
  pub destination_cidr : String
  pub next_hop_ip : String
  pub hop_fields : Option ℕ

-- The structs of apimachinery that hold pointers, and the contents of their cells.
pub record Kinds : Type 1 where
  pub ObjectMeta : Type 0
  pub ListMeta : Type 0
  pub LabelSelector : Type 0
  pub Content : Type 0

module _ (K : Kinds) where
  pub record PolicySpec : Type 0 where
    pub pod_selector : K.LabelSelector
    pub preference : Option ℕ

  pub record Peer : Type 0 where
    pub type_meta : TypeMeta
    pub meta : K.ObjectMeta
    pub spec : ScionClusterPeerSpec
    pub status : Status

  pub record ComputedPath : Type 0 where
    pub type_meta : TypeMeta
    pub meta : K.ObjectMeta
    pub spec : PathSpec
    pub status : Status

  pub record Policy : Type 0 where
    pub type_meta : TypeMeta
    pub meta : K.ObjectMeta
    pub spec : PolicySpec
    pub status : Status

  -- The three list types, by the cell of their items.
  pub record Items : Type 0 where
    pub type_meta : TypeMeta
    pub meta : K.ListMeta
    pub items : Option ℕ

  pub data Cell : Type 0 where
    bytes : List ℕ → Cell
    text : String → Cell
    conditions : List Condition → Cell
    peers : List Peer → Cell
    paths : List ComputedPath → Cell
    policies : List Policy → Cell
    content : K.Content → Cell

  -- What a cell holds, where it is of the kind that the type of the pointer says.
  abbrev pub bytes_in : Cell → List ℕ
  bytes_in (bytes bs) = bs
  bytes_in _ = []

  abbrev pub text_in : Cell → String
  text_in (text s) = s
  text_in _ = ""

  abbrev pub conditions_in : Cell → List Condition
  conditions_in (conditions cs) = cs
  conditions_in _ = []

  abbrev pub peers_in : Cell → List Peer
  peers_in (peers ps) = ps
  peers_in _ = []

  abbrev pub paths_in : Cell → List ComputedPath
  paths_in (paths ps) = ps
  paths_in _ = []

  abbrev pub policies_in : Cell → List Policy
  policies_in (policies ps) = ps
  policies_in _ = []

  -- The cells from `next` on are free.
  pub record Heap : Type 0 where
    pub cells : ℕ → Cell
    pub next : ℕ

  -- `make` or `new`, with what is written there.
  unfoldable pub alloc : Cell → Heap → ℕ × Heap
  alloc c h =
      (h.next, record { cells = λ a. if a == h.next then c else h.cells a; next = suc h.next })

  -- The two memories agree on the cells from `lo` below `hi`.
  abbrev pub SameIn : ℕ → ℕ → Heap → Heap → Type 0
  SameIn lo hi h g = (a : ℕ) → lo ≤ a → a < hi → g.cells a ≡ h.cells a
