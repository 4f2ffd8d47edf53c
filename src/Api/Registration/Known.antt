-- ===== src/Api/Registration/Known.antt =====
-- What a scheme knows after `AddToScheme`.
use cillion.Base.{
  String, contains, ◌≡◌, refl, ◌∙◌, true, ◌||◌, Option, none, some, List, [], ◌∷◌, ◌++◌, arith,
}
use cillion.Api.Registration.{
  GroupVersion, scheme_group_version, ObjectType, path_policy, path_policy_list, computed_path,
  computed_path_list, cluster_peer, cluster_peer_list, object_type_eq, kind_of, Library, File,
  cluster_peer_types, computed_path_types, path_policy_types, file_eq, objects_of, inits,
  scheme_builder, add_to_scheme,
}

module _ (B : Library) where
  -- What a builder holds, and which type a scheme makes for a kind.
  pub record View : Type 0 where
    pub version_of : B.Builder → GroupVersion
    pub registered : B.Builder → List ObjectType
    pub known : B.Scheme → GroupVersion → String → Option ObjectType

  pub record IsLawful (v : View) : Type 0 where
    pub version-new : (g : GroupVersion) → v.version_of (B.new_builder g) ≡ g
    pub version-register :
        (ts : List ObjectType) (b : B.Builder) → v.version_of (B.register ts b) ≡ v.version_of b
    pub registered-register :
        (ts : List ObjectType) (b : B.Builder)
        → v.registered (B.register ts b) ≡ v.registered b ++ ts
    -- "AddKnownTypes registers all types passed in 'types' as being members of version 'version'."
    pub known-add :
        (b : B.Builder) (s s' : B.Scheme) (t : ObjectType)
        → B.add_to_scheme b s ≡ (none, s')
        → contains (v.registered b) t ≡ true
        → v.known s' (v.version_of b) (kind_of t) ≡ some t
    -- What is known stays known.
    pub known-stays :
        (b : B.Builder) (s s' : B.Scheme) (g : GroupVersion) (k : String) (t : ObjectType)
        → B.add_to_scheme b s ≡ (none, s')
        → v.known s g k ≡ some t
        → v.known s' g k ≡ some t

  contains-append :
      (xs ys : List ObjectType) (t : ObjectType)
      → contains (xs ++ ys) t ≡ (contains xs t || contains ys t)
  contains-append [] ys t = refl
  contains-append (x ∷ xs) ys t = ground (arith, contains-append xs ys t)

  module _ (v : View) (L : IsLawful v) where
    inits-version : (fs : List File) (b : B.Builder) → v.version_of (inits B fs b) ≡ v.version_of b
    inits-version [] b = refl
    inits-version (f ∷ fs) b =
        inits-version fs (B.register (objects_of f) b) ∙ L.version-register (objects_of f) b

    -- What is registered stays, and a file that has been initialised has registered its types.
    inits-keeps :
        (fs : List File) (b : B.Builder) (t : ObjectType)
        → contains (v.registered b) t ≡ true
        → contains (v.registered (inits B fs b)) t ≡ true
    inits-keeps [] b t h = h
    inits-keeps (f ∷ fs) b t h = inits-keeps fs (B.register (objects_of f) b) t (
        ground (
          arith,
          L.registered-register (objects_of f) b,
          contains-append (v.registered b) (objects_of f) t,
        ))

    inits-registers :
        (fs : List File) (b : B.Builder) (f : File) (t : ObjectType)
        → contains fs f ≡ true
        → contains (objects_of f) t ≡ true
        → contains (v.registered (inits B fs b)) t ≡ true
    inits-registers [] b f t h k = absurd (ground arith)
    inits-registers (g ∷ fs) b f t h k = ground (
      arith,
      L.registered-register (objects_of g) b,
      contains-append (v.registered b) (objects_of g) t,
      inits-keeps fs (B.register (objects_of g) b) t,
      inits-registers fs (B.register (objects_of g) b) f t,
    )

    abbrev file_of : ObjectType → File
    file_of path_policy = path_policy_types
    file_of path_policy_list = path_policy_types
    file_of computed_path = computed_path_types
    file_of computed_path_list = computed_path_types
    file_of cluster_peer = cluster_peer_types
    file_of cluster_peer_list = cluster_peer_types

    objects_of-file_of : (t : ObjectType) → contains (objects_of (file_of t)) t ≡ true
    objects_of-file_of path_policy = ground arith
    objects_of-file_of t = ground arith

    -- In whatever order the files of the package are initialised: after a successful `AddToScheme`
    -- each of the six types of the package is the one that the scheme makes for its kind, under the
    -- group cilion.cilion.io and the version v1alpha1, and what the scheme knew before it still
    -- knows.
    pub add_to_scheme-known :
        (files : List File)
        → ((f : File) → contains files f ≡ true)
        → (s s' : B.Scheme) → add_to_scheme B files s ≡ (none, s')
        → ((t : ObjectType) → v.known s' scheme_group_version (kind_of t) ≡ some t)
          × ((g : GroupVersion) (k : String) (t : ObjectType)
              → v.known s g k ≡ some t
              → v.known s' g k ≡ some t)
    unfolding add_to_scheme scheme_builder
    add_to_scheme-known files every s s' added =
        let b = scheme_builder B files in
        let is_version : v.version_of b ≡ scheme_group_version =
          inits-version files (B.new_builder scheme_group_version)
          ∙ L.version-new scheme_group_version in
        (
          λ t. rw is_version at (
              L.known-add b s s' t added (
                inits-registers files (B.new_builder scheme_group_version) (file_of t) t
                  (every (file_of t)) (objects_of-file_of t))),
          λ g k t h. L.known-stays b s s' g k t added h,
        )
