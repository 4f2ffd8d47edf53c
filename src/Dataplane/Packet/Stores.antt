-- ===== src/Dataplane/Packet/Stores.antt =====
-- Writes into a packet, and reads behind a part of it.
use cillion.Base.{
  ℕ, suc, ◌+◌, ◌/◌, ◌%◌, nat_eq, if◌then◌else◌, ◌≡◌, refl, ap, sym, ◌∙◌, subst, List, [], ◌∷◌, ◌++◌,
  length, take, drop, arith, ≤→leb, length-append, drop-drop, take-append_length, drop-prefix,
}
use mathlib.Core.List.{append_assoc}
use cillion.Dataplane.Packet.{Run, next, faults, load_byte, load_be16, fits}

-- The bytes of a number in network order: `bpf_htons`, which takes sixteen bits of it.
abbrev pub bpf_htons : ℕ → List ℕ
bpf_htons k = (k / 256 % 256) ∷ (k % 256) ∷ []

module _ {V : Type 0} where
  -- Bytes are written from an offset on.
  unfoldable pub store : List ℕ → ℕ → List ℕ → Run V (List ℕ)
  store p i bs =
      if fits p (i + length bs) then next (take i p ++ (bs ++ drop (i + length bs) p)) else faults

  -- The bytes of the part in the middle are replaced.
  pub store_lem :
      (p pre mid post new : List ℕ) (i : ℕ)
      → p ≡ pre ++ (mid ++ post)
      → length pre ≡ i
      → length new ≡ length mid
      → store p i new ≡ next ((pre ++ new) ++ post)
  unfolding store
  store_lem p pre mid post new i parts at size =
      let front : take i p ≡ pre =
        ap (take i) parts
        ∙ subst (λ (k : ℕ). take k (pre ++ (mid ++ post)) ≡ pre) at
            (take-append_length pre (mid ++ post)) in
      let back : drop (i + length new) p ≡ post =
        sym (drop-drop (length new) i p)
        ∙ (ap (λ (q : List ℕ). drop (length new) (drop i q)) parts
            ∙ (ap (drop (length new)) (drop-prefix pre (mid ++ post) i at)
                ∙ drop-prefix mid post (length new) (sym size))) in
      rw
        (
          ≤→leb (i + length new) (length p) (
              omega
                (arith, ap length parts, length-append pre (mid ++ post), length-append mid post)),
          front,
          back,
        )
        (ap next (sym (append_assoc pre new post)))

  load_byte-append :
      (pre mid : List ℕ) (i : ℕ) → load_byte {V = V} (pre ++ mid) (length pre + i) ≡ load_byte mid i
  unfolding load_byte
  load_byte-append [] mid i = ap (load_byte mid) (omega arith)
  load_byte-append (b ∷ pre) mid i =
      let e : suc (length pre) + i ≡ suc (length pre + i) = omega arith in
      ap (load_byte (b ∷ (pre ++ mid))) e ∙ load_byte-append pre mid i

  -- A byte behind a part is one of what follows.
  pub load_byte_behind :
      (p pre mid : List ℕ) (n i : ℕ)
      → p ≡ pre ++ mid
      → length pre ≡ n
      → load_byte {V = V} p (n + i) ≡ load_byte mid i
  load_byte_behind p pre mid n i parts at = rw (parts, ← at) (load_byte-append pre mid i)

  pub load_be16_behind :
      (p pre mid : List ℕ) (n i : ℕ)
      → p ≡ pre ++ mid
      → length pre ≡ n
      → load_be16 {V = V} p (n + i) ≡ load_be16 mid i
  unfolding load_be16
  load_be16_behind p pre mid n i parts at =
      let next_one : load_byte {V = V} p (n + i + 1) ≡ load_byte mid (i + 1) =
        ap (load_byte p) (omega arith) ∙ load_byte_behind p pre mid n (i + 1) parts at in
      rw (load_byte_behind p pre mid n i parts at, next_one) refl
