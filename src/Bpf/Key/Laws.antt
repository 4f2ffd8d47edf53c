-- ===== src/Bpf/Key/Laws.antt =====
-- `IPToKey` and `IPFromKey` are inverse to one another.
use cillion.Base.{
  ℕ, zero, suc, ◌-◌, ◌^◌, ◌<◌, nat_eq, ◌≡◌, refl, ap, sym, ◌∙◌, subst, ◌⊎◌, ◌↔◌, inl, inr, none,
  some, List, [], ◌∷◌, length, drop, All, arith, Option-cases,
}
use cillion.Bpf.Key.{
  Endian, little, big, to4, uint32, put_uint32, key, not_ipv4, ip_to_key, ip_from_key,
}

abbrev pub AreBytes : List ℕ → Type 0
AreBytes = All (λ b. b < 256)

-- Four bytes survive the way into a word and back.
bytes_word :
    (e : Endian) (a b c d : ℕ)
    → AreBytes (a ∷ b ∷ c ∷ d ∷ [])
    → (k : ℕ) × (uint32 e (a ∷ b ∷ c ∷ d ∷ []) ≡ some k)
      × (k < 2 ^ 32)
      × (put_uint32 e k ≡ a ∷ b ∷ c ∷ d ∷ [])
unfolding uint32 put_uint32
bytes_word little a b c d h = (_, refl, omega arith, ground arith)
bytes_word big a b c d h = (_, refl, omega arith, ground arith)

word_bytes : (e : Endian) (k : ℕ) → k < 2 ^ 32 → uint32 e (put_uint32 e k) ≡ some k
unfolding uint32 put_uint32
word_bytes little k h = ground arith
word_bytes big k h = ground arith

All-drop : (n : ℕ) (bs : List ℕ) → AreBytes bs → AreBytes (drop n bs)
All-drop zero bs h = h
All-drop (suc n) [] h = tt
All-drop (suc n) (b ∷ bs) h = All-drop n bs h.1

pub length-drop : (n : ℕ) (bs : List ℕ) → length (drop n bs) ≡ length bs - n
length-drop zero bs = omega arith
length-drop (suc n) [] = omega arith
length-drop (suc n) (b ∷ bs) = omega (arith, length-drop n bs)

to4_cases :
    (ip ip4 : List ℕ)
    → to4 ip ≡ some ip4
    → ((ip ≡ ip4) × (length ip ≡ 4)) ⊎ ((drop 12 ip ≡ ip4) × (length ip ≡ 16))
unfolding to4
to4_cases ip ip4 e = ground arith

to4_shape : (ip ip4 : List ℕ) → AreBytes ip → to4 ip ≡ some ip4 → AreBytes ip4 × (length ip4 ≡ 4)
unfolding to4
to4_shape ip ip4 h e = by_form (to4_cases ip ip4 e)
  where
    by_form :
        ((ip ≡ ip4) × (length ip ≡ 4)) ⊎ ((drop 12 ip ≡ ip4) × (length ip ≡ 16))
        → AreBytes ip4 × (length ip4 ≡ 4)
    by_form (inl (p, n)) = (subst AreBytes p h, ground arith)
    by_form (inr (p, n)) =
        (subst AreBytes p (All-drop 12 ip h), rw (← p) (omega (arith, length-drop 12 ip)))

pub list_word :
    (e : Endian) (bs : List ℕ)
    → AreBytes bs
    → length bs ≡ 4
    → (k : ℕ) × (uint32 e bs ≡ some k) × (k < 2 ^ 32) × (ip_from_key e k ≡ bs)
unfolding ip_from_key
list_word e (a ∷ b ∷ c ∷ d ∷ []) h n = bytes_word e a b c d h
list_word e [] h n = absurd (omega arith)
list_word e (a ∷ []) h n = absurd (omega arith)
list_word e (a ∷ b ∷ []) h n = absurd (omega arith)
list_word e (a ∷ b ∷ c ∷ []) h n = absurd (omega arith)
list_word e (a ∷ b ∷ c ∷ d ∷ x ∷ bs) h n = absurd (omega arith)

ip_to_key-none : (e : Endian) (ip : List ℕ) → to4 ip ≡ none → ip_to_key e ip ≡ not_ipv4
unfolding ip_to_key
ip_to_key-none e ip h = ground arith

ip_to_key-some :
    (e : Endian) (ip ip4 : List ℕ) (k : ℕ)
    → to4 ip ≡ some ip4
    → uint32 e ip4 ≡ some k
    → ip_to_key e ip ≡ key k
unfolding ip_to_key
ip_to_key-some e ip ip4 k h g = ground arith

to4-put_uint32 : (e : Endian) (k : ℕ) → to4 (ip_from_key e k) ≡ some (put_uint32 e k)
unfolding to4 ip_from_key
to4-put_uint32 little k = ground arith
to4-put_uint32 big k = ground arith

-- An address in IPv4 form becomes a 32-bit key that holds its four bytes, as `IPFromKey` gives them
-- back; any other is an error. `IPToKey` never panics, and it inverts `IPFromKey`.
pub ip_to_key_lem :
    (e : Endian)
    → ((ip : List ℕ)
        → AreBytes ip
        → ((to4 ip ≡ none) × (ip_to_key e ip ≡ not_ipv4))
          ⊎ ((k : ℕ) × (to4 ip ≡ some (ip_from_key e k)) × (ip_to_key e ip ≡ key k) × (k < 2 ^ 32)))
      × ((k : ℕ) → k < 2 ^ 32 → ip_to_key e (ip_from_key e k) ≡ key k)
ip_to_key_lem e = (
  λ ip h. elim (Option-cases (to4 ip)) [
    | inl absent ↦ inl (absent, ip_to_key-none e ip absent)
    | inr (ip4, found) ↦
        let (bytes, four) = to4_shape ip ip4 h found in
        let (k, read, small, back) = list_word e ip4 bytes four in
        inr (k, found ∙ ap some (sym back), ip_to_key-some e ip ip4 k found read, small)
  ],
  λ k h. ip_to_key-some e _ _ k (to4-put_uint32 e k) (word_bytes e k h),
)

ip_to_key_same :
    (e : Endian) (ip ip' : List ℕ) → to4 ip' ≡ to4 ip → ip_to_key e ip' ≡ ip_to_key e ip
unfolding ip_to_key
ip_to_key_same e ip ip' g = rw (g, ip_to_key)

to4-of_key :
    (e : Endian) (ip : List ℕ) (k : ℕ)
    → AreBytes ip
    → ip_to_key e ip ≡ key k
    → to4 ip ≡ some (ip_from_key e k)
to4-of_key e ip k h found = elim ((ip_to_key_lem e).0 ip h) [
  | inl (absent, no_key) ↦ cc
  | inr (j, four, has_key, small) ↦ four ∙ ap (λ (n : ℕ). some (ip_from_key e n)) (ground arith)
]

-- Two addresses share a key exactly when they have the same IPv4 form: no two pods are mixed up,
-- and an IPv4-mapped IPv6 address finds the entry of its IPv4 address.
ip_to_key-eq_iff :
    (e : Endian) (ip ip' : List ℕ) (k : ℕ)
    → AreBytes ip
    → AreBytes ip'
    → ip_to_key e ip ≡ key k
    → (ip_to_key e ip' ≡ key k) ↔ (to4 ip' ≡ to4 ip)
ip_to_key-eq_iff e ip ip' k h h' found = (
  λ g. to4-of_key e ip' k h' g ∙ sym (to4-of_key e ip k h found),
  λ g. ip_to_key_same e ip ip' g ∙ found,
)
