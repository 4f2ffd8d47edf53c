-- ===== src/Bpf/Entry/Image.antt =====
-- The C struct reads what the Go struct holds.
use cillion.Base.{
  ℕ, zero, suc, ◌+◌, ◌-◌, ◌<◌, ◌≤◌, ◌≡◌, refl, ap, ◌∙◌, some, List, [], ◌∷◌, ◌++◌, length,
  length-append, take, drop, take-append_length, drop-append_length, arith,
}
use mathlib.Core.List.{append_assoc}
use cillion.Bpf.Key.{Endian, little, big, uint32, ip_from_key}
use cillion.Bpf.Key.Laws.{AreBytes, list_word}
use cillion.Bpf.Kernel.{ScionPathEntry}
use cillion.Bpf.Entry.{
  Kind, u8_array, u16, u32, size, align, align_up, slots, end_of, struct_size, zeros, fields_image,
  kinds, put_uint16, get_uint16, go_fields, go_image, CPathEntry, c_kinds, read_slots, c_values,
  c_read,
}

length-zeros : (n : ℕ) → length (zeros n) ≡ n
length-zeros zero = refl
length-zeros (suc n) = ap (λ (k : ℕ). suc k) (length-zeros n)

-- Each field has as many bytes as its type.
abbrev Sized : List (Kind × List ℕ) → Type 0
Sized [] = Unit
Sized ((k, bs) ∷ fs) = (length bs ≡ size k) × Sized fs

abbrev contents : List (Kind × List ℕ) → List (List ℕ)
contents [] = []
contents ((k, bs) ∷ fs) = bs ∷ contents fs

align_up-le : (n : ℕ) (k : Kind) → n ≤ align_up n (align k)
align_up-le n (u8_array m) = omega arith
align_up-le n u16 = omega arith
align_up-le n u32 = omega arith

length-fields_image :
    (at : ℕ) (fs : List (Kind × List ℕ))
    → Sized fs
    → at + length (fields_image at fs) ≡ end_of at (kinds fs)
length-fields_image at [] s = omega arith
length-fields_image at ((k, bs) ∷ fs) (e, s) =
    let o = align_up at (align k) in
    omega (
      arith,
      length-append (zeros (o - at)) (bs ++ fields_image (o + size k) fs),
      length-append bs (fields_image (o + size k) fs),
      length-zeros (o - at),
      align_up-le at k,
      e,
      length-fields_image (o + size k) fs s,
    )

slice :
    (xs ys zs : List ℕ) (o n : ℕ)
    → length xs ≡ o
    → length ys ≡ n
    → take n (drop o (xs ++ (ys ++ zs))) ≡ ys
slice xs ys zs o n p q = rw (← p, ← q, drop-append_length xs (ys ++ zs)) (take-append_length ys zs)

-- The slots of the types hold the fields, wherever the image stands in memory.
read-image :
    (pre : List ℕ) (at : ℕ) (fs : List (Kind × List ℕ)) (post : List ℕ)
    → length pre ≡ at
    → Sized fs
    → read_slots (slots at (kinds fs)) (pre ++ (fields_image at fs ++ post)) ≡ contents fs
read-image pre at [] post p s = refl
read-image pre at ((k, bs) ∷ fs) post p (e, s) =
    let o = align_up at (align k) in
    let rest = fields_image (o + size k) fs in
    let m = pre ++ ((zeros (o - at) ++ (bs ++ rest)) ++ post) in
    let to_field : length (pre ++ zeros (o - at)) ≡ o =
      omega (arith, length-append pre (zeros (o - at)), length-zeros (o - at), align_up-le at k) in
    let behind : length ((pre ++ zeros (o - at)) ++ bs) ≡ o + size k =
      omega (arith, length-append (pre ++ zeros (o - at)) bs) in
    let field : m ≡ (pre ++ zeros (o - at)) ++ (bs ++ (rest ++ post)) = simp append_assoc in
    let others : m ≡ ((pre ++ zeros (o - at)) ++ bs) ++ (rest ++ post) = simp append_assoc in
    let here : take (size k) (drop o m) ≡ bs =
      rw field (slice (pre ++ zeros (o - at)) bs (rest ++ post) o (size k) to_field e) in
    let there : read_slots (slots (o + size k) (kinds fs)) m ≡ contents fs =
      rw others (read-image ((pre ++ zeros (o - at)) ++ bs) (o + size k) fs post behind s) in
    rw (here, there) refl

uint16-put : (e : Endian) (n : ℕ) → n < 65_536 → get_uint16 e (put_uint16 e n) ≡ some n
uint16-put little n h = ground arith
uint16-put big n h = ground arith

length-put_uint16 : (e : Endian) (n : ℕ) → length (put_uint16 e n) ≡ 2
length-put_uint16 little n = refl
length-put_uint16 big n = refl

c_values_lem :
    (e : Endian) (ip mac len hops key : List ℕ) (k n : ℕ)
    → uint32 e ip ≡ some k
    → get_uint16 e len ≡ some n
    → c_values e (ip ∷ mac ∷ len ∷ hops ∷ key ∷ [])
      ≡ some (record {
        next_hop_ip = k;
        next_hop_mac = mac;
        path_len = n;
        hop_fields = hops;
        mac_key = key;
      })
c_values_lem e ip mac len hops key k n p q = ground arith

-- A value of the Go type, whose arrays have their sizes.
pub record IsEntry (entry : ScionPathEntry) : Type 0 where
  pub ip_size : length entry.next_hop_ip ≡ 4
  pub mac_size : length entry.next_hop_mac ≡ 6
  pub hops_size : length entry.hop_fields ≡ 256
  pub key_size : length entry.mac_key ≡ 16
  pub ip_bytes : AreBytes entry.next_hop_ip
  pub len_bound : entry.path_len < 65_536

module _ (e : Endian) (entry : ScionPathEntry) (is : IsEntry entry) where
  go_fields-Sized : Sized (go_fields e entry)
  go_fields-Sized = (
    is.ip_size,
    (is.mac_size, (length-put_uint16 e entry.path_len, (is.hops_size, (is.key_size, tt)))),
  )

  -- The slots of the two declarations are the same.
  go_image-slots : read_slots (slots 0 c_kinds) (go_image e entry) ≡ contents (go_fields e entry)
  unfolding go_image
  go_image-slots =
      read-image [] 0 (go_fields e entry)
        (zeros (struct_size (kinds (go_fields e entry)) - end_of 0 (kinds (go_fields e entry))))
        refl go_fields-Sized

  go_image-length : length (go_image e entry) ≡ struct_size c_kinds
  unfolding go_image
  go_image-length = omega (
    arith,
    length-append (fields_image 0 (go_fields e entry)) [],
    length-fields_image 0 (go_fields e entry) go_fields-Sized,
  )

  -- For either byte order and every value of the Go type: the bytes that Go keeps of a
  -- ScionPathEntry are as many as the C struct has, which is 284, the sum of its fields with no
  -- padding, and the C program reads in them the same path length, the same arrays, and for
  -- `next_hop_ip` the number that it stores again as the four bytes of the address.
  pub go_image-c_read :
      (length (go_image e entry) ≡ struct_size c_kinds)
      × (struct_size c_kinds ≡ 284)
      × ((c : CPathEntry) × (c_read e (go_image e entry) ≡ some c)
          × (ip_from_key e c.next_hop_ip ≡ entry.next_hop_ip)
          × (c.next_hop_mac ≡ entry.next_hop_mac)
          × (c.path_len ≡ entry.path_len)
          × (c.hop_fields ≡ entry.hop_fields)
          × (c.mac_key ≡ entry.mac_key))
  unfolding c_read
  go_image-c_read =
      let (k, is_word, bound, back) = list_word e entry.next_hop_ip is.ip_bytes is.ip_size in
      (
        go_image-length,
        refl,
        (
          record {
            next_hop_ip = k;
            next_hop_mac = entry.next_hop_mac;
            path_len = entry.path_len;
            hop_fields = entry.hop_fields;
            mac_key = entry.mac_key;
          },
          ap (c_values e) go_image-slots
              ∙ c_values_lem e entry.next_hop_ip entry.next_hop_mac (put_uint16 e entry.path_len)
                  entry.hop_fields entry.mac_key k entry.path_len is_word
                  (uint16-put e entry.path_len is.len_bound),
          back,
          refl,
          refl,
          refl,
          refl,
        ),
      )
