-- ===== src/Dataplane/Packet/Logic.antt =====
-- A Hoare logic for runs: what holds of the value that a run goes on with, and of the verdict that
-- it ends with. A run that leaves the packet satisfies nothing.
use cillion.Base.{
  ℕ, zero, suc, ◌+◌, ◌<◌, ◌≤◌, ◌≡◌, ◌⊎◌, inl, inr, refl, Bool, true, false, Option, none, some,
  List, [], ◌∷◌, length, take, drop, arith,
}
use cillion.Bpf.Key.{little, uint32}
use cillion.Bpf.Key.Laws.{AreBytes, length-drop}
use cillion.Dataplane.Packet.{
  Run, next, ends, faults, ◌>>=◌, unless, or_return, load_byte, load_be16, word, load_word, verdict,
}

abbrev pub IsByte : ℕ → Type 0
IsByte b = b < 256

module _ {V : Type 0} (R : V → Type 0) where
  abbrev pub Satisfies : {A : Type 0} → (A → Type 0) → Run V A → Type 0
  Satisfies Q (next a) = Q a
  Satisfies Q (ends v) = R v
  Satisfies Q faults = ⊥

  pub >>=-Satisfies :
      {A B : Type 0} (Q : A → Type 0) (S : B → Type 0) (m : Run V A) (f : A → Run V B)
      → Satisfies Q m
      → ((a : A) → Q a → Satisfies S (f a))
      → Satisfies S (m >>= f)
  >>=-Satisfies Q S (next a) f h k = k a h
  >>=-Satisfies Q S (ends v) f h k = h
  >>=-Satisfies Q S faults f h k = absurd h

  pub unless-Satisfies :
      (b : Bool) (v : V) → R v → Satisfies (λ (u : Unit {0}). b ≡ true) (unless b v)
  unless-Satisfies true v h = refl
  unless-Satisfies false v h = h

  -- The verdict need only be right where the check fails.
  pub unless-Satisfies_false :
      (b : Bool) (v : V) → (b ≡ false → R v) → Satisfies (λ (u : Unit {0}). b ≡ true) (unless b v)
  unless-Satisfies_false true v h = refl
  unless-Satisfies_false false v h = h refl

  pub or_return-Satisfies :
      {A : Type 0} (o : Option A) (v : V) → R v → Satisfies (λ (a : A). o ≡ some a) (or_return o v)
  or_return-Satisfies (some a) v h = refl
  or_return-Satisfies none v h = h

  pub or_return-Satisfies_none :
      {A : Type 0} (o : Option A) (v : V)
      → (o ≡ none → R v)
      → Satisfies (λ (a : A). o ≡ some a) (or_return o v)
  or_return-Satisfies_none (some a) v h = refl
  or_return-Satisfies_none none v h = h refl

  -- A byte inside the packet is read.
  pub load_byte-Satisfies :
      (p : List ℕ) (i : ℕ) → AreBytes p → i < length p → Satisfies IsByte (load_byte p i)
  unfolding load_byte
  load_byte-Satisfies [] i h lt = absurd (omega arith)
  load_byte-Satisfies (b ∷ bs) zero h lt = h.0
  load_byte-Satisfies (b ∷ bs) (suc i) h lt = load_byte-Satisfies bs i h.1 (omega arith)

  pub load_be16-Satisfies :
      (p : List ℕ) (i : ℕ)
      → AreBytes p
      → i + 1 < length p
      → Satisfies (λ w. w < 65_536) (load_be16 p i)
  unfolding load_be16
  load_be16-Satisfies p i h lt =
      >>=-Satisfies IsByte _ (load_byte p i) _ (load_byte-Satisfies p i h (omega arith)) λ a ha.
        >>=-Satisfies IsByte _ (load_byte p (i + 1)) _ (load_byte-Satisfies p (i + 1) h lt)
          λ b hb. omega arith

  word-Satisfies : (bs : List ℕ) → 4 ≤ length bs → Satisfies (λ (k : ℕ). Unit {0}) (word {V = V} bs)
  word-Satisfies (a ∷ b ∷ c ∷ d ∷ bs) le = tt
  word-Satisfies [] le = absurd (omega arith)
  word-Satisfies (a ∷ []) le = absurd (omega arith)
  word-Satisfies (a ∷ b ∷ []) le = absurd (omega arith)
  word-Satisfies (a ∷ b ∷ c ∷ []) le = absurd (omega arith)

  pub load_word-Satisfies :
      (p : List ℕ) (i : ℕ) → i + 4 ≤ length p → Satisfies (λ (k : ℕ). Unit {0}) (load_word p i)
  unfolding load_word
  load_word-Satisfies p i le = word-Satisfies (drop i p) (omega (arith, length-drop i p))

  pub verdict-Satisfies : (m : Run V V) → Satisfies R m → (v : V) × (verdict m ≡ some v) × R v
  verdict-Satisfies (next v) h = (v, refl, h)
  verdict-Satisfies (ends v) h = (v, refl, h)
  verdict-Satisfies faults h = absurd h

  pub Satisfies-cases :
      {A : Type 0} (Q : A → Type 0) (m : Run V A)
      → Satisfies Q m
      → ((a : A) × (m ≡ next a) × Q a) ⊎ ((v : V) × (m ≡ ends v) × R v)
  Satisfies-cases Q (next a) h = inl (a, refl, h)
  Satisfies-cases Q (ends v) h = inr (v, refl, h)
  Satisfies-cases Q faults h = absurd h

  -- The value that a run goes on with is its own.
  pub Satisfies-eq :
      {A : Type 0} (Q : A → Type 0) (m : Run V A)
      → Satisfies Q m
      → Satisfies (λ a. (m ≡ next a) × Q a) m
  Satisfies-eq Q (next a) h = (refl, h)
  Satisfies-eq Q (ends v) h = h
  Satisfies-eq Q faults h = h

pub load_byte-next :
    {V : Type 0} (p : List ℕ) (i : ℕ) → i < length p → (b : ℕ) × (load_byte {V = V} p i ≡ next b)
unfolding load_byte
load_byte-next [] i lt = absurd (omega arith)
load_byte-next (b ∷ bs) zero lt = (b, refl)
load_byte-next (b ∷ bs) (suc i) lt = load_byte-next bs i (omega arith)

-- The word that a little-endian host loads is the one that `NativeEndian.Uint32` reads there.
word_lem :
    {V : Type 0} (q : List ℕ) (k : ℕ) → uint32 little (take 4 q) ≡ some k → word {V = V} q ≡ next k
unfolding uint32
word_lem (a ∷ b ∷ c ∷ d ∷ q) k e = ground arith
word_lem [] k e = cc
word_lem (a ∷ []) k e = cc
word_lem (a ∷ b ∷ []) k e = cc
word_lem (a ∷ b ∷ c ∷ []) k e = cc

pub load_word_lem :
    {V : Type 0} (p : List ℕ) (i k : ℕ)
    → uint32 little (take 4 (drop i p)) ≡ some k
    → load_word {V = V} p i ≡ next k
unfolding load_word
load_word_lem p i k e = word_lem (drop i p) k e
