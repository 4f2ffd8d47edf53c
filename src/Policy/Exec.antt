-- ===== src/Policy/Exec.antt =====
-- The body of `Reconcile` as actions on the world: an action goes on with a value, or ends the
-- call by an early `return` or a panic. What was written before the end stays written.
use cillion.Base.{ℕ, ◌≡◌, refl, ◌⊎◌, inl, inr, Option, none, some}

-- `ctrl.Result`; the delay in nanoseconds, 0 for no requeue.
pub record CtrlResult : Type 0 where
  pub requeue_after : ℕ

-- How a call of `Reconcile` ends; a panic is a dereference of nil.
pub data Outcome (E : Type 0) : Type 0 where
  returned : CtrlResult → Option E → Outcome E
  panicked : Outcome E

pub data Flow (E : Type 0) (A : Type 0) : Type 0 where
  go : A → Flow E A
  exit : Outcome E → Flow E A

abbrev pub Exec : Type 0 → Type 0 → Type 0 → Type 0
Exec W E A = W → Flow E A × W

abbrev pub no_requeue : CtrlResult
no_requeue = record { requeue_after = 0 }

module _ {W E : Type 0} where
  abbrev pub pure : {A : Type 0} → A → Exec W E A
  pure a w = (go a, w)

  abbrev pub leave : {A : Type 0} → Outcome E → Exec W E A
  leave o w = (exit o, w)

  -- `if err != nil { return ctrl.Result{}, err }`
  abbrev pub fail_with : Option E → Exec W E (Unit {0})
  fail_with none w = (go tt, w)
  fail_with (some e) w = (exit (returned no_requeue (some e)), w)

  abbrev pub continue : {A B : Type 0} → Flow E A → (A → Exec W E B) → Exec W E B
  continue (go a) f w = f a w
  continue (exit o) f w = (exit o, w)

  infixl 5 ◌>>=◌ ◌>>◌
  abbrev pub ◌>>=◌ : {A B : Type 0} → Exec W E A → (A → Exec W E B) → Exec W E B
  ◌>>=◌ m f w = let (r, w') = m w in continue r f w'

  abbrev pub ◌>>◌ : {B : Type 0} → Exec W E (Unit {0}) → Exec W E B → Exec W E B
  m >> k = m >>= λ _. k

-- The body's last statement returns too.
abbrev pub outcome : {E : Type 0} → Flow E (Outcome E) → Outcome E
outcome (go o) = o
outcome (exit o) = o

abbrev pub ends : {W E : Type 0} → Flow E (Outcome E) × W → Outcome E × W
ends (f, w) = (outcome f, w)

-- An action that went on did so through its first part.
pub >>=-eq-go :
    {W E A B : Type 0} (m : Exec W E A) (f : A → Exec W E B) (w w' : W) (b : B)
    → (m >>= f) w ≡ (go b, w')
    → (a : A) × (v : W) × (m w ≡ (go a, v)) × (f a v ≡ (go b, w'))
>>=-eq-go {W} {E} {A} {B} m f w w' b h = by_flow (m w) refl h
  where
    by_flow :
        (r : Flow E A × W)
        → m w ≡ r
        → continue r.0 f r.1 ≡ (go b, w')
        → (a : A) × (v : W) × (m w ≡ (go a, v)) × (f a v ≡ (go b, w'))
    by_flow (go a, v) e h = (a, v, e, h)
    by_flow (exit o, v) e h = cc

-- One that ended did so in its first part or behind it.
pub >>=-eq-exit :
    {W E A B : Type 0} (m : Exec W E A) (f : A → Exec W E B) (w w' : W) (o : Outcome E)
    → (m >>= f) w ≡ (exit o, w')
    → (m w ≡ (exit o, w')) ⊎ ((a : A) × (v : W) × (m w ≡ (go a, v)) × (f a v ≡ (exit o, w')))
>>=-eq-exit {W} {E} {A} {B} m f w w' o h = by_flow (m w) refl h
  where
    by_flow :
        (r : Flow E A × W)
        → m w ≡ r
        → continue r.0 f r.1 ≡ (exit o, w')
        → (m w ≡ (exit o, w')) ⊎ ((a : A) × (v : W) × (m w ≡ (go a, v)) × (f a v ≡ (exit o, w')))
    by_flow (go a, v) e h = inr (a, v, e, h)
    by_flow (exit x, v) e h = inl (cc)
