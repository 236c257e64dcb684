-- ===== src/Commands.antt =====
-- What the programs that internal/printer and internal/netadmin run are a state of: a monad of the
-- commands that were run, newest first.
use raku_sika_hub.Prelude.{List, ◌∷◌}

abbrev pub M {ℓ} : Type 0 → Type ℓ → Type ℓ
M C A = List C → A × List C

module _ {C : Type 0} where
  abbrev pub pure {ℓ} : {A : Type ℓ} → A → M C A
  pure a issued = (a, issued)

  infixl 5 ◌>>=◌
  abbrev pub ◌>>=◌ {ℓ κ} : {A : Type ℓ} {B : Type κ} → M C A → (A → M C B) → M C B
  ◌>>=◌ m f issued = let (a, later) = m issued in f a later

  -- Commands of a kind only, run after those before.
  pub data Ran (Kind : C → Type 0) (before : List C) : List C → Type 0 where
    same : Ran Kind before before
    more :
        (c : C) {issued : List C} → Kind c → Ran Kind before issued → Ran Kind before (c ∷ issued)

  module _ (Kind : C → Type 0) where
    pub Ran-trans : {a b c : List C} → Ran Kind a b → Ran Kind b c → Ran Kind a c
    Ran-trans r same = r
    Ran-trans r (more c k s) = more c k (Ran-trans r s)

    -- A computation that runs commands of that kind only.
    abbrev pub Runs {ℓ} : {A : Type ℓ} → M C A → Type 0
    Runs m = (issued : List C) → Ran Kind issued (m issued).1

    pub Runs-pure {ℓ} : {A : Type ℓ} (a : A) → Runs (pure a)
    Runs-pure a issued = same

    pub Runs-bind {ℓ κ} :
        {A : Type ℓ} {B : Type κ} (m : M C A) (f : A → M C B)
        → Runs m
        → ((a : A) → Runs (f a))
        → Runs (m >>= f)
    Runs-bind m f h k issued = Ran-trans (h issued) (k (m issued).0 (m issued).1)

pub ruleset running_rules = (Runs-pure, Runs-bind)
