-- ===== src/Blockimg/Triple.antt =====
-- updater/blockimg.cpp: what holds once a call has succeeded, if something held before.
use recovery.Base.{◌≡◌, refl, Bool, true, false, Option, none, some, if◌then◌else◌}
use recovery.Blockimg.Machine.{
  Machine, Outcome, ok, failed, exited, fault, hung, M, and_then, ◌>>=◌, ◌>>◌, pure, done, get,
  stop, modify, caught, attempt,
}
use mathlib.Core.Path.{subst}
use recovery.Blockimg.Keeps.{Keeps}

-- The result is a value for which the statement holds, or there is none.
abbrev pub Post : {A : Type 0} → (A → Machine → Type 0) → Outcome A × Machine → Type 0
Post Q (ok a, m) = Q a m
Post Q (failed, m) = Unit
Post Q (exited, m) = Unit
Post Q (fault, m) = Unit
Post Q (hung, m) = Unit

pub record Triple (P : Machine → Type 0) {A : Type 0} (f : M A) (Q : A → Machine → Type 0)
    : Type 0 where
  pub holds : (m : Machine) → P m → Post Q (f m)

and_then-post :
    {A B : Type 0} (R : A → Machine → Type 0) (Q : B → Machine → Type 0) (g : A → M B)
    (r : Outcome A × Machine)
    → Post R r
    → ((a : A) → Triple (R a) (g a) Q)
    → Post Q (and_then g r)
and_then-post R Q g (ok a, m) h k = (k a).holds m h
and_then-post R Q g (failed, m) h k = tt
and_then-post R Q g (exited, m) h k = tt
and_then-post R Q g (fault, m) h k = tt
and_then-post R Q g (hung, m) h k = tt

Post-map :
    {A : Type 0} (Q R : A → Machine → Type 0) (r : Outcome A × Machine)
    → ((a : A) (m : Machine) → Q a m → R a m)
    → Post Q r
    → Post R r
Post-map Q R (ok a, m) h p = h a m p
Post-map Q R (failed, m) h p = tt
Post-map Q R (exited, m) h p = tt
Post-map Q R (fault, m) h p = tt
Post-map Q R (hung, m) h p = tt

kept : (I : Machine → Type 0) {A : Type 0} (r : Outcome A × Machine) → I r.1 → Post (λ _. I) r
kept I (ok a, m) h = h
kept I (failed, m) h = tt
kept I (exited, m) h = tt
kept I (fault, m) h = tt
kept I (hung, m) h = tt

module _ {P : Machine → Type 0} where
  module _ {A B : Type 0} where
    pub bind-Triple :
        {f : M A} {g : A → M B} {Q : B → Machine → Type 0} (R : A → Machine → Type 0)
        → Triple P f R
        → ((a : A) → Triple (R a) (g a) Q)
        → Triple P (f >>= g) Q
    unfolding ◌>>=◌
    bind-Triple {f} {g} {Q} R h k = record {
      holds = λ m p. and_then-post R Q g (f m) (h.holds m p) k;
    }

  pub then-Triple :
      {B : Type 0} {f : M (Unit {0})} {g : M B} {Q : B → Machine → Type 0} (R : Machine → Type 0)
      → Triple P f (λ _. R)
      → Triple R g Q
      → Triple P (f >> g) Q
  unfolding ◌>>◌
  then-Triple R h k = bind-Triple (λ _. R) h (λ a. k)

  module _ {A : Type 0} {Q : A → Machine → Type 0} where
    pub get-Triple :
        {g : Machine → M A}
        → ((m : Machine) → P m → Triple (λ s. s ≡ m) (g m) Q)
        → Triple P (get >>= g) Q
    unfolding ◌>>=◌ get
    get-Triple k = record { holds = λ m p. (k m p).holds m refl }

    pub pure-Triple : (a : A) → ((m : Machine) → P m → Q a m) → Triple P (pure a) Q
    unfolding pure
    pure-Triple a k = record { holds = k }

    pub failed-Triple : Triple P (stop {A = A} failed) Q
    unfolding stop
    failed-Triple = record { holds = λ m p. tt }

    pub exited-Triple : Triple P (stop {A = A} exited) Q
    unfolding stop
    exited-Triple = record { holds = λ m p. tt }

    pub fault-Triple : Triple P (stop {A = A} fault) Q
    unfolding stop
    fault-Triple = record { holds = λ m p. tt }

    pub if-Triple :
        (b : Bool) {f g : M A}
        → (b ≡ true → Triple P f Q)
        → (b ≡ false → Triple P g Q)
        → Triple P (if b then f else g) Q
    if-Triple true h k = h refl
    if-Triple false h k = k refl

    -- What is said before may be used.
    pub given-Triple : {f : M A} → ((m : Machine) → P m → Triple P f Q) → Triple P f Q
    given-Triple k = record { holds = λ m p. (k m p).holds m p }

    -- The state before may be named.
    pub exact-Triple : {f : M A} → ((m : Machine) → P m → Triple (λ s. s ≡ m) f Q) → Triple P f Q
    exact-Triple k = record { holds = λ m p. (k m p).holds m refl }

    -- A weaker statement before, and a stronger one behind.
    pub weaken-Triple :
        {f : M A} (P' : Machine → Type 0) (R : A → Machine → Type 0)
        → ((m : Machine) → P m → P' m)
        → ((a : A) (m : Machine) → R a m → Q a m)
        → Triple P' f R
        → Triple P f Q
    weaken-Triple {f} P' R before behind h = record {
      holds = λ m p. Post-map R Q (f m) behind (h.holds m (before m p));
    }

  pub modify-Triple :
      (f : Machine → Machine) {Q : Unit {0} → Machine → Type 0}
      → ((m : Machine) → P m → Q tt (f m))
      → Triple P (modify f) Q
  unfolding modify
  modify-Triple f k = record { holds = k }

  pub done-Triple :
      {Q : Unit {0} → Machine → Type 0} → ((m : Machine) → P m → Q tt m) → Triple P done Q
  unfolding done
  done-Triple k = pure-Triple tt k

-- What is kept, holds behind a success.
pub keeps-Triple : {I : Machine → Type 0} {A : Type 0} {f : M A} → Keeps I f → Triple I f (λ _. I)
keeps-Triple {I} {A} {f} h = record { holds = λ m i. kept I (f m) (h.keeps m i) }

both-post :
    {A : Type 0} (Q R : A → Machine → Type 0) (r : Outcome A × Machine)
    → Post Q r
    → Post R r
    → Post (λ a m. Q a m × R a m) r
both-post Q R (ok a, m) h k = (h, k)
both-post Q R (failed, m) h k = tt
both-post Q R (exited, m) h k = tt
both-post Q R (fault, m) h k = tt
both-post Q R (hung, m) h k = tt

pub both-Triple :
    {P : Machine → Type 0} {A : Type 0} {f : M A} (Q R : A → Machine → Type 0)
    → Triple P f Q
    → Triple P f R
    → Triple P f (λ a m. Q a m × R a m)
both-Triple {P} {A} {f} Q R h k = record {
  holds = λ m p. both-post Q R (f m) (h.holds m p) (k.holds m p);
}

any-post : {A : Type 0} (r : Outcome A × Machine) → Post (λ _ _. Unit {0}) r
any-post (ok a, m) = tt
any-post (failed, m) = tt
any-post (exited, m) = tt
any-post (fault, m) = tt
any-post (hung, m) = tt

-- Nothing is said.
pub any-Triple : {P : Machine → Type 0} {A : Type 0} {f : M A} → Triple P f (λ _ _. Unit {0})
any-Triple {P} {A} {f} = record { holds = λ m p. any-post (f m) }

-- What a caught failure says: nothing.
abbrev pub IfSome : {A : Type 0} → (A → Machine → Type 0) → Option A → Machine → Type 0
IfSome Q none m = Unit
IfSome Q (some a) m = Q a m

caught-post :
    {A : Type 0} (Q : A → Machine → Type 0) (r : Outcome A × Machine)
    → Post Q r
    → Post (IfSome Q) (caught r)
caught-post Q (ok a, m) h = h
caught-post Q (failed, m) h = tt
caught-post Q (exited, m) h = tt
caught-post Q (fault, m) h = tt
caught-post Q (hung, m) h = tt

pub attempt-Triple :
    {P : Machine → Type 0} {A : Type 0} {f : M A} (Q : A → Machine → Type 0)
    → Triple P f Q
    → Triple P (attempt f) (IfSome Q)
unfolding attempt
attempt-Triple {P} {A} {f} Q h = record { holds = λ m p. caught-post Q (f m) (h.holds m p) }

-- What a triple says of a run.
pub run-Triple :
    {P : Machine → Type 0} {A : Type 0} (f : M A) (Q : A → Machine → Type 0) (m m' : Machine)
    (a : A)
    → Triple P f Q
    → P m
    → f m ≡ (ok a, m')
    → Q a m'
run-Triple f Q m m' a h p e = subst (Post Q) e (h.holds m p)
