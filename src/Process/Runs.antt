-- ===== src/Process/Runs.antt =====
-- An action that succeeds is made of actions that succeed.
use git_storage.Prelude.{◌≡◌, refl, ap, Option, none, some}
use git_storage.Prelude.Result.{Result, ok, err}
use git_storage.Process.{
  Act, pure, lift, continue, ◌>>=◌, Machine, Running, Command, Output, output, started,
}
use mathlib.Core.Path.{subst}

abbrev value_of : {A : Type 0} → A → Result A → A
value_of d (ok a) = a
value_of d (err e) = d

module _ {S : Type 0} where
  module _ {A : Type 0} {C : Type 0} where
    pub bind-ok :
        (m : Act S A) (f : A → Act S C) (s : S) {c : C} {u : S}
        → (m >>= f) s ≡ (ok c, u)
        → (a : A) × (t : S) × (m s ≡ (ok a, t)) × (f a t ≡ (ok c, u))
    unfolding ◌>>=◌ continue
    bind-ok m f s h = by_result (m s) refl h
      where
        by_result :
            {c : C} {u : S} (p : Result A × S)
            → m s ≡ p
            → continue p.0 f p.1 ≡ (ok c, u)
            → (a : A) × (t : S) × (m s ≡ (ok a, t)) × (f a t ≡ (ok c, u))
        by_result (ok a, t) e h = (a, t, e, h)
        by_result (err x, t) e h = cc

  module _ {A : Type 0} where
    pub pure-ok : (a b : A) (s t : S) → pure a s ≡ (ok b, t) → (a ≡ b) × (s ≡ t)
    unfolding pure
    pure-ok a b s t h = (ap (λ p. value_of a p.0) h, ap (λ p. p.1) h)

    pub lift-ok : (r : Result A) (a : A) (s t : S) → lift r s ≡ (ok a, t) → (r ≡ ok a) × (s ≡ t)
    unfolding lift
    lift-ok r a s t h = (ap (λ p. p.0) h, ap (λ p. p.1) h)

module _ {X : Machine} where
  abbrev ended : Option Output × X.State → Running X → Result Output × Running X
  ended p s = (started p.0, record s { machine = p.1 })

  -- A command that could be run.
  output-ok :
      (cmd : Command) (s t : Running X) (out : Output)
      → output cmd s ≡ (ok out, t)
      → (X.output cmd s.machine ≡ (some out, t.machine))
  unfolding output
  output-ok cmd s t out h = by_run (X.output cmd s.machine) refl h
    where
      by_run :
          (p : Option Output × X.State)
          → X.output cmd s.machine ≡ p
          → ended p s ≡ (ok out, t)
          → X.output cmd s.machine ≡ (some out, t.machine)
      by_run (none, m) e h = cc
      by_run (some o, m) e h =
          let same : o ≡ out = ap (λ p. value_of o p.0) h in
          let moved : m ≡ t.machine = ap (λ p. p.1.machine) h in
          subst (λ x. X.output cmd s.machine ≡ (some x, t.machine)) same
            (subst (λ x. X.output cmd s.machine ≡ (some o, x)) moved e)

  -- A command whose output was read.
  pub answered-ok :
      {A : Type 0} (cmd : Command) (f : Output → Result A) (s t : Running X) (a : A)
      → (output cmd >>= λ out. lift (f out)) s ≡ (ok a, t)
      → (out : Output) × (X.output cmd s.machine ≡ (some out, t.machine)) × (f out ≡ ok a)
  answered-ok cmd f s t a h =
      let (out, s1, h1, k1) = bind-ok (output cmd) (λ out. lift (f out)) s h in
      let (e, same) = lift-ok (f out) a s1 t k1 in
      (
        out,
        subst (λ u. X.output cmd s.machine ≡ (some out, u.machine)) same
            (output-ok cmd s s1 out h1),
        e,
      )
