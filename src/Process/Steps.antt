-- ===== src/Process/Steps.antt =====
-- Relations between the states before and after an action, put together from its parts.
use git_storage.Prelude.Result.{Result, Error, ok, err}
use git_storage.Process.{Act, pure, fail, lift, try, view, continue, ◌>>=◌}

module _ {S : Type 0} (R : S → S → Type 0) where
  -- Whatever an action returns, the relation holds.
  abbrev pub Steps {ℓ} : {A : Type ℓ} → Act S A → Type 0
  Steps m = (s : S) → R s (m s).1

  -- The relation holds where nothing happens, and goes from step to step.
  pub record IsPreorder : Type 0 where
    pub same : (s : S) → R s s
    pub after : {s t u : S} → R s t → R t u → R s u

module _ {S : Type 0} {R : S → S → Type 0} (P : IsPreorder R) where
  pub Steps-fail {ℓ} : (A : Type ℓ) (e : Error) → Steps R (fail {A = A} e)
  unfolding fail
  Steps-fail A e s = P.same s

  module _ {ℓ} {A : Type ℓ} where
    pub Steps-pure : (a : A) → Steps R (pure a)
    unfolding pure
    Steps-pure a s = P.same s

    pub Steps-lift : (r : Result A) → Steps R (lift r)
    unfolding lift
    Steps-lift r s = P.same s

    pub Steps-view : (f : S → A) → Steps R (view f)
    unfolding view
    Steps-view f s = P.same s

    pub Steps-try : (m : Act S A) → Steps R m → Steps R (try m)
    unfolding try
    Steps-try m h s = h s

  module _ {ℓ κ} {A : Type ℓ} {C : Type κ} where
    Steps-continue :
        (r : Result A) (f : A → Act S C) → ((a : A) → Steps R (f a)) → Steps R (continue r f)
    unfolding continue
    Steps-continue (ok a) f h s = h a s
    Steps-continue (err e) f h s = P.same s

    pub Steps-bind :
        (m : Act S A) (f : A → Act S C) → Steps R m → ((a : A) → Steps R (f a)) → Steps R (m >>= f)
    unfolding ◌>>=◌
    Steps-bind m f h k s = P.after (h s) (Steps-continue (m s).0 f k (m s).1)
