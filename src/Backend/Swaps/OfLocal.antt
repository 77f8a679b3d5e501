-- ===== src/Backend/Swaps/OfLocal.antt =====
-- A local backend swaps refs, if git does what its manual says of `update-ref` and `rev-parse`.
use git_storage.Prelude.{
  arith, ◌≡◌, ◌≢◌, refl, ap, sym, ◌∙◌, Bool, true, false, Option, none, some, [], ◌∷◌, ◌++◌, ◌⊎◌,
  inl, inr, if◌then◌else◌,
}
use mathlib.Core.Path.{subst}
use git_storage.Prelude.Text.{Text, codes}
use git_storage.Prelude.Utf8.{IsAscii, from_utf8_ascii}
use git_storage.Prelude.Spaces.{trim_line}
use git_storage.Prelude.Result.{Result, ok, err}
use git_storage.Process.{Machine, Output, Sys}
use git_storage.Process.Runs.{answered-ok}
use git_storage.Gitrepo.{Bare, git, old_or_zero, zero_oid}
use git_storage.Gitrepo
use git_storage.Gitrepo.Answers.{trimmed, found_ref, swapped}
use git_storage.Gitrepo.Listing.{Word}
use git_storage.Backend.Local.{Local, LocalBackend, local, on_repo}
use git_storage.Backend.Laws.{IsBranch}
use git_storage.Backend.Swaps.{SameRefs, SetsRef, Swapped, IsId, Expected}

-- A value of a ref, on the line that git prints.
abbrev pub IsOid : Text → Type 0
IsOid oid = Word oid × IsAscii (oid ++ 10 ∷ []) × IsId oid

-- The branches of the repository in a directory, as a git that is not disturbed keeps them, where no
-- ref below `refs/` is symbolic. `ref` gives the value that is stored for a full name below `refs/`,
-- and nothing for any other text. Where `update-ref` is given the full name of a branch, and full
-- identities, it compares the current value with the old one first, the zero identity standing for
-- none; where `rev-parse --verify --quiet` is given such a name and there is no such ref, it fails,
-- and otherwise prints the value on a line.
pub record KeepsRefs (X : Machine) (plain : Text → X.State → Type 0)
    (ref : Text → X.State → Text → Option Text) : Type 0 where
  pub oid : (dir : Text) (s : X.State) (n v : Text) → ref dir s n ≡ some v → IsOid v
  pub update_ref :
      (repo : Bare) (n new : Text) (old : Option Text) (s t : X.State) (out : Output)
      → plain repo.dir s
      → IsBranch n
      → IsId new
      → Expected old
      → X.output (git repo (codes "update-ref" ∷ n ∷ new ∷ old_or_zero old ∷ []) [] []) s
        ≡ (some out, t)
      → plain repo.dir t
        × (((out.success ≡ true)
              × (old_or_zero (ref repo.dir s n) ≡ old_or_zero old)
              × SetsRef (ref repo.dir) n new s t)
            ⊎ ((out.success ≡ false) × SameRefs (ref repo.dir) s t))
  pub rev_parse :
      (repo : Bare) (n : Text) (s t : X.State) (out : Output)
      → plain repo.dir s
      → IsBranch n
      → X.output
          (git repo (codes "rev-parse" ∷ codes "--verify" ∷ codes "--quiet" ∷ n ∷ []) [] [])
          s
        ≡ (some out, t)
      → SameRefs (ref repo.dir) s t
        × (((v : Text) × (out.success ≡ true)
              × (ref repo.dir s n ≡ some v)
              × (out.stdout ≡ v ++ 10 ∷ []))
            ⊎ ((out.success ≡ false) × (ref repo.dir s n ≡ none)))

trimmed-oid : (v : Text) → IsOid v → trimmed (v ++ 10 ∷ []) ≡ ok v
unfolding trimmed
trimmed-oid [] (w, a, z) = absurd w
trimmed-oid (c ∷ s) (w, a, z) = rw (from_utf8_ascii ((c ∷ s) ++ 10 ∷ []) a, trim_line c s w)

-- The zero identity is no value, so the comparison that git makes is that of the options.
old_or_zero-injective :
    (a b : Option Text)
    → ((v : Text) → a ≡ some v → v ≢ zero_oid)
    → ((v : Text) → b ≡ some v → v ≢ zero_oid)
    → old_or_zero a ≡ old_or_zero b
    → a ≡ b
unfolding old_or_zero
old_or_zero-injective none none h k e = refl
old_or_zero-injective none (some v) h k e = absurd (k v refl (sym e))
old_or_zero-injective (some v) none h k e = absurd (h v refl e)
old_or_zero-injective (some v) (some w) h k e = ap some e

abbrev or_none : Result (Option Text) → Option Text
or_none (ok o) = o
or_none (err e) = none

found-some :
    (out : Output) (v : Text)
    → out.success ≡ true
    → out.stdout ≡ v ++ 10 ∷ []
    → IsOid v
    → found_ref out ≡ ok (some v)
unfolding found_ref
found-some out v h k i = rw (h, k, trimmed-oid v i) refl

found-none : (out : Output) → out.success ≡ false → found_ref out ≡ ok none
unfolding found_ref
found-none out h = rw h refl

-- What `read_ref` reads is the value.
read-answer :
    (value : Option Text) (out : Output) (o : Option Text)
    → ((v : Text) → value ≡ some v → IsOid v)
    → ((v : Text) × (out.success ≡ true) × (value ≡ some v) × (out.stdout ≡ v ++ 10 ∷ []))
      ⊎ ((out.success ≡ false) × (value ≡ none))
    → found_ref out ≡ ok o
    → value ≡ o
read-answer value out o oid (inl (v, h, e, k)) found =
    e ∙ ap or_none (sym (found-some out v h k (oid v e)) ∙ found)
read-answer value out o oid (inr (h, e)) found = e ∙ ap or_none (sym (found-none out h) ∙ found)

both_ways : (out : Output) → out.success ≡ true → out.success ≡ false → ⊥
both_ways out h k = cc

swapped-true : (out : Output) → swapped out ≡ ok true → out.success ≡ true
unfolding swapped
swapped-true out h = ground arith

swapped-false : (out : Output) → swapped out ≡ ok false → out.success ≡ false
unfolding swapped
swapped-false out h = ground arith

module _ {X : Machine} where
  -- What a call on the repository does to the process.
  on_repo-ok :
      {A : Type 0} (f : LocalBackend → Sys X A) (r s : Local X) (a : A)
      → on_repo f r ≡ (ok a, s)
      → (f r.backend r.running ≡ (ok a, s.running)) × (r.backend ≡ s.backend)
  unfolding on_repo
  on_repo-ok f r s a h = (λ i. ((h i).0, (h i).1.running), λ i. (h i).1.backend)

  module _ (plain : Text → X.State → Type 0) (ref : Text → X.State → Text → Option Text) where
    -- The refs that a local backend shows.
    abbrev pub local_ref : Local X → Text → Option Text
    local_ref s n = ref s.backend.repo.dir s.running.machine n

    -- The repository of a local backend has no symbolic ref below `refs/`.
    abbrev pub LocalPlain : Local X → Type 0
    LocalPlain s = plain s.backend.repo.dir s.running.machine

    module _ (K : KeepsRefs X plain ref) where
      -- The repository stays, so the refs are those of its directory.
      same-refs :
          (r s : Local X)
          → r.backend ≡ s.backend
          → SameRefs (ref r.backend.repo.dir) r.running.machine s.running.machine
          → SameRefs local_ref r s
      same-refs r s e h k =
          subst
            (λ b. ref b.repo.dir s.running.machine k ≡ ref r.backend.repo.dir r.running.machine k) e
            (h k)

      set-refs :
          (n new : Text) (r s : Local X)
          → r.backend ≡ s.backend
          → SetsRef (ref r.backend.repo.dir) n new r.running.machine s.running.machine
          → SetsRef local_ref n new r s
      set-refs n new r s e (h, k) = (
        subst (λ b. ref b.repo.dir s.running.machine n ≡ some new) e h,
        λ j d.
            subst
              (λ b. ref b.repo.dir s.running.machine j ≡ ref r.backend.repo.dir r.running.machine j)
              e (k j d),
      )

      swapped-as :
          (n new : Text) (old : Option Text) (r s : Local X) (b : Bool) (out : Output)
          → Expected old
          → swapped out ≡ ok b
          → r.backend ≡ s.backend
          → ((out.success ≡ true)
              × (old_or_zero (local_ref r n) ≡ old_or_zero old)
              × SetsRef (ref r.backend.repo.dir) n new r.running.machine s.running.machine)
            ⊎ ((out.success ≡ false)
                × SameRefs (ref r.backend.repo.dir) r.running.machine s.running.machine)
          → Swapped local_ref n new old r s b
      swapped-as n new old r s true out z e same (inl (won, matched, set)) = (
        old_or_zero-injective (local_ref r n) old
            (λ v k. (K.oid r.backend.repo.dir r.running.machine n v k).2.2) (λ v k. (z v k).2)
            matched,
        set-refs n new r s same set,
      )
      swapped-as n new old r s true out z e same (inr (lost, kept)) =
          absurd (both_ways out (swapped-true out e) lost)
      swapped-as n new old r s false out z e same (inl (won, matched, set)) =
          absurd (both_ways out won (swapped-false out e))
      swapped-as n new old r s false out z e same (inr (lost, kept)) = same-refs r s same kept

      after_swap :
          (n new : Text) (old : Option Text) (r s : Local X) (b : Bool)
          → Swapped local_ref n new old r s b
          → local_ref s n ≡ (if b then some new else local_ref r n)
      after_swap n new old r s true (was, (at, others)) = at
      after_swap n new old r s false kept = kept n

      -- What `read_ref` of a local backend reads is the value of the ref.
      read_ref-local :
          (n : Text) (r s : Local X) (o : Option Text)
          → LocalPlain r
          → IsBranch n
          → (local X).read_ref n r ≡ (ok o, s)
          → SameRefs local_ref r s × (local_ref r n ≡ o)
      unfolding Gitrepo.read_ref
      read_ref-local n r s o p branch h =
          let (run, same) = on_repo-ok (λ b. Gitrepo.read_ref b.repo n) r s o h in
          let (out, ran, found) = answered-ok _ found_ref r.running s.running o run in
          let (kept, answer) =
            K.rev_parse r.backend.repo n r.running.machine s.running.machine out p branch ran in
          (
            same-refs r s same kept,
            read-answer (ref r.backend.repo.dir r.running.machine n) out o
                (K.oid r.backend.repo.dir r.running.machine n) answer found,
          )

      cas_ref-run :
          (n new : Text) (old : Option Text) (r s : Local X) (b : Bool)
          → (local X).cas_ref n new old r ≡ (ok b, s)
          → (out : Output) × (X.output
                (git r.backend.repo (codes "update-ref" ∷ n ∷ new ∷ old_or_zero old ∷ []) [] [])
                r.running.machine
              ≡ (some out, s.running.machine))
            × (swapped out ≡ ok b)
            × (r.backend ≡ s.backend)
      unfolding Gitrepo.cas_ref
      cas_ref-run n new old r s b h =
          let (run, same) = on_repo-ok (λ b. Gitrepo.cas_ref b.repo n new old) r s b h in
          let (out, ran, e) = answered-ok _ swapped r.running s.running b run in (out, ran, e, same)

      -- If git keeps the branches of a repository without symbolic refs as its manual says, a
      -- compare-and-swap of a local backend on the full name of a branch, from and to full
      -- identities, leaves no symbolic ref. One that is won found the expected value, sets the new
      -- one and changes no other ref; one that is lost changes no ref.
      pub cas_ref-Swapped :
          (n new : Text) (old : Option Text) (r s : Local X) (b : Bool)
          → LocalPlain r
          → IsBranch n
          → IsId new
          → Expected old
          → (local X).cas_ref n new old r ≡ (ok b, s)
          → LocalPlain s × Swapped local_ref n new old r s b
      cas_ref-Swapped n new old r s b p branch id z h =
          let (out, ran, e, same) = cas_ref-run n new old r s b h in
          let (q, done) =
            K.update_ref r.backend.repo n new old r.running.machine s.running.machine out p branch
              id z ran in
          (
            subst (λ b. plain b.repo.dir s.running.machine) same q,
            swapped-as n new old r s b out z e same done,
          )

      -- If git keeps the branches of a repository without symbolic refs as its manual says: a read of
      -- a local backend that follows on a compare-and-swap of it on the full name of a branch, from
      -- and to full identities, answers the new value where the swap was won, and the value that the
      -- ref had before the swap where it was lost; the read changes no ref.
      pub read_ref-cas_ref :
          (n new : Text) (old : Option Text) (r s t : Local X) (b : Bool) (o : Option Text)
          → LocalPlain r
          → IsBranch n
          → IsId new
          → Expected old
          → (local X).cas_ref n new old r ≡ (ok b, s)
          → (local X).read_ref n s ≡ (ok o, t)
          → (o ≡ (if b then some new else local_ref r n)) × SameRefs local_ref s t
      read_ref-cas_ref n new old r s t b o p branch id z h k =
          let (q, swapped) = cas_ref-Swapped n new old r s b p branch id z h in
          let (kept, is) = read_ref-local n s t o q branch k in
          (sym is ∙ after_swap n new old r s b swapped, kept)
