-- ===== src/Tests/Refs.antt =====
-- A machine whose git keeps the refs of one repository: `update-ref` and `rev-parse` as their
-- manuals say; no other command can be started.
use git_storage.Prelude.{
  ◌≡◌, ◌≢◌, refl, ap, sym, ◌∙◌, Bool, true, false, ◌&&◌, not, Option, none, some, List, [], ◌∷◌,
  ◌++◌, ◌⊎◌, inl, inr, Bool-cases, arith, length, ◌==◌, if◌then◌else◌,
}
use mathlib.Core.Path.{subst}
use git_storage.Prelude.Text.{Text, codes, eqb, eqb_iff, eqb_refl, lessb, eq_of_eqb}
use git_storage.Prelude.Result.{Result, ok}
use git_storage.Prelude.Str.{is_whitespace, trim, trim_start}
use git_storage.Prelude.Utf8.{from_utf8, utf8_rest, first_byte}
use git_storage.Map.{Map, get, insert}
use git_storage.Map.Order.{text_ord}
use git_storage.Map.Laws.{get-insert}
use git_storage.Process.{Machine, Output, output, ◌>>=◌, continue, lift}
use git_storage.Gitrepo
use git_storage.Gitrepo.Answers.{swapped, found_ref, trimmed}
use git_storage.Gitrepo.{Bare, git, base_command, old_or_zero, zero_oid}
use git_storage.Backend.Local.{Local, local, on_repo}
use git_storage.Backend.Swaps.{SameRefs, SetsRef, Swapped, Expected, IsId, is_hex}
use git_storage.Backend.Laws.{IsBranch}
use git_storage.Backend.Swaps.OfLocal.{
  KeepsRefs, IsOid, LocalPlain, local_ref, cas_ref-Swapped, read_ref-cas_ref,
}
use git_storage.Tests.Texts.{all_ascii, all_ascii-IsAscii, spaceless, spaceless-NoSpace}

abbrev Refs : Type 0
Refs = Map Text Text

-- A value that a ref can have.
abbrev is_oid : Text → Bool
is_oid [] = false
is_oid (c ∷ s) =
    spaceless (c ∷ s)
    && (all_ascii ((c ∷ s) ++ 10 ∷ [])
        && ((length (c ∷ s) == 40) && (is_hex (c ∷ s) && not (eqb (c ∷ s) zero_oid))))

abbrev valid : Option Text → Option Text
valid none = none
valid (some v) = if is_oid v then some v else none

abbrev ref_of : Refs → Text → Option Text
ref_of s n = valid (get n s)

abbrev won : Output
won = record { success = true; stdout = []; stderr = [] }

abbrev lost : Output
lost = record { success = false; stdout = []; stderr = codes "cannot lock ref" }

abbrev succeeds : Option Output → Bool
succeeds none = false
succeeds (some out) = out.success

abbrev swap : Refs → Text → Text → Text → Option Output × Refs
swap s n new old =
    if is_oid new && eqb (old_or_zero (ref_of s n)) old
    then (some won, insert n new s)
    else (some lost, s)

abbrev parsed : Option Text → Output
parsed none = record { success = false; stdout = []; stderr = [] }
parsed (some v) = record { success = true; stdout = v ++ 10 ∷ []; stderr = [] }

abbrev run : List Text → Refs → Option Output × Refs
run (a ∷ b ∷ c ∷ d ∷ []) s =
    if eqb a (codes "update-ref")
    then swap s b c d
    else if eqb a (codes "rev-parse")
    then (some (parsed (ref_of s d)), s)
    else (none, s)
run _ s = (none, s)

abbrev after_dir : List Text → List Text
after_dir (flag ∷ dir ∷ args) = args
after_dir _ = []

abbrev refs_machine : Machine
refs_machine = record {
  State = Refs;
  output = λ cmd s. run (after_dir cmd.args) s;
  exists = λ path s. true;
  create_dir_all = λ dir s. (true, s);
  remove_dir_all = λ dir s. (true, s);
  remove_file = λ path s. (true, s);
  var = λ name s. none;
  id = λ s. 7;
  sleep = λ nanos s. s;
  now = λ s. 0;
  subsec_nanos = λ s. 0;
}

abbrev ref : Text → Refs → Text → Option Text
ref dir s n = ref_of s n

update_ref-run :
    (repo : Bare) (n new old : Text) (s : Refs)
    → run (after_dir (git repo (codes "update-ref" ∷ n ∷ new ∷ old ∷ []) [] []).args) s
      ≡ swap s n new old
unfolding git base_command eqb
update_ref-run repo n new old s = refl

rev_parse-run :
    (repo : Bare) (n : Text) (s : Refs)
    → run
        (after_dir
          (git repo (codes "rev-parse" ∷ codes "--verify" ∷ codes "--quiet" ∷ n ∷ []) [] []).args)
        s
      ≡ (some (parsed (ref_of s n)), s)
unfolding git base_command eqb
rev_parse-run repo n s = refl

both : (a b : Bool) → (a && b) ≡ true → (a ≡ true) × (b ≡ true)
both true b h = (refl, h)
both false b h = cc

not_eqb : (a b : Text) → not (eqb a b) ≡ true → a ≢ b
not_eqb a b h e = ground (arith, eqb_iff a b)

is_oid-IsOid : (v : Text) → is_oid v ≡ true → IsOid v
is_oid-IsOid [] h = cc
is_oid-IsOid (c ∷ s) h =
    let (word, k) = both (spaceless (c ∷ s)) _ h in
    let (ascii, l) = both (all_ascii ((c ∷ s) ++ 10 ∷ [])) _ k in
    let (long, m) = both (length (c ∷ s) == 40) _ l in
    let (hex, other) = both (is_hex (c ∷ s)) _ m in
    (
      spaceless-NoSpace (c ∷ s) word,
      all_ascii-IsAscii ((c ∷ s) ++ 10 ∷ []) ascii,
      (ground arith, hex, not_eqb (c ∷ s) zero_oid other),
    )

valid-is_oid : (o : Option Text) (v : Text) → valid o ≡ some v → is_oid v ≡ true
valid-is_oid none v h = cc
valid-is_oid (some w) v h = ground arith

distinct : (n k : Text) → k ≢ n → eqb n k ≡ false
distinct n k d = elim (Bool-cases (eqb n k)) [
  | inl e ↦ absurd (d (sym (eq_of_eqb n k e)))
  | inr e ↦ e
]

-- After an insertion of a value that a ref can have.
inserted : (s : Refs) (n new : Text) → is_oid new ≡ true → SetsRef ref_of n new s (insert n new s)
inserted s n new h = (
  rw (get-insert n n new s, eqb_refl n, h) refl,
  λ k d. rw (get-insert n k new s, distinct n k d) refl,
)

swap-cases :
    (s t : Refs) (n new old : Text) (out : Output)
    → swap s n new old ≡ (some out, t)
    → ((out.success ≡ true) × (old_or_zero (ref_of s n) ≡ old) × SetsRef ref_of n new s t)
      ⊎ ((out.success ≡ false) × SameRefs ref_of s t)
swap-cases s t n new old out h =
    elim (Bool-cases (is_oid new && eqb (old_or_zero (ref_of s n)) old)) [
      | inl e ↦
          let k : (some won, insert n new s) ≡ (some out, t) = rw e at h in
          let (named, matched) = both (is_oid new) (eqb (old_or_zero (ref_of s n)) old) e in
          inl (
            sym (ap (λ p. succeeds p.0) k),
            eq_of_eqb (old_or_zero (ref_of s n)) old matched,
            subst (SetsRef ref_of n new s) (ap (λ p. p.1) k) (inserted s n new named),
          )
      | inr e ↦
          let k : (some lost, s) ≡ (some out, t) = rw e at h in
          inr (
            sym (ap (λ p. succeeds p.0) k),
            subst (SameRefs ref_of s) (ap (λ p. p.1) k) (λ k. refl),
          )
    ]

parsed-cases :
    (o : Option Text) (out : Output)
    → parsed o ≡ out
    → ((v : Text) × (out.success ≡ true) × (o ≡ some v) × (out.stdout ≡ v ++ 10 ∷ []))
      ⊎ ((out.success ≡ false) × (o ≡ none))
parsed-cases none out h = inr (sym (ap (λ p. p.success) h), refl)
parsed-cases (some v) out h = inl (v, sym (ap (λ p. p.success) h), refl, sym (ap (λ p. p.stdout) h))

abbrev output_of : Output → Option Output → Output
output_of d none = d
output_of d (some out) = out

-- No ref of this machine is symbolic.
abbrev Plain : Text → Refs → Type 0
Plain dir s = Unit {0}

refs_machine-KeepsRefs : KeepsRefs refs_machine Plain ref
refs_machine-KeepsRefs = record {
  oid = λ dir s n v h. is_oid-IsOid v (valid-is_oid (get n s) v h);
  update_ref = λ repo n new old s t out p branch id z h. (
    tt,
    swap-cases s t n new (old_or_zero old) out
        (sym (update_ref-run repo n new (old_or_zero old) s) ∙ h),
  );
  rev_parse = λ repo n s t out p branch h.
      let k = sym (rev_parse-run repo n s) ∙ h in
      (
        subst (SameRefs ref_of s) (ap (λ p. p.1) k) (λ j. refl),
        parsed-cases (ref_of s n) out (ap (λ p. output_of out p.0) k),
      );
}

abbrev branch_a : Text
branch_a = codes "refs/heads/a"

abbrev id_before : Text
id_before = codes "1f00000000000000000000000000000000000001"

abbrev id_after : Text
id_after = codes "2e00000000000000000000000000000000000002"

abbrev a_local : Local refs_machine
a_local = record {
  backend = record { dir = codes "d"; repo = record { dir = codes "d" } };
  running = record { index_counter = 0; machine = (branch_a, id_before) ∷ [] };
}

abbrev swap_run : Result Bool × Local refs_machine
swap_run = (local refs_machine).cas_ref branch_a id_after (some id_before) a_local

swap_runs : swap_run.0 ≡ ok true
unfolding on_repo Gitrepo.cas_ref git base_command output ◌>>=◌ continue lift swapped old_or_zero
    eqb is_whitespace get insert lessb
swap_runs = refl

branch_a-IsBranch : IsBranch branch_a
unfolding eqb
branch_a-IsBranch = refl

id_after-IsId : IsId id_after
unfolding eqb
id_after-IsId = (refl, refl, not_eqb id_after zero_oid refl)

id_before-Expected : Expected (some id_before)
unfolding eqb
id_before-Expected v e =
    let is : id_before ≡ v = cc in rw⁻¹ is (refl, refl, not_eqb id_before zero_oid refl)

cas_ref-Swapped_example :
    LocalPlain Plain ref swap_run.1
    × Swapped (local_ref Plain ref) branch_a id_after (some id_before) a_local swap_run.1 true
cas_ref-Swapped_example =
    cas_ref-Swapped Plain ref refs_machine-KeepsRefs branch_a id_after (some id_before) a_local
      swap_run.1 true tt branch_a-IsBranch id_after-IsId id_before-Expected
      (λ i. (swap_runs i, swap_run.1))

abbrev read_run : Result (Option Text) × Local refs_machine
read_run = (local refs_machine).read_ref branch_a swap_run.1

read_runs : read_run.0 ≡ ok (some id_after)
unfolding on_repo Gitrepo.read_ref Gitrepo.cas_ref git base_command output ◌>>=◌ continue lift
    found_ref swapped old_or_zero trimmed eqb is_whitespace get insert lessb from_utf8 utf8_rest
    first_byte trim trim_start
read_runs = refl

read_ref-cas_ref_example :
    (some id_after ≡ some id_after) × SameRefs (local_ref Plain ref) swap_run.1 read_run.1
read_ref-cas_ref_example =
    read_ref-cas_ref Plain ref refs_machine-KeepsRefs branch_a id_after (some id_before) a_local
      swap_run.1 read_run.1 true (some id_after) tt branch_a-IsBranch id_after-IsId
      id_before-Expected (λ i. (swap_runs i, swap_run.1)) (λ i. (read_runs i, read_run.1))
