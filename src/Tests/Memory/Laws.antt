-- ===== src/Tests/Memory/Laws.antt =====
-- The repository in memory behaves as the engine relies on.
use git_storage.Prelude.{
  ◌≡◌, ◌≢◌, refl, ap, sym, ◌∙◌, ◌⊎◌, Bool, true, false, Option, none, some, List, [], ◌∷◌, ◌++◌,
  length, get_elem?-snoc, get_elem?-lt, get_elem?-middle, arith, Bool-cases, Option-cases, inl, inr,
}
use mathlib.Core.Path.{subst}
use git_storage.Prelude.Text.{Bytes, Text, eqb, eqb_iff}
use git_storage.Prelude.Result.{ok, err, git_failed}
use git_storage.Map.{get}
use git_storage.Map.Order.{text_ord}
use git_storage.Map.Laws.{get-insert, get-remove}
use git_storage.Backend.Laws.{DeletesOne, Grows, Quiet, Quiet-refl, IsGit, AllThere, older, parents}
use git_storage.Tests.Memory.{
  memory, Object, blob_object, tree_object, commit_object, Memory, lookup, as_blob, as_tree,
  is_commit, all_commits, as_history, content, entry, as_file, append, found, same_tip, same_tip-eq,
  cas, commit_on, past, at_rev, views,
}

lookup-snoc :
    (os : List Object) (x y : Object) (o : Text)
    → lookup os o ≡ some y
    → lookup (os ++ x ∷ []) o ≡ some y
lookup-snoc os x y [] h = cc
lookup-snoc os x y (i ∷ []) h = ground (arith, get_elem?-snoc os x i, get_elem?-lt os i h)
lookup-snoc os x y (i ∷ j ∷ o) h = cc

lookup_cases :
    (os : List Object) (x : Object) (o : Text)
    → (lookup os o ≡ none) ⊎ (lookup (os ++ x ∷ []) o ≡ lookup os o)
lookup_cases os x o = elim (Option-cases (lookup os o)) [
  | inl e ↦ inl e
  | inr (y, e) ↦ inr (lookup-snoc os x y o e ∙ sym e)
]

module _ (os : List Object) (x : Object) where
  abbrev more : List Object
  more = os ++ x ∷ []

  blob_grows :
      (o : Text) (b : Bytes) → as_blob (lookup os o) ≡ some b → as_blob (lookup more o) ≡ some b
  blob_grows o b h = elim (lookup_cases os x o) [
    | inl e ↦ absurd (let g = rw e at h in cc)
    | inr e ↦ rw e h
  ]

  tree_grows :
      (o : Text) (es : List (Text × Text))
      → as_tree (lookup os o) ≡ some es
      → as_tree (lookup more o) ≡ some es
  tree_grows o es h = elim (lookup_cases os x o) [
    | inl e ↦ absurd (let g = rw e at h in cc)
    | inr e ↦ rw e h
  ]

  commit_grows : (o : Text) → is_commit (lookup os o) ≡ true → is_commit (lookup more o) ≡ true
  commit_grows o h = elim (lookup_cases os x o) [
    | inl e ↦ absurd (let g = rw e at h in cc)
    | inr e ↦ rw e h
  ]

  all_commits_grow : (cs : List Text) → all_commits os cs ≡ true → all_commits more cs ≡ true
  all_commits_grow [] h = refl
  all_commits_grow (c ∷ cs) h =
      let one : is_commit (lookup os c) ≡ true = ground arith in
      let rest : all_commits os cs ≡ true = ground arith in
      rw (commit_grows c one, all_commits_grow cs rest) refl

  as_history_grows :
      (v : Option Object) (l : List Text) → as_history os v ≡ some l → as_history more v ≡ some l
  as_history_grows none l h = cc
  as_history_grows (some (blob_object b)) l h = cc
  as_history_grows (some (tree_object es)) l h = cc
  as_history_grows (some (commit_object t k)) l h = elim (Bool-cases (all_commits os k)) [
    | inl e ↦ rw (all_commits_grow k e) (rw e at h)
    | inr e ↦ absurd (let g = rw e at h in cc)
  ]

  history_grows :
      (o : Text) (l : List Text)
      → as_history os (lookup os o) ≡ some l
      → as_history more (lookup more o) ≡ some l
  history_grows o l h = elim (lookup_cases os x o) [
    | inl e ↦ absurd (let g = rw e at h in cc)
    | inr e ↦ rw e (as_history_grows (lookup os o) l h)
  ]

  content_grows : (o : Option Text) (b : Bytes) → content os o ≡ some b → content more o ≡ some b
  content_grows none b h = cc
  content_grows (some o) b h = blob_grows o b h

  entry_grows :
      (o : Text) (p : Text) (b : Bytes)
      → entry os (as_tree (lookup os o)) p ≡ some b
      → entry more (as_tree (lookup more o)) p ≡ some b
  entry_grows o p b h = elim (Option-cases (as_tree (lookup os o))) [
    | inl e ↦ absurd (let g = rw e at h in cc)
    | inr (es, e) ↦ rw (tree_grows o es e) (content_grows (get p es) b (rw e at h))
  ]

  as_file_grows :
      (v : Option Object) (p : Text) (b : Bytes)
      → as_file os v p ≡ some b
      → as_file more v p ≡ some b
  as_file_grows none p b h = cc
  as_file_grows (some (blob_object _)) p b h = cc
  as_file_grows (some (tree_object _)) p b h = cc
  as_file_grows (some (commit_object t l)) p b h = entry_grows t p b h

  file_grows :
      (o p : Text) (b : Bytes)
      → as_file os (lookup os o) p ≡ some b
      → as_file more (lookup more o) p ≡ some b
  file_grows o p b h = elim (lookup_cases os x o) [
    | inl e ↦ absurd (let g = rw e at h in cc)
    | inr e ↦ rw e (as_file_grows (lookup os o) p b h)
  ]

append-Grows : (x : Object) (r : Memory) → Quiet views r (append x r).1
append-Grows x r = record {
  grows = record {
    blobs = blob_grows r.objects x;
    trees = tree_grows r.objects x;
    commits = commit_grows r.objects x;
    histories = history_grows r.objects x;
    files = file_grows r.objects x;
    plain = λ p n c h. commit_grows r.objects x c (p n c h);
  };
  refs = λ n. refl;
}

-- A call that appended an object put it under the identity that it returns.
append-ok :
    (x : Object) (r s : Memory) (o : Text)
    → append x r ≡ (ok o, s)
    → Quiet views r s × (lookup s.objects o ≡ some x) × (o ≡ length r.objects ∷ [])
append-ok x r s o h =
    let same : (append x r).1 ≡ s = λ i. (h i).1 in
    let is : ok (length r.objects ∷ []) ≡ ok o = λ i. (h i).0 in
    let o_is : o ≡ length r.objects ∷ [] = cc in
    let quiet : Quiet views r s = subst (λ v. Quiet views r v) same (append-Grows x r) in
    let there : lookup s.objects o ≡ some x = rw o_is (
      subst (λ v. lookup v.objects (length r.objects ∷ []) ≡ some x) same
        (get_elem?-middle r.objects x [])) in
    (quiet, there, o_is)

found-ok {ℓ} :
    {A : Type ℓ} (v : Option A) (r s : Memory) (a : A)
    → found v r ≡ (ok a, s)
    → (v ≡ some a) × (r ≡ s)
found-ok none r s a h = absurd (let e : err git_failed ≡ ok a = λ i. (h i).0 in cc)
found-ok (some b) r s a h =
    let e : ok b ≡ ok a = λ i. (h i).0 in let same : b ≡ a = cc in (ap some same, λ i. (h i).1)

same-Quiet : (r s : Memory) → r ≡ s → Quiet views r s
same-Quiet r s e = subst (λ v. Quiet views r v) e (Quiet-refl views r)

listed_commits : (r : Memory) (l : List Text) → all_commits r.objects l ≡ true → AllThere views r l
listed_commits r [] h = tt
listed_commits r (c ∷ cs) h = (ground arith, listed_commits r cs (ground arith))

history-commits :
    (r : Memory) (v : Option Object) (l : List Text)
    → as_history r.objects v ≡ some l
    → all_commits r.objects l ≡ true
history-commits r none l h = cc
history-commits r (some (blob_object _)) l h = cc
history-commits r (some (tree_object _)) l h = cc
history-commits r (some (commit_object t k)) l h = elim (Bool-cases (all_commits r.objects k)) [
  | inl e ↦ let g = rw e at h in let same : k ≡ l = cc in rw same at e
  | inr e ↦ absurd (let g = rw e at h in cc)
]

pub past-older : (r : Memory) (tip : Option Text) → past r (parents tip) ≡ older views r tip
past-older r none = refl
past-older r (some p) = refl

past_good :
    (r : Memory) (tip : Option Text) (l : List Text)
    → past r (parents tip) ≡ some l
    → all_commits r.objects l ≡ true
past_good r none l h = let e : [] ≡ l = cc in rw⁻¹ e refl
past_good r (some p) l h = history-commits r (lookup r.objects p) l h

-- A commit on a history that is there.
commit_on-ok :
    (t : Text) (r s : Memory) (before : Option (List Text)) (c : Text)
    → ((l : List Text) → before ≡ some l → all_commits r.objects l ≡ true)
    → commit_on t r before ≡ (ok c, s)
    → Quiet views r s
      × ((l : List Text) → before ≡ some l → views.history s c ≡ some (c ∷ l))
      × ((p : Text) → views.file s c p ≡ entry s.objects (as_tree (lookup s.objects t)) p)
commit_on-ok t r s none c good h = absurd (let e : err git_failed ≡ ok c = λ i. (h i).0 in cc)
commit_on-ok t r s (some k) c good h =
    let x = commit_object t ((length r.objects ∷ []) ∷ k) in
    let (quiet, there, is) = append-ok x r s c h in
    let all : all_commits s.objects k ≡ true =
      subst (λ v. all_commits v.objects k ≡ true) (λ i. (h i).1)
        (all_commits_grow r.objects x k (good k refl)) in
    let me : is_commit (lookup s.objects (length r.objects ∷ [])) ≡ true =
      rw is at (ap is_commit there) in
    (
      quiet,
      λ l e. let same : k ≡ l = cc in rw (there, me, all) (λ i. some (sym is i ∷ same i)),
      λ p. rw there refl,
    )

cas-plain :
    (n new : Text) (r : Memory)
    → views.is_commit r new ≡ true
    → views.IsPlain r
    → views.IsPlain (cas n new r true).1
cas-plain n new r there p k c h = elim (Bool-cases (eqb n k)) [
  | inl same ↦
      let g = rw (get-insert n k new r.refs, same) at h in let e : new ≡ c = cc in rw⁻¹ e there
  | inr apart ↦ p k c (rw (get-insert n k new r.refs, apart) at h)
]

cas-won :
    (n new : Text) (old : Option Text) (r s : Memory) (b : Bool)
    → views.is_commit r new ≡ true
    → same_tip (get n r.refs) old ≡ b
    → cas n new r b ≡ (ok true, s)
    → Grows views r s
      × (views.ref r n ≡ old)
      × (views.ref s n ≡ some new)
      × ((k : Text) → k ≢ n → views.ref s k ≡ views.ref r k)
cas-won n new old r s false there e h = absurd (let e : ok false ≡ ok true = λ i. (h i).0 in cc)
cas-won n new old r s true there e h =
    let same : (cas n new r true).1 ≡ s = λ i. (h i).1 in
    subst
      (λ v.
        Grows views r v
        × (views.ref r n ≡ old)
        × (views.ref v n ≡ some new)
        × ((k : Text) → k ≢ n → views.ref v k ≡ views.ref r k))
      same
      (
        record {
          blobs = λ o b g. g;
          trees = λ o es g. g;
          commits = λ o g. g;
          histories = λ o l g. g;
          files = λ o p b g. g;
          plain = cas-plain n new r there;
        },
        same_tip-eq _ old e,
        ground (arith, get-insert n n new r.refs, eqb_iff n n),
        λ k apart. ground (arith, get-insert n k new r.refs, eqb_iff n k),
      )

cas-lost :
    (n new : Text) (r s : Memory) (b : Bool) → cas n new r b ≡ (ok false, s) → Quiet views r s
cas-lost n new r s true h = absurd (let e : ok true ≡ ok false = λ i. (h i).0 in cc)
cas-lost n new r s false h = same-Quiet r s (λ i. (h i).1)

read_at :
    (r : Memory) (c p : Text) (b : Bytes) (is : Bool)
    → is_commit (lookup r.objects c) ≡ is
    → is_commit (lookup r.objects c) ≡ true
    → at_rev r c p is ≡ some b
    → views.file r c p ≡ some b
read_at r c p b true e known h = h
read_at r c p b false e known h = absurd (cc (e, known))

pub memory-IsGit : IsGit views
memory-IsGit = record {
  listed = λ r c l h. listed_commits r l (history-commits r (lookup r.objects c) l h);
  write_blob-ok = λ b r s o h.
      let (quiet, there, _) = append-ok (blob_object b) r s o h in (quiet, ap as_blob there);
  heads = λ n c r plain branch h. plain n c h;
  write_tree-ok = λ p o b r s t name at_blob h.
      let (quiet, there, _) = append-ok (tree_object ((p, o) ∷ [])) r s t h in
      (quiet, ap as_tree there);
  commit_tree-ok = λ t m tip r s c h.
      let before = past-older r tip in
      let (quiet, history, file) =
        commit_on-ok t r s (past r (parents tip)) c (past_good r tip) h in
      (
        quiet,
        λ l e. history l (before ∙ e),
        λ es p o b at_tree at_entry at_blob.
            file p ∙ rw (quiet.grows.trees t es at_tree, at_entry) (quiet.grows.blobs o b at_blob),
      );
  read_ref-ok = λ n r s o plain branch h.
      let e : ok (get n r.refs) ≡ ok o = λ i. (h i).0 in (same-Quiet r s (λ i. (h i).1), cc);
  rev_list-ok = λ c r s l there h.
      let (e, same) = found-ok (as_history r.objects (lookup r.objects c)) r s l h in
      (same-Quiet r s same, e);
  read_blob_at-ok = λ c p r s b known h.
      let (e, same) = found-ok (at_rev r c p (is_commit (lookup r.objects c))) r s b h in
      (same-Quiet r s same, read_at r c p b (is_commit (lookup r.objects c)) refl known e);
  cas_ref-won = λ n new old r s plain branch there known h.
      cas-won n new old r s (same_tip (get n r.refs) old) there refl h;
  cas_ref-lost = λ n new old r s h. cas-lost n new r s (same_tip (get n r.refs) old) h;
}

deleted :
    (n : Text) (r s : Memory) (u : Unit {0})
    → memory.delete_ref n r ≡ (ok u, s)
    → (k : Text) → k ≢ n
    → views.ref s k ≡ views.ref r k
deleted n r s u h k apart =
    subst (λ v. views.ref v k ≡ views.ref r k) (λ i. (h i).1)
      (ground (arith, get-remove n k r.refs, eqb_iff k n))

pub memory-DeletesOne : DeletesOne views
memory-DeletesOne = record {
  list_refs-ok = λ p r s l h k. sym (λ i. views.ref (h i).1 k);
  commit_time-ok = λ n r s t h k. sym (λ i. views.ref (h i).1 k);
  delete_ref-ok = deleted;
}
