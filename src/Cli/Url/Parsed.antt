-- ===== src/Cli/Url/Parsed.antt =====
-- What `parse_volume_arg` and `owner_name_from_url` (src/main.rs) read back.
use git_storage.Prelude.{
  ℕ, ◌≡◌, ◌≢◌, refl, sym, ap, inl, inr, ◌↔◌, false, Option, none, some, [], ◌∷◌, ◌++◌, ◌==◌, arith,
  Bool-cases, Option-cases,
}
use git_storage.Prelude.Text.{Text}
use git_storage.Prelude.Str.{split_once, rsplit_once}
use git_storage.Prelude.Result.{Result, ok, err}
use git_storage.Cli.Url.{parse_volume_arg, both_parts}

-- A character that does not stand in a text.
abbrev pub Lacks : ℕ → Text → Type 0
Lacks c [] = Unit
Lacks c (x ∷ s) = ((x == c) ≡ false) × Lacks c s

pub split_once-first : (c : ℕ) (a b : Text) → Lacks c a → split_once c (a ++ c ∷ b) ≡ some (a, b)
unfolding split_once
split_once-first c [] b h = ground arith
split_once-first c (x ∷ a) b h = rw (h.0, split_once-first c a b h.1)

abbrev first_of : Option (Text × Text) → Text
first_of none = []
first_of (some (a, b)) = a

abbrev second_of : Option (Text × Text) → Text
second_of none = []
second_of (some (a, b)) = b

none-some : {A : Type 0} {x : A} → none ≡ some x → ⊥
none-some h = cc

-- An argument is parsed to the parts that it is made of.
pub split_once-parts :
    (c : ℕ) (s a b : Text) → split_once c s ≡ some (a, b) → (s ≡ a ++ c ∷ b) × Lacks c a
unfolding split_once
split_once-parts c [] a b h = cc
split_once-parts c (x ∷ s) a b h = elim (Bool-cases (x == c)) [
  | inl e ↦
      let k : some ([], s) ≡ some (a, b) = rw e at h in
      let left : a ≡ [] = sym (ap first_of k) in
      let right : b ≡ s = sym (ap second_of k) in
      let same : x ≡ c = ground arith in rw (left, right, same) (refl, tt)
  | inr e ↦ elim (Option-cases (split_once c s)) [
    | inl n ↦ absurd (none-some (rw (e, n) at h))
    | inr ((u, v), q) ↦
        let k : some (x ∷ u, v) ≡ some (a, b) = rw (e, q) at h in
        let left : a ≡ x ∷ u = sym (ap first_of k) in
        let right : b ≡ v = sym (ap second_of k) in
        let (parts, lacks) = split_once-parts c s u v q in
        rw (left, right) (ap (◌∷◌ x) parts, (e, lacks))
  ]
]

pub rsplit_once-none : (c : ℕ) (s : Text) → Lacks c s → rsplit_once c s ≡ none
unfolding rsplit_once
rsplit_once-none c [] h = refl
rsplit_once-none c (x ∷ s) h = rw (rsplit_once, rsplit_once-none c s h.1, h.0)

pub rsplit_once-last : (c : ℕ) (a b : Text) → Lacks c b → rsplit_once c (a ++ c ∷ b) ≡ some (a, b)
unfolding rsplit_once
rsplit_once-last c [] b h = rw (rsplit_once, rsplit_once-none c b h) (ground arith)
rsplit_once-last c (x ∷ a) b h = rw (rsplit_once, rsplit_once-last c a b h)

abbrev parts_of : Result (Text × Text) → Option (Text × Text)
parts_of (ok p) = some p
parts_of (err e) = none

both_parts-ok :
    (o : Option (Text × Text)) (id url : Text)
    → both_parts o ≡ ok (id, url)
    → (o ≡ some (id, url)) × (id ≢ []) × (url ≢ [])
both_parts-ok none id url h = cc
both_parts-ok (some ([], b)) id url h = cc
both_parts-ok (some (x ∷ a, [])) id url h = cc
both_parts-ok (some (x ∷ a, y ∷ b)) id url h =
    let same : some (x ∷ a, y ∷ b) ≡ some (id, url) = ap parts_of h in
    let left : x ∷ a ≡ id = ap first_of same in
    let right : y ∷ b ≡ url = ap second_of same in (same, rw⁻¹ left (λ e. cc), rw⁻¹ right (λ e. cc))

both_parts-some : (id url : Text) → id ≢ [] → url ≢ [] → both_parts (some (id, url)) ≡ ok (id, url)
both_parts-some [] url h k = absurd (h refl)
both_parts-some (x ∷ id) [] h k = absurd (k refl)
both_parts-some (x ∷ id) (y ∷ url) h k = refl

parse-parts :
    (s id url : Text)
    → parse_volume_arg s ≡ ok (id, url)
    → (s ≡ id ++ b'=' ∷ url) × Lacks b'=' id × (id ≢ []) × (url ≢ [])
unfolding parse_volume_arg
parse-parts s id url h =
    let (e, a, b) = both_parts-ok (split_once b'=' s) id url h in
    let (parts, lacks) = split_once-parts b'=' s id url e in (parts, lacks, a, b)

parts-parse :
    (s id url : Text)
    → (s ≡ id ++ b'=' ∷ url) × Lacks b'=' id × (id ≢ []) × (url ≢ [])
    → parse_volume_arg s ≡ ok (id, url)
unfolding parse_volume_arg
parts-parse s id url (e, lacks, a, b) =
    rw (e, split_once-first b'=' id url lacks) (both_parts-some id url a b)

-- An argument of the form ID=URL, where neither part is empty and the first has no equals sign, is
-- parsed to its parts, and no other argument is accepted.
pub parse_volume_arg-parts :
    (s id url : Text)
    → (parse_volume_arg s ≡ ok (id, url))
      ↔ ((s ≡ id ++ b'=' ∷ url) × Lacks b'=' id × (id ≢ []) × (url ≢ []))
parse_volume_arg-parts s id url = (parse-parts s id url, parts-parse s id url)
