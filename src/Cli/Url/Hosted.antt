-- ===== src/Cli/Url/Hosted.antt =====
-- `owner_name_from_url` (src/main.rs) on the URLs of hosted repositories.
use git_storage.Prelude.{
  ℕ, zero, suc, ◌+◌, ◌≡◌, ◌≢◌, refl, sym, ap, ◌∙◌, false, none, some, [], ◌∷◌, ◌++◌, length,
  length-append, ◌==◌, arith,
}
use mathlib.Core.List.{reverse, reverse-append, reverse-reverse, append_assoc}
use git_storage.Prelude.Text.{Text, codes}
use git_storage.Prelude.Str.{rsplit_once, strip_prefix}
use git_storage.Backend.Provision.{trim_end_char, drop_leading}
use git_storage.Cli.Url.{
  split_text, after_scheme, strip_all, trim_end_text, trim_path, owner_name, in_path, in_rest,
  second, owner_name_from_url,
}
use git_storage.Cli.Url.Parsed.{Lacks, split_once-first, rsplit_once-none, rsplit_once-last}

-- A component of a path: no slash, no colon.
abbrev pub Component : Text → Type 0
Component s = Lacks b'/' s × Lacks b':' s

Lacks-append : (c : ℕ) (s t : Text) → Lacks c s → Lacks c t → Lacks c (s ++ t)
Lacks-append c [] t h k = k
Lacks-append c (x ∷ s) t h k = (h.0, Lacks-append c s t h.1 k)

Lacks-reverse : (c : ℕ) (s : Text) → Lacks c s → Lacks c (reverse s)
Lacks-reverse c [] h = tt
Lacks-reverse c (x ∷ s) h =
    rw (reverse-append (x ∷ []) s)
      (Lacks-append c (reverse s) (x ∷ []) (Lacks-reverse c s h.1) (h.0, tt))

strip_prefix-colon : (s : Text) → Lacks b':' s → strip_prefix s (codes "://") ≡ none
unfolding strip_prefix
strip_prefix-colon [] h = refl
strip_prefix-colon (x ∷ s) h = rw h.0

split_text-colon : (s : Text) → Lacks b':' s → split_text s (codes "://") ≡ none
unfolding split_text
split_text-colon [] h = refl
split_text-colon (x ∷ s) h = rw (split_text, split_text-colon s h.1, strip_prefix-colon (x ∷ s) h)

after_scheme-https :
    (rest : Text) → Lacks b':' rest → after_scheme (codes "https://" ++ rest) ≡ some rest
unfolding after_scheme split_text strip_prefix
after_scheme-https rest h = rw (split_text-colon rest h)

drop_leading-kept : (c x : ℕ) (s : Text) → (x == c) ≡ false → drop_leading c (x ∷ s) ≡ x ∷ s
unfolding drop_leading
drop_leading-kept c x s h = rw h

-- A text that does not end in the character.
trim_end_char-kept :
    (c x : ℕ) (p t : Text) → reverse p ≡ x ∷ t → (x == c) ≡ false → trim_end_char c p ≡ p
unfolding trim_end_char
trim_end_char-kept c x p t e h =
    rw (e, drop_leading-kept c x t h) (ap reverse (sym e) ∙ reverse-reverse p)

-- A text that does not end in another.
abbrev pub Unended : Text → Text → Type 0
Unended pattern s = strip_prefix (reverse s) (reverse pattern) ≡ none

abbrev dot_git : Text
dot_git = codes ".git"

strip_all-kept :
    (n : ℕ) (pattern s : Text) → strip_prefix s pattern ≡ none → strip_all n pattern s ≡ s
unfolding strip_all
strip_all-kept zero pattern s h = refl
strip_all-kept (suc n) pattern s h = rw h

trim_end_text-kept : (pattern p : Text) → Unended pattern p → trim_end_text pattern p ≡ p
unfolding trim_end_text
trim_end_text-kept pattern p h =
    rw (strip_all-kept (length p) (reverse pattern) (reverse p) h) (reverse-reverse p)

strip_all-dot_git :
    (n : ℕ) (s : Text)
    → strip_prefix s (reverse dot_git) ≡ none
    → strip_all (suc n) (reverse dot_git) (reverse dot_git ++ s) ≡ s
unfolding strip_all strip_prefix
strip_all-dot_git n s h = strip_all-kept n (reverse dot_git) s h

trim_end_text-dot_git : (p : Text) → Unended dot_git p → trim_end_text dot_git (p ++ dot_git) ≡ p
unfolding trim_end_text
trim_end_text-dot_git p h =
    let n : length (p ++ dot_git) ≡ suc (length p + 3) = omega (arith, length-append p dot_git) in
    rw (reverse-append p dot_git, n, strip_all-dot_git (length p + 3) (reverse p) h)
      (reverse-reverse p)

strip_prefix-slash :
    (s pattern t : Text)
    → Lacks b'/' pattern
    → strip_prefix s pattern ≡ none
    → strip_prefix (s ++ b'/' ∷ t) pattern ≡ none
unfolding strip_prefix
strip_prefix-slash [] [] t h k = absurd (cc)
strip_prefix-slash [] (y ∷ ys) t h k = ground arith
strip_prefix-slash (x ∷ s) [] t h k = absurd (cc)
strip_prefix-slash (x ∷ s) (y ∷ ys) t h k = ground (arith, strip_prefix-slash s ys t)

reverse-path :
    (owner name : Text) → reverse (owner ++ b'/' ∷ name) ≡ reverse name ++ b'/' ∷ reverse owner
reverse-path owner name =
    reverse-append owner (b'/' ∷ name)
    ∙ ap (λ r. r ++ reverse owner) (reverse-append (b'/' ∷ []) name)
    ∙ append_assoc (reverse name) (b'/' ∷ []) (reverse owner)

-- The path of a repository, whose name is not empty and does not end in ".git".
module _ (owner name : Text) (k : Lacks b'/' name) (n : name ≢ [])
    (bare : Unended dot_git name) where
  slash_free : (r : Text) → reverse name ≡ r → Lacks b'/' r
  slash_free r e = rw⁻¹ e (Lacks-reverse b'/' name k)

  trim_from :
      (r : Text)
      → reverse name ≡ r
      → trim_end_char b'/' (owner ++ b'/' ∷ name) ≡ owner ++ b'/' ∷ name
  trim_from [] e = absurd (n (sym (reverse-reverse name) ∙ ap reverse e))
  trim_from (x ∷ t) e =
      trim_end_char-kept b'/' x (owner ++ b'/' ∷ name) (t ++ b'/' ∷ reverse owner)
        (reverse-path owner name ∙ ap (λ r. r ++ b'/' ∷ reverse owner) e) (slash_free (x ∷ t) e).0

  trim_char : trim_end_char b'/' (owner ++ b'/' ∷ name) ≡ owner ++ b'/' ∷ name
  trim_char = trim_from (reverse name) refl

  unended : Unended dot_git (owner ++ b'/' ∷ name)
  unended = rw (reverse-path owner name) (
      strip_prefix-slash (reverse name) (reverse dot_git) (reverse owner)
        (refl, (refl, (refl, (refl, tt)))) bare)

  trim_path-bare : trim_path (owner ++ b'/' ∷ name) ≡ owner ++ b'/' ∷ name
  unfolding trim_path
  trim_path-bare = rw trim_char (trim_end_text-kept dot_git (owner ++ b'/' ∷ name) unended)

  trim_path-dot_git : trim_path ((owner ++ b'/' ∷ name) ++ dot_git) ≡ owner ++ b'/' ∷ name
  unfolding trim_path
  trim_path-dot_git =
      let p = owner ++ b'/' ∷ name in
      rw
        (trim_end_char-kept b'/' b't' (p ++ dot_git) (codes "ig." ++ reverse p)
          (reverse-append p dot_git) refl)
        (trim_end_text-dot_git p unended)

-- The owner and the name, in a path.
in_path-parts :
    (owner name : Text)
    → Lacks b'/' owner
    → Lacks b'/' name
    → owner_name (rsplit_once b'/' (owner ++ b'/' ∷ name)) ≡ some (owner, name)
in_path-parts owner name h k =
    rw (rsplit_once-last b'/' owner name k, rsplit_once-none b'/' owner h)

owner_name-of :
    (host path owner name : Text)
    → Lacks b'/' host
    → Lacks b':' host
    → Lacks b':' path
    → Lacks b'/' owner
    → Lacks b'/' name
    → trim_path path ≡ owner ++ b'/' ∷ name
    → owner_name_from_url (codes "https://" ++ host ++ b'/' ∷ path) ≡ some (owner, name)
unfolding owner_name_from_url
owner_name-of host path owner name h hc pc o k e =
    ap in_rest (
      after_scheme-https (host ++ b'/' ∷ path) (Lacks-append b':' host (b'/' ∷ path) hc (refl, pc)))
    ∙ ap (λ r. in_path (second r)) (split_once-first b'/' host path h)
    ∙ ap (λ r. owner_name (rsplit_once b'/' r)) e
    ∙ in_path-parts owner name o k

-- From the URL of a repository on a host, over HTTPS, the owner and the name are read, whether or
-- not ".git" follows; host, owner and name have no slash and no colon, and the name is not empty
-- and does not itself end in ".git".
pub owner_name_from_url-hosted :
    (host owner name : Text)
    → Component host
    → Component owner
    → Component name
    → name ≢ []
    → Unended (codes ".git") name
    → let path = owner ++ b'/' ∷ name in
      (owner_name_from_url (codes "https://" ++ host ++ b'/' ∷ path) ≡ some (owner, name))
      × (owner_name_from_url (codes "https://" ++ host ++ b'/' ∷ (path ++ codes ".git"))
          ≡ some (owner, name))
owner_name_from_url-hosted host owner name h o k n bare =
    let path = owner ++ b'/' ∷ name in
    let colon_free : Lacks b':' path = Lacks-append b':' owner (b'/' ∷ name) o.1 (refl, k.1) in
    (
      owner_name-of host path owner name h.0 h.1 colon_free o.0 k.0
          (trim_path-bare owner name k.0 n bare),
      owner_name-of host (path ++ codes ".git") owner name h.0 h.1
          (Lacks-append b':' path (codes ".git") colon_free (refl, (refl, (refl, (refl, tt))))) o.0
          k.0 (trim_path-dot_git owner name k.0 n bare),
    )
