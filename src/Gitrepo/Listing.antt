-- ===== src/Gitrepo/Listing.antt =====
-- What git prints, line by line, is what the listings of src/gitrepo.rs return.
use git_storage.Prelude.{
  ℕ, ◌<◌, ◌^◌, ◌≡◌, refl, false, Option, some, List, [], ◌∷◌, ◌++◌, arith, ◌==◌,
}
use git_storage.Prelude.Text.{Text}
use git_storage.Prelude.Str.{is_whitespace, split_once}
use git_storage.Prelude.Utf8.{IsAscii, from_utf8_ascii}
use git_storage.Prelude.Words.{lines}
use git_storage.Prelude.Spaces.{
  NoSpace, Unbroken, NoSpace-Unbroken, Unbroken-append, lines_cons, split_whitespace_word,
  split_whitespace_cons,
}
use git_storage.Prelude.Decimal.{decimal, NoSpace-decimal, parse_usize-decimal}
use git_storage.Prelude.Result.{ok}
use git_storage.Gitrepo.Answers.{filter_map, read_lines, two_words, size_line}

-- A word: some characters, none of them white space.
abbrev pub Word : Text → Type 0
Word [] = ⊥
Word (c ∷ s) = NoSpace (c ∷ s)

module _ {ℓ} {A : Type ℓ} where
  -- Each of some things on a line of its own.
  abbrev pub printed : (A → Text) → List A → Text
  printed line [] = []
  printed line (x ∷ xs) = line x ++ 10 ∷ printed line xs

  -- The lines of some things are unbroken, and read back.
  abbrev pub AreRead : (A → Text) → (Text → Option A) → List A → Type ℓ
  AreRead line f [] = Unit
  AreRead line f (x ∷ xs) = Unbroken (line x) × (f (line x) ≡ some x) × AreRead line f xs

  filter_map-lines :
      (line : A → Text) (f : Text → Option A) (xs : List A)
      → AreRead line f xs
      → filter_map f (lines (printed line xs)) ≡ xs
  unfolding filter_map lines
  filter_map-lines line f [] h = refl
  filter_map-lines line f (x ∷ xs) (u, e, h) =
      rw (lines_cons (line x) (printed line xs) u, e, filter_map-lines line f xs h)

  -- A listing of lines that are read one by one is read as a whole.
  pub read_lines-printed :
      (line : A → Text) (f : Text → Option A) (xs : List A)
      → AreRead line f xs
      → IsAscii (printed line xs)
      → read_lines f (printed line xs) ≡ ok xs
  unfolding read_lines
  read_lines-printed line f xs h a =
      rw (read_lines, from_utf8_ascii (printed line xs) a, filter_map-lines line f xs h)

NoSpace-Word : (w : Text) → Word w → NoSpace w
NoSpace-Word [] h = absurd h
NoSpace-Word (c ∷ s) h = h

-- A line of `for-each-ref`.
abbrev pub ref_line : Text × Text → Text
ref_line (name, oid) = name ++ 32 ∷ oid

abbrev pub AreWords : List (Text × Text) → Type 0
AreWords [] = Unit
AreWords ((name, oid) ∷ rs) = Word name × Word oid × AreWords rs

two_words-ref_line :
    (name oid : Text) → Word name → Word oid → two_words (name ++ 32 ∷ oid) ≡ some (name, oid)
unfolding two_words
two_words-ref_line [] oid h k = absurd h
two_words-ref_line (c ∷ s) [] h k = absurd k
two_words-ref_line (c ∷ s) (d ∷ t) h k =
    rw (split_whitespace_cons c s (d ∷ t) h, split_whitespace_word d t k)

space_Unbroken : (a b : Text) → Unbroken a → Unbroken b → Unbroken (a ++ 32 ∷ b)
space_Unbroken a b h k = Unbroken-append a (32 ∷ b) h (refl, refl, k)

AreWords-AreRead : (rs : List (Text × Text)) → AreWords rs → AreRead ref_line two_words rs
AreWords-AreRead [] h = tt
AreWords-AreRead ((name, oid) ∷ rs) (h, k, hs) = (
  space_Unbroken name oid (NoSpace-Unbroken name (NoSpace-Word name h))
      (NoSpace-Unbroken oid (NoSpace-Word oid k)),
  two_words-ref_line name oid h k,
  AreWords-AreRead rs hs,
)

-- The listing of refs that `for-each-ref` prints, one line with the name and the value of each, is
-- read as those refs, if names and values are words of ASCII text.
pub read_lines-refs :
    (rs : List (Text × Text))
    → AreWords rs
    → IsAscii (printed ref_line rs)
    → read_lines two_words (printed ref_line rs) ≡ ok rs
read_lines-refs rs h a = read_lines-printed ref_line two_words rs (AreWords-AreRead rs h) a

-- A line of `ls-tree`: the path may have spaces in it.
abbrev pub blob_line : Text × ℕ → Text
blob_line (path, size) = decimal size ++ 32 ∷ path

abbrev pub AreSized : List (Text × ℕ) → Type 0
AreSized [] = Unit
AreSized ((path, size) ∷ es) = Unbroken path × (size < 2 ^ 64) × AreSized es

not_space : (c : ℕ) → is_whitespace c ≡ false → (c == 32) ≡ false
unfolding is_whitespace
not_space c h = ground arith

split_once-space : (w s : Text) → NoSpace w → split_once 32 (w ++ 32 ∷ s) ≡ some (w, s)
unfolding split_once
split_once-space [] s h = refl
split_once-space (c ∷ w) s h = rw (not_space c h.0, split_once-space w s h.1)

size_line-blob_line :
    (path : Text) (size : ℕ)
    → size < 2 ^ 64
    → size_line (decimal size ++ 32 ∷ path) ≡ some (path, size)
unfolding size_line
size_line-blob_line path size h =
    rw (split_once-space (decimal size) path (NoSpace-decimal size), parse_usize-decimal size h)

AreSized-AreRead : (es : List (Text × ℕ)) → AreSized es → AreRead blob_line size_line es
AreSized-AreRead [] h = tt
AreSized-AreRead ((path, size) ∷ es) (h, k, hs) = (
  space_Unbroken (decimal size) path (NoSpace-Unbroken (decimal size) (NoSpace-decimal size)) h,
  size_line-blob_line path size k,
  AreSized-AreRead es hs,
)

-- The listing of a tree that `ls-tree` prints, one line with the decimal size and the path of each
-- blob, is read as those paths and sizes, if paths have no line break and sizes fit in 64 bits.
pub read_lines-sizes :
    (es : List (Text × ℕ))
    → AreSized es
    → IsAscii (printed blob_line es)
    → read_lines size_line (printed blob_line es) ≡ ok es
read_lines-sizes es h a = read_lines-printed blob_line size_line es (AreSized-AreRead es h) a
