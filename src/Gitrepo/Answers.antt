-- ===== src/Gitrepo/Answers.antt =====
-- What src/gitrepo.rs makes of the output of a git command.
use git_storage.Prelude.{
  ℕ, Bool, true, false, ◌||◌, Option, none, some, List, [], ◌∷◌, if◌then◌else◌,
}
use git_storage.Prelude.Text.{Bytes, Text, codes}
use git_storage.Prelude.Int.{ℤ}
use git_storage.Prelude.Str.{trim, contains, split_once, parse_usize, parse_i64}
use git_storage.Prelude.Utf8.{from_utf8}
use git_storage.Prelude.Words.{lines, split_whitespace}
use git_storage.Prelude.Result.{Result, ok, err, ok_or, ◌>>=◌, git_failed, bad_timestamp}
use git_storage.Process.{Output}

-- What a command that succeeded wrote.
unfoldable pub checked : Output → Result Bytes
checked out = if out.success then ok out.stdout else err git_failed

-- `String::from_utf8(out)?.trim()`
unfoldable pub trimmed : Bytes → Result Text
unfolding from_utf8 trim
trimmed out = from_utf8 out >>= λ s. ok (trim s)

abbrev keep {ℓ} : {C : Type ℓ} → Option C → List C → List C
keep none rest = rest
keep (some y) rest = y ∷ rest

-- The lines of an output, each read by a function that may skip it.
unfoldable pub filter_map {ℓ κ} : {A : Type ℓ} {C : Type κ} → (A → Option C) → List A → List C
filter_map f [] = []
filter_map f (x ∷ xs) = keep (f x) (filter_map f xs)

unfoldable pub read_lines {ℓ} : {A : Type ℓ} → (Text → Option A) → Bytes → Result (List A)
unfolding from_utf8 lines filter_map
read_lines f out = from_utf8 out >>= λ s. ok (filter_map f (lines s))

-- A line of `rev-list`.
unfoldable pub rev_line : Text → Option Text
unfolding trim
rev_line l = elim (trim l) [ [] ↦ none | c ∷ s ↦ some (c ∷ s) ]

abbrev first_two : List Text → Option (Text × Text)
first_two [] = none
first_two (a ∷ []) = none
first_two (a ∷ b ∷ rest) = some (a, b)

-- The first two words of a line.
unfoldable pub two_words : Text → Option (Text × Text)
unfolding split_whitespace
two_words l = first_two (split_whitespace l)

abbrev with_size : Text → Option ℕ → Option (Text × ℕ)
with_size path none = none
with_size path (some n) = some (path, n)

abbrev sized : Option (Text × Text) → Option (Text × ℕ)
sized none = none
sized (some (size, path)) = with_size path (parse_usize size)

-- A size, one space, and a path.
unfoldable pub size_line : Text → Option (Text × ℕ)
unfolding split_once parse_usize
size_line l = sized (split_once b' ' l)

unfoldable pub timestamp : Bytes → Result ℤ
unfolding trimmed parse_i64
timestamp out = trimmed out >>= λ s. ok_or (parse_i64 s) bad_timestamp

-- Whether `update-ref` reports that the value differs.
unfoldable pub moved_ref : Text → Bool
unfolding contains
moved_ref stderr =
    contains stderr (codes "but expected")
    || contains stderr (codes "cannot lock ref")
    || contains stderr (codes "reference already exists")

unfoldable pub swapped : Output → Result Bool
unfolding moved_ref
swapped out =
    if out.success then ok true else if moved_ref out.stderr then ok false else err git_failed

-- The value of a ref, where `rev-parse` finds one.
unfoldable pub found_ref : Output → Result (Option Text)
unfolding trimmed
found_ref out = if out.success then (trimmed out.stdout >>= λ oid. ok (some oid)) else ok none
