-- ===== src/Backend/Remote/Answers.antt =====
-- What `RemoteBackend` (src/backend.rs) makes of the output of `ls-remote` and `push`.
use git_storage.Prelude.{Bool, true, false, ◌||◌, Option, none, some, List, [], ◌∷◌, if◌then◌else◌}
use git_storage.Prelude.Text.{Text, codes}
use git_storage.Prelude.Str.{contains}
use git_storage.Prelude.Words.{lines, split_whitespace}
use git_storage.Prelude.Utf8.{from_utf8}
use git_storage.Prelude.Result.{Result, ok, err, ◌>>=◌, git_failed}
use git_storage.Process.{Output}
use git_storage.Gitrepo.Answers.{two_words, read_lines, checked}

-- Whether a push that failed is taken for a lost race.
unfoldable pub lost_push : Text → Bool
unfolding contains
lost_push stderr =
    contains stderr (codes "stale info")
    || contains stderr (codes "[rejected]")
    || contains stderr (codes "failed to push")
    || contains stderr (codes "fetch first")
    || contains stderr (codes "non-fast-forward")

-- The first word of the first line of `ls-remote`.
abbrev head_of : List Text → Option Text
head_of [] = none
head_of (x ∷ xs) = some x

abbrev first_word : List Text → Option Text
first_word [] = none
first_word (l ∷ ls) = head_of (split_whitespace l)

unfoldable pub remote_ref : Output → Result (Option Text)
unfolding checked from_utf8 lines
remote_ref out = checked out >>= λ stdout. from_utf8 stdout >>= λ s. ok (first_word (lines s))

-- A line of `ls-remote` has the value first.
abbrev swapped_words : Option (Text × Text) → Option (Text × Text)
swapped_words none = none
swapped_words (some (oid, name)) = some (name, oid)

unfoldable pub remote_line : Text → Option (Text × Text)
unfolding two_words
remote_line l = swapped_words (two_words l)

unfoldable pub remote_refs : Output → Result (List (Text × Text))
unfolding checked read_lines remote_line
remote_refs out = checked out >>= read_lines remote_line

-- What a push with a lease says of the compare-and-swap.
unfoldable pub pushed : Output → Result Bool
unfolding lost_push
pushed out =
    if out.success then ok true else if lost_push out.stderr then ok false else err git_failed
