-- ===== src/Cli/Url.antt =====
-- The arguments that name volumes and hosted repositories (src/main.rs).
pub mod Parsed
pub mod Hosted
use git_storage.Prelude.{
  ℕ, zero, suc, Bool, true, false, ◌||◌, Option, none, some, List, [], ◌∷◌, ◌++◌, length,
  if◌then◌else◌,
}
use git_storage.Prelude.Text.{Text, codes}
use git_storage.Prelude.Str.{split_once, rsplit_once, strip_prefix}
use git_storage.Prelude.Result.{Result, ok, err, bad_volume_arg}
use git_storage.Backend.Provision.{trim_end_char}
use mathlib.Core.List.{reverse}

abbrev is_empty : Text → Bool
is_empty [] = true
is_empty (_ ∷ _) = false

-- The two parts, both of which must be there.
abbrev both_parts : Option (Text × Text) → Result (Text × Text)
both_parts none = err bad_volume_arg
both_parts (some (id, url)) =
    if is_empty id || is_empty url then err bad_volume_arg else ok (id, url)

unfoldable pub parse_volume_arg : Text → Result (Text × Text)
unfolding split_once
parse_volume_arg s = both_parts (split_once b'=' s)

-- `split_once` at a text: what stands before and after its first place.
abbrev before_first : ℕ → Option (Text × Text) → Option Text → Option (Text × Text)
before_first x later (some rest) = some ([], rest)
before_first x none none = none
before_first x (some (a, b)) none = some (x ∷ a, b)

unfoldable pub split_text : Text → Text → Option (Text × Text)
unfolding strip_prefix
split_text [] pattern = none
split_text (x ∷ xs) pattern = before_first x (split_text xs pattern) (strip_prefix (x ∷ xs) pattern)

abbrev up_to : Text → Option (Text × Text) → Text
up_to s none = s
up_to s (some (a, b)) = a

abbrev second_piece : Option (Text × Text) → Option Text
second_piece none = none
second_piece (some (a, b)) = some (up_to b (split_text b (codes "://")))

-- `url.split("://").nth(1)`
unfoldable pub after_scheme : Text → Option Text
unfolding split_text
after_scheme url = second_piece (split_text url (codes "://"))

abbrev again : (Text → Text) → Text → Option Text → Text
again f s none = s
again f s (some rest) = f rest

-- A prefix, taken away as often as it is there.
unfoldable pub strip_all : ℕ → Text → Text → Text
unfolding strip_prefix
strip_all zero pattern s = s
strip_all (suc rounds) pattern s = again (strip_all rounds pattern) s (strip_prefix s pattern)

-- `trim_end_matches` of a text that is not empty.
unfoldable pub trim_end_text : Text → Text → Text
unfolding strip_all
trim_end_text pattern s = reverse (strip_all (length s) (reverse pattern) (reverse s))

abbrev pub second : Option (Text × Text) → Option Text
second none = none
second (some (a, b)) = some b

-- `rsplit('/').next()`
abbrev last_part : Text → Option (Text × Text) → Text
last_part s none = s
last_part s (some (a, b)) = b

abbrev pub owner_name : Option (Text × Text) → Option (Text × Text)
owner_name none = none
owner_name (some (owner, name)) = some (last_part owner (rsplit_once b'/' owner), name)

unfoldable pub trim_path : Text → Text
unfolding trim_end_char trim_end_text
trim_path path = trim_end_text (codes ".git") (trim_end_char b'/' path)

abbrev pub in_path : Option Text → Option (Text × Text)
in_path none = none
in_path (some path) = owner_name (rsplit_once b'/' (trim_path path))

abbrev pub in_rest : Option Text → Option (Text × Text)
in_rest none = none
in_rest (some rest) = in_path (second (split_once b'/' rest))

unfoldable pub owner_name_from_url : Text → Option (Text × Text)
unfolding after_scheme split_once rsplit_once trim_path
owner_name_from_url url = in_rest (after_scheme url)

abbrev https_host : Option (Text × Text) → Text
https_host none = []
https_host (some (host, path)) = codes "https://" ++ host

abbrev of_rest : Option (Text × Text) → Text
of_rest none = []
of_rest (some (scheme, rest)) = https_host (split_once b'/' rest)

-- The base that `provision_volume` takes where none is given.
unfoldable pub default_base : Text → Text
unfolding split_text split_once
default_base url = of_rest (split_text url (codes "://"))
