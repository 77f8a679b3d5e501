-- ===== src/Backend/Provision.antt =====
-- Control-plane provisioning (src/backend/provision.rs): the only place that creates hosted
-- repositories. `curl` is a program of the machine; what it prints is taken as it is, since only
-- ASCII text is looked for in it.
pub mod Status
pub mod Created
use git_storage.Prelude.{
  ℕ, Bool, true, false, ◌||◌, ◌&&◌, Option, none, some, List, [], ◌∷◌, ◌++◌, ◌^◌, ◌==◌, ltb,
  if◌then◌else◌,
}
use git_storage.Prelude.Text.{Bytes, Text, codes}
use git_storage.Prelude.Str.{contains, trim, strip_prefix, parse_usize}
use git_storage.Prelude.Result.{
  Result, ok, err, token_missing, foreign_repo, unexpected_http, create_failed, backend_failed,
}
use git_storage.Process.{
  Machine, Sys, Command, Output, program, with_args, pure, fail, lift, view, ◌>>=◌, ◌>>◌, output,
}
use mathlib.Core.List.{reverse}

pub data Host : Type 0 where
  github gitea : Host

pub record RepoSpec : Type 0 where
  pub host : Host
  pub owner : Text
  pub name : Text
  pub web_base : Text

pub data Provisioned : Type 0 where
  created adopted_empty : Provisioned

pub data RepoState : Type 0 where
  absent empty non_empty : RepoState

-- `trim_end_matches(c)`
unfoldable pub drop_leading : ℕ → Text → Text
drop_leading c [] = []
drop_leading c (x ∷ s) = let rest = drop_leading c s in if x == c then rest else x ∷ s

unfoldable pub trim_end_char : ℕ → Text → Text
unfolding drop_leading
trim_end_char c s = reverse (drop_leading c (reverse s))

unfoldable pub api_base : Host → Text → Text
unfolding trim_end_char
api_base github web_base = codes "https://api.github.com"
api_base gitea web_base = trim_end_char b'/' web_base ++ codes "/api/v1"

unfoldable pub auth_header : Host → Text → Text
auth_header github token = codes "Authorization: Bearer " ++ token
auth_header gitea token = codes "Authorization: token " ++ token

abbrev pub marker : Text
marker = 10 ∷ codes "__HTTP_STATUS__:"

abbrev here : Option Text → Option (Text × Text)
here none = none
here (some rest) = some ([], rest)

abbrev earlier : ℕ → Option (Text × Text) → Option Text → Option (Text × Text)
earlier x none found = here found
earlier x (some (a, b)) found = some (x ∷ a, b)

-- `rsplit_once` at a text: what stands before and after its last place.
unfoldable pub rsplit_text : Text → Text → Option (Text × Text)
unfolding strip_prefix
rsplit_text [] pattern = here (strip_prefix [] pattern)
rsplit_text (x ∷ xs) pattern = earlier x (rsplit_text xs pattern) (strip_prefix (x ∷ xs) pattern)

unfoldable pub data_args : Option Text → List Text
data_args none = []
data_args (some b) = codes "-d" ∷ b ∷ []

unfoldable pub curl : Host → Text → Text → Text → Option Text → Command
unfolding auth_header data_args
curl host token method url body = with_args (program (codes "curl")) (
    codes "-sS"
      ∷ codes "-X"
      ∷ method
      ∷ codes "-H"
      ∷ auth_header host token
      ∷ codes "-H"
      ∷ codes "Accept: application/json"
      ∷ codes "-H"
      ∷ codes "Content-Type: application/json"
      ∷ codes "-w"
      ∷ (marker ++ codes "%{http_code}")
      ∷ data_args body
    ++ url ∷ [])

pub record CurlOut : Type 0 where
  pub http_status : ℕ
  pub body : Text

-- `parse::<u16>().unwrap_or(0)`
abbrev in_u16 : Option ℕ → ℕ
in_u16 none = 0
in_u16 (some n) = if ltb n (2 ^ 16) then n else 0

unfoldable pub status_of : Text → ℕ
unfolding parse_usize trim
status_of s = in_u16 (parse_usize (trim s))

abbrev split_at : Text → Option (Text × Text) → CurlOut
split_at combined none = record { http_status = 0; body = combined }
split_at combined (some (b, s)) = record { http_status = status_of s; body = b }

-- The body and the status that `curl -w` prints after it.
unfoldable pub split_status : Text → CurlOut
unfolding status_of rsplit_text
split_status combined = split_at combined (rsplit_text combined marker)

unfoldable pub looks_empty : Text → Bool
unfolding contains
looks_empty body =
    contains body (codes "\"empty\":true")
    || contains body (codes "\"size\":0")
    || contains body (codes "\"size\": 0")

-- The answer to the probe, by its status.
unfoldable pub repo_state : CurlOut → Result RepoState
unfolding looks_empty
repo_state out =
    if out.http_status == 404
    then ok absent
    else if out.http_status == 200
    then ok (if looks_empty out.body then empty else non_empty)
    else err unexpected_http

-- The answer to the creation.
unfoldable pub creation : CurlOut → Result (Unit {0})
creation out =
    if (out.http_status == 200) || (out.http_status == 201) then ok tt else err create_failed

unfoldable pub repo_url : Text → RepoSpec → Text
repo_url api spec = api ++ codes "/repos/" ++ spec.owner ++ b'/' ∷ spec.name

unfoldable pub payload : Text → Text
payload name = codes "{\"name\":\"" ++ name ++ codes "\",\"private\":true}"

unfoldable pub answer : Output → Result CurlOut
unfolding split_status
answer out = if out.success then ok (split_status out.stdout) else err backend_failed

module _ {X : Machine} where
  unfoldable pub curl_json : Host → Text → Text → Text → Option Text → Sys X CurlOut
  unfolding output curl ◌>>=◌ lift answer
  curl_json host token method url body =
      output (curl host token method url body) >>= λ out. lift (answer out)

  unfoldable pub get_repo : Text → RepoSpec → Text → Sys X RepoState
  unfolding curl_json ◌>>=◌ lift repo_state repo_url
  get_repo api spec token =
      curl_json spec.host token (codes "GET") (repo_url api spec) none >>= λ out.
      lift (repo_state out)

  unfoldable pub create_repo : Text → RepoSpec → Text → Sys X (Unit {0})
  unfolding curl_json ◌>>=◌ lift creation payload
  create_repo api spec token =
      curl_json spec.host token (codes "POST") (api ++ codes "/user/repos")
        (some (payload spec.name))
      >>= λ out. lift (creation out)

  -- The second half of `ensure_repo`, on what the probe found.
  unfoldable pub create_if : Text → RepoSpec → Text → RepoState → Sys X Provisioned
  unfolding create_repo ◌>>=◌ pure fail
  create_if api spec token absent = create_repo api spec token >> pure created
  create_if api spec token empty = pure adopted_empty
  create_if api spec token non_empty = fail foreign_repo

  unfoldable pub ensure_with : RepoSpec → Option Text → Sys X Provisioned
  unfolding get_repo create_if ◌>>=◌ fail api_base
  ensure_with spec none = fail token_missing
  ensure_with spec (some token) =
      let api = api_base spec.host spec.web_base in
      get_repo api spec token >>= create_if api spec token

  unfoldable pub ensure_repo : RepoSpec → Sys X Provisioned
  unfolding view ◌>>=◌ ensure_with
  ensure_repo spec = view (λ s. X.var (codes "GITSTORAGE_TOKEN") s.machine) >>= ensure_with spec
