-- ===== src/Backend/Network.antt =====
-- The network commands of git (src/backend.rs): their arguments and environment, the classification
-- of rate limits, the jitter, and `mirror_repo`.
use git_storage.Prelude.{
  ℕ, zero, suc, ◌+◌, ◌*◌, ◌^◌, ◌%◌, ◌/◌, Bool, true, false, ◌||◌, Option, none, some, List, [], ◌∷◌,
  ◌++◌, map, if◌then◌else◌,
}
use git_storage.Prelude.Text.{Text, codes}
use git_storage.Prelude.Str.{contains, starts_with, lower}
use git_storage.Prelude.Result.{unsupported_scheme, git_failed}
use git_storage.Process.{Machine, Sys, Command, Output, pure, fail, view, ◌>>=◌, output}
use git_storage.Backend.Base64.{basic_auth_header}

unfoldable pub allowed_scheme : Text → Bool
unfolding starts_with
allowed_scheme url =
    starts_with url (codes "file://")
    || starts_with url (codes "https://")
    || starts_with url (codes "ssh://")

unfoldable pub is_https : Text → Bool
unfolding starts_with
is_https url = starts_with url (codes "https://")

-- The header of an HTTPS remote, where GITSTORAGE_TOKEN is set.
unfoldable pub auth_args : Bool → Option Text → List Text
unfolding basic_auth_header
auth_args false token = []
auth_args true none = []
auth_args true (some token) = codes "-c" ∷ basic_auth_header token ∷ []

-- The command that `net_git` and `mirror_repo` build.
unfoldable pub net_command : Text → Text → Option Text → List Text → Command
unfolding is_https auth_args
net_command dir url token args = record {
  program = codes "git";
  args =
      codes "--git-dir" ∷ dir ∷ auth_args (is_https url) token
      ++ codes "-c" ∷ codes "credential.helper=" ∷ args;
  vars =
      (codes "GIT_TERMINAL_PROMPT", codes "0")
      ∷ (codes "GIT_CONFIG_GLOBAL", codes "/dev/null")
      ∷ (codes "GIT_CONFIG_SYSTEM", codes "/dev/null")
      ∷ [];
  removed = codes "GIT_ASKPASS" ∷ codes "SSH_ASKPASS" ∷ [];
  stdin = [];
}

unfoldable pub is_rate_limited : Text → Bool
unfolding contains lower
is_rate_limited stderr =
    let s = map lower stderr in
    contains s (codes "429")
    || contains s (codes "too many requests")
    || contains s (codes "secondary rate limit")
    || contains s (codes "rate limit")

-- Bitwise exclusive or, of `n` bits.
unfoldable pub xor : ℕ → ℕ → ℕ → ℕ
xor zero a b = 0
xor (suc n) a b = (a + b) % 2 + 2 * xor n (a / 2) (b / 2)

-- `pseudo_jitter`, with the nanoseconds of the clock; the seed wraps at 32 bits.
unfoldable pub pseudo_jitter : ℕ → ℕ → ℕ
unfolding xor
pseudo_jitter nanos seed = xor 32 nanos (seed * 2654435761 % 2 ^ 32)

module _ {X : Machine} where
  -- `net_git`, in the repository of a directory.
  unfoldable pub net_git : Text → Text → List Text → Sys X Output
  unfolding view ◌>>=◌ output net_command
  net_git dir url args = view (λ s. X.var (codes "GITSTORAGE_TOKEN") s.machine) >>= λ token.
      output (net_command dir url token args)

  -- What a network command that must succeed returns.
  unfoldable pub must_succeed : Output → Sys X (Unit {0})
  unfolding pure fail
  must_succeed out = if out.success then pure tt else fail git_failed

  unfoldable pub mirror_repo : Text → Text → Sys X (Unit {0})
  unfolding allowed_scheme net_git ◌>>=◌ must_succeed fail
  mirror_repo source_git_dir target_url =
      if allowed_scheme target_url
      then (net_git source_git_dir target_url (
            codes "push"
            ∷ codes "--quiet"
            ∷ codes "--force"
            ∷ target_url
            ∷ codes "refs/*:refs/*"
            ∷ [])
          >>= must_succeed)
      else fail unsupported_scheme
