-- ===== src/Tests/Remotes.antt =====
-- The theorems on git, local and remote backends at concrete inputs.
use git_storage.Prelude.{ℕ, ◌≡◌, refl, true, false, none, some, List, [], ◌∷◌, arith}
use git_storage.Prelude.Text.{Text, codes}
use git_storage.Prelude.Result.{ok}
use git_storage.Prelude.Str.{is_whitespace}
use git_storage.Prelude.Decimal.{decimal, digits_before}
use git_storage.Process.{Running}
use git_storage.Gitrepo.Answers.{read_lines, two_words, size_line}
use git_storage.Gitrepo.Listing.{
  printed, ref_line, blob_line, AreWords, read_lines-refs, read_lines-sizes,
}
use git_storage.Backend.Base64.{base64_encode, decode, decode-base64_encode}
use git_storage.Backend.Network.{net_git}
use git_storage.Backend.Calls.{cas_ref, read_blob_at, serve}
use git_storage.Backend.Local.{Local, local}
use git_storage.Backend.Remote.{Remote, throttle, ensure_promisor_probe}
use git_storage.Backend.Remote.Serve.{remote}
use git_storage.Backend.Remote.Retry.{net_git_retrying, Attempts, net_git_retrying-Attempts}
use git_storage.Backend.Remote.Pacing.{throttle-Spaced, Spaced}
use git_storage.Backend.Remote.Probed.{ensure_promisor_probe-Decided, Decided}
use git_storage.Backend.Isolation.OfLocal.{local-Isolated}
use git_storage.Backend.Isolation.Served.{remote-Isolated}
use git_storage.Tests.Texts.{all_ascii, all_ascii-IsAscii, spaceless-NoSpace}
use git_storage.Tests.Scripted.{scripted, at, answer, failure, SameForeign, scripted-Holds}

-- "tok:"
decode-base64_encode_example : decode (base64_encode (codes "tok:")) ≡ some (codes "tok:")
decode-base64_encode_example =
    decode-base64_encode (codes "tok:")
      (omega arith, (omega arith, (omega arith, (omega arith, tt))))

abbrev two_refs : List (Text × Text)
two_refs = (codes "refs/a", codes "1f") ∷ (codes "refs/b", codes "2e") ∷ []

two_refs-AreWords : AreWords two_refs
unfolding is_whitespace
two_refs-AreWords = (
  spaceless-NoSpace (codes "refs/a") refl,
  spaceless-NoSpace (codes "1f") refl,
  (spaceless-NoSpace (codes "refs/b") refl, spaceless-NoSpace (codes "2e") refl, tt),
)

read_lines-refs_example : read_lines two_words (printed ref_line two_refs) ≡ ok two_refs
read_lines-refs_example =
    read_lines-refs two_refs two_refs-AreWords (all_ascii-IsAscii (printed ref_line two_refs) refl)

abbrev one_blob : List (Text × ℕ)
one_blob = (codes "a b", 12) ∷ []

one_blob_ascii : all_ascii (printed blob_line one_blob) ≡ true
unfolding decimal digits_before
one_blob_ascii = refl

read_lines-sizes_example : read_lines size_line (printed blob_line one_blob) ≡ ok one_blob
read_lines-sizes_example =
    read_lines-sizes one_blob ((refl, refl, (refl, refl, (refl, refl, tt))), omega arith, tt)
      (all_ascii-IsAscii (printed blob_line one_blob) one_blob_ascii)

-- A server that limits the rate once.
abbrev limited : Running scripted
limited = at (failure (codes "HTTP 429") ∷ answer [] ∷ []) 0 none

net_git_retrying-Attempts_example :
    let done = net_git_retrying {X = scripted} (codes "m") (codes "file://r") [] limited in
    Attempts (net_git (codes "m") (codes "file://r") []) 0 limited done.0 done.1
net_git_retrying-Attempts_example =
    net_git_retrying-Attempts (codes "m") (codes "file://r") [] limited

abbrev a_remote : Running scripted → Remote scripted
a_remote running = record {
  backend = record {
    url = codes "file://r";
    mirror = record { dir = codes "m" };
    mirror_dir = codes "m";
    push_interval = 500;
    last_push = some 900;
    promisor = 0;
    force_full_fetch = false;
  };
  running = running;
}

abbrev pushed_before : Remote scripted
pushed_before = a_remote (at [] 1000 none)

throttle-Spaced_example :
    let done = throttle pushed_before in
    (done.0 ≡ ok tt)
    × Spaced 500 (some 900) done.1.running.machine.clock
    × (done.1.backend.last_push ≡ some done.1.running.machine.clock)
throttle-Spaced_example =
    throttle-Spaced pushed_before (λ nanos s. omega arith) (λ e. absurd (omega (arith, e)))
      (omega arith)

-- A remote that answers the filtered fetch.
abbrev filtering : Remote scripted
filtering = a_remote (at (answer [] ∷ []) 0 none)

ensure_promisor_probe-Decided_example :
    Decided (codes "refs/b") (ensure_promisor_probe (codes "refs/a") filtering)
ensure_promisor_probe-Decided_example =
    ensure_promisor_probe-Decided (codes "refs/a") (codes "refs/b") filtering

abbrev a_local : Local scripted
a_local = record {
  backend = record { dir = codes "d"; repo = record { dir = codes "d" } };
  running = at (answer [] ∷ []) 0 none;
}

local-Isolated_example :
    SameForeign a_local.running.machine
      (serve (local scripted) (cas_ref (codes "refs/a") (codes "1f") none) a_local).running.machine
local-Isolated_example =
    local-Isolated scripted-Holds (cas_ref (codes "refs/a") (codes "1f") none) a_local

remote-Isolated_example :
    SameForeign filtering.running.machine
      (serve
        (remote scripted)
        (read_blob_at (codes "refs/a") (codes "p"))
        filtering).running.machine
remote-Isolated_example =
    remote-Isolated scripted-Holds (read_blob_at (codes "refs/a") (codes "p")) filtering
