-- ===== src/Backend/Provision/Status.antt =====
-- The status that curl prints after a body is read back, whatever the body is.
use git_storage.Prelude.{ℕ, ◌<◌, ◌^◌, ◌≡◌, refl, none, some, [], ◌∷◌, ◌++◌, arith}
use mathlib.Core.List.{reverse, reverse-reverse}
use git_storage.Prelude.Text.{Text, codes}
use git_storage.Prelude.Str.{is_whitespace, strip_prefix, trim}
use git_storage.Prelude.Spaces.{NoSpace, NoSpace-reverse, trim_start_none, not_newline}
use git_storage.Prelude.Decimal.{decimal, NoSpace-decimal, parse_usize-decimal}
use git_storage.Backend.Provision.{rsplit_text, marker, split_status, status_of}

-- No marker stands in a text without white space.
strip_prefix-none : (s : Text) → NoSpace s → strip_prefix s marker ≡ none
unfolding strip_prefix
strip_prefix-none [] h = refl
strip_prefix-none (c ∷ s) h = rw (not_newline c h.0).0

rsplit_text-none : (s : Text) → NoSpace s → rsplit_text s marker ≡ none
unfolding rsplit_text
rsplit_text-none [] h = refl
rsplit_text-none (c ∷ s) h = rw (rsplit_text-none s h.1, strip_prefix-none (c ∷ s) h)

abbrev marker_word : Text
marker_word = codes "__HTTP_STATUS__:"

NoSpace-marker_word : (s : Text) → NoSpace s → NoSpace (marker_word ++ s)
unfolding is_whitespace
NoSpace-marker_word s h = (
  refl,
  (
    refl,
    (
      refl,
      (
        refl,
        (
          refl,
          (refl, (refl, (refl, (refl, (refl, (refl, (refl, (refl, (refl, (refl, (refl, h))))))))))),
        ),
      ),
    ),
  ),
)

rsplit_text-marker :
    (body s : Text) → NoSpace s → rsplit_text (body ++ marker ++ s) marker ≡ some (body, s)
unfolding rsplit_text
rsplit_text-marker [] s h = rw (rsplit_text-none (marker_word ++ s) (NoSpace-marker_word s h))
rsplit_text-marker (c ∷ body) s h = rw (rsplit_text-marker body s h)

trim_word : (s : Text) → NoSpace s → trim s ≡ s
unfolding trim
trim_word s h =
    rw (trim_start_none s h, trim_start_none (reverse s) (NoSpace-reverse s h), reverse-reverse s)

status_of-decimal : (n : ℕ) → n < 2 ^ 16 → status_of (decimal n) ≡ n
unfolding status_of
status_of-decimal n h =
    rw (trim_word (decimal n) (NoSpace-decimal n), parse_usize-decimal n (omega arith))
      (ground arith)

-- From what curl prints, the body, the marker and the decimal status, the body and the status are
-- read back, even if the marker stands in the body too.
pub split_status-printed :
    (body : Text) (status : ℕ)
    → status < 2 ^ 16
    → split_status (body ++ marker ++ decimal status) ≡ record { http_status = status; body = body }
unfolding split_status
split_status-printed body status h =
    rw (
      rsplit_text-marker body (decimal status) (NoSpace-decimal status),
      status_of-decimal status h,
    )
