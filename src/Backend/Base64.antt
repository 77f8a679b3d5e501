-- ===== src/Backend/Base64.antt =====
-- `base64_encode` and `basic_auth_header` (src/backend.rs), with a decoder of RFC 4648.
use git_storage.Prelude.{
  ℕ, zero, suc, ◌+◌, ◌-◌, ◌*◌, ◌/◌, ◌%◌, ◌^◌, ◌<◌, ◌≡◌, refl, ap, Bool, true, false, ◌&&◌, Option,
  none, some, ◌⊎◌, inl, inr, [], ◌∷◌, ◌++◌, leb, ◌==◌, if◌then◌else◌, get_or, arith,
}
use git_storage.Prelude.Text.{Bytes, Text, AreBytes, codes}

-- `A`
abbrev alphabet : Text
alphabet = codes "ABCDEFGHIJKLMNOPQRSTUVWXYZabcdefghijklmnopqrstuvwxyz0123456789+/"

-- `A[(x & 63) as usize]`
unfoldable pub letter : ℕ → ℕ
letter x = get_or alphabet (x % 64) 0

-- `n`, of three bytes, whose bits do not overlap.
unfoldable pub joined : ℕ → ℕ → ℕ → ℕ
joined b0 b1 b2 = b0 * 2 ^ 16 + b1 * 2 ^ 8 + b2

unfoldable pub base64_encode : Bytes → Text
unfolding letter joined
base64_encode [] = []
base64_encode (a ∷ []) =
    let n = joined a 0 0 in letter (n / 2 ^ 18) ∷ letter (n / 2 ^ 12) ∷ b'=' ∷ b'=' ∷ []
base64_encode (a ∷ b ∷ []) =
    let n = joined a b 0 in
    letter (n / 2 ^ 18) ∷ letter (n / 2 ^ 12) ∷ letter (n / 2 ^ 6) ∷ b'=' ∷ []
base64_encode (a ∷ b ∷ c ∷ s) =
    let n = joined a b c in
    letter (n / 2 ^ 18) ∷ letter (n / 2 ^ 12) ∷ letter (n / 2 ^ 6) ∷ letter n ∷ base64_encode s

unfoldable pub basic_auth_header : Text → Text
unfolding base64_encode
basic_auth_header token =
    codes "http.extraHeader=Authorization: Basic " ++ base64_encode (token ++ b':' ∷ [])

-- The value of a letter, as RFC 4648 has it.
unfoldable value : ℕ → Option ℕ
value c =
    if leb b'A' c && leb c b'Z'
    then some (c - b'A')
    else if leb b'a' c && leb c b'z'
    then some (c - b'a' + 26)
    else if leb b'0' c && leb c b'9'
    then some (c - b'0' + 52)
    else if c == b'+'
    then some 62
    else if c == b'/'
    then some 63
    else none

-- Four values and what follows them; a character that is not a letter pads the last group.
abbrev group : Option ℕ → Option ℕ → Option ℕ → Option ℕ → Option Bytes → Option Bytes
group (some a) (some b) (some c) (some d) (some rest) =
    some ((a * 4 + b / 16) ∷ (b % 16 * 16 + c / 4) ∷ (c % 4 * 64 + d) ∷ rest)
group (some a) (some b) (some c) none (some []) =
    some ((a * 4 + b / 16) ∷ (b % 16 * 16 + c / 4) ∷ [])
group (some a) (some b) none none (some []) = some ((a * 4 + b / 16) ∷ [])
group _ _ _ _ _ = none

unfoldable pub decode : Text → Option Bytes
unfolding value
decode [] = some []
decode (a ∷ b ∷ c ∷ d ∷ s) = group (value a) (value b) (value c) (value d) (decode s)
decode _ = none

-- A test of all numbers below a bound.
all_below : (ℕ → Bool) → ℕ → Bool
all_below p zero = true
all_below p (suc n) = p n && all_below p n

lt_or_eq : (x n : ℕ) → x < suc n → (x < n) ⊎ (x ≡ n)
lt_or_eq x n h = ground arith

both-true : (a b : Bool) → (a && b) ≡ true → (a ≡ true) × (b ≡ true)
both-true true b h = (refl, h)
both-true false b h = cc

holds_below : (p : ℕ → Bool) (n : ℕ) → all_below p n ≡ true → (x : ℕ) → x < n → p x ≡ true
unfolding all_below
holds_below p zero h x k = absurd (omega arith)
holds_below p (suc n) h x k = elim (lt_or_eq x n k) [
  | inl l ↦ holds_below p n (both-true (p n) (all_below p n) h).1 x l
  | inr e ↦ rw e (both-true (p n) (all_below p n) h).0
]

abbrev is_some : Option ℕ → ℕ → Bool
is_some none x = false
is_some (some y) x = y == x

eq_of_is_some : (o : Option ℕ) (x : ℕ) → is_some o x ≡ true → o ≡ some x
eq_of_is_some none x h = cc
eq_of_is_some (some y) x h = ap some (ground arith)

value-letter : (x : ℕ) → value (letter x) ≡ some (x % 64)
unfolding value letter all_below
value-letter x =
    eq_of_is_some (value (letter x)) (x % 64)
      (holds_below (λ i. is_some (value (get_or alphabet i 0)) i) 64 refl (x % 64) (omega arith))

-- The bytes of a group, by its values.
abbrev first : ℕ → ℕ
first n = (n / 2 ^ 18 % 64) * 4 + n / 2 ^ 12 % 64 / 16

abbrev second : ℕ → ℕ
second n = n / 2 ^ 12 % 64 % 16 * 16 + n / 2 ^ 6 % 64 / 4

abbrev third : ℕ → ℕ
third n = n / 2 ^ 6 % 64 % 4 * 64 + n % 64

first-joined : (a b c : ℕ) → a < 256 → b < 256 → c < 256 → first (joined a b c) ≡ a
unfolding joined
first-joined a b c h k l = omega arith

second-joined : (a b c : ℕ) → a < 256 → b < 256 → c < 256 → second (joined a b c) ≡ b
unfolding joined
second-joined a b c h k l = omega arith

third-joined : (a b c : ℕ) → a < 256 → b < 256 → c < 256 → third (joined a b c) ≡ c
unfolding joined
third-joined a b c h k l = omega arith

-- What `base64_encode` makes of some bytes, a decoder of RFC 4648 reads back as the bytes.
pub decode-base64_encode : (s : Bytes) → AreBytes s → decode (base64_encode s) ≡ some s
unfolding decode base64_encode
decode-base64_encode [] h = refl
decode-base64_encode (a ∷ []) h = rw (
  value-letter (joined a 0 0 / 2 ^ 18),
  value-letter (joined a 0 0 / 2 ^ 12),
  first-joined a 0 0 h.0 (omega arith) (omega arith),
)
decode-base64_encode (a ∷ b ∷ []) h = rw (
  value-letter (joined a b 0 / 2 ^ 18),
  value-letter (joined a b 0 / 2 ^ 12),
  value-letter (joined a b 0 / 2 ^ 6),
  first-joined a b 0 h.0 h.1.0 (omega arith),
  second-joined a b 0 h.0 h.1.0 (omega arith),
)
decode-base64_encode (a ∷ b ∷ c ∷ s) (ha, (hb, (hc, hs))) = rw (
  value-letter (joined a b c / 2 ^ 18),
  value-letter (joined a b c / 2 ^ 12),
  value-letter (joined a b c / 2 ^ 6),
  value-letter (joined a b c),
  decode-base64_encode s hs,
  first-joined a b c ha hb hc,
  second-joined a b c ha hb hc,
  third-joined a b c ha hb hc,
)
