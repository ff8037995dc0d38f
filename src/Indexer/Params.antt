-- ===== src/Indexer/Params.antt =====
-- The parameters of a request (`parseUser`, `parseFeed`, `clampLimit` and `clampIntervalSecs` of
-- packages/indexer/src/api.ts).
-- `Number(raw)` of a parameter: missing, NaN or infinite, negative, or a decimal number, of which the
-- whole part counts and whether there is a fraction.
mod Normal
use stellax.Base.{
  ℕ, Bool, true, false, not, ◌&&◌, ◌||◌, Option, none, some, List, [], ◌∷◌, length, min, ltb, leb,
  ◌==◌, if◌then◌else◌,
}
use stellax.Indexer.Rows.{Text, to_upper_case}
use stellax.Sdk.Js.{trim}

abbrev pub all_of : (ℕ → Bool) → Text → Bool
all_of p [] = true
all_of p (c ∷ s) = p c && all_of p s

-- `[A-Z2-7]`
abbrev pub is_base32 : ℕ → Bool
is_base32 c = (leb b'A' c && leb c b'Z') || (leb b'2' c && leb c b'7')

-- `/^G[A-Z2-7]{55}$/`
abbrev pub is_user : Text → Bool
is_user [] = false
is_user (c ∷ s) = c == b'G' && (length s == 55 && all_of is_base32 s)

-- a parameter that is no string is `none`
unfoldable pub parse_user : Option Text → Option Text
parse_user none = none
parse_user (some raw) = if is_user raw then some raw else none

-- `[A-Z0-9_]`
abbrev pub is_feed_char : ℕ → Bool
is_feed_char c = (leb b'A' c && leb c b'Z') || ((leb b'0' c && leb c b'9') || c == b'_')

-- `/^[A-Z0-9_]{1,32}$/`
abbrev pub is_feed : Text → Bool
is_feed s = ltb 0 (length s) && (leb (length s) 32 && all_of is_feed_char s)

unfoldable pub parse_feed : Option Text → Option Text
unfolding trim
parse_feed none = none
parse_feed (some raw) =
    let feed = to_upper_case (trim raw) in if is_feed feed then some feed else none

pub data QueryNumber : Type 0 where
  missing : QueryNumber
  not_finite : QueryNumber
  negative : QueryNumber
  decimal : (whole : ℕ) (fraction : Bool) → QueryNumber

unfoldable pub clamp_limit : QueryNumber → ℕ → ℕ
clamp_limit missing max = min max 50
clamp_limit not_finite max = 50
clamp_limit negative max = 50
clamp_limit (decimal whole fraction) max = if whole == 0 && not fraction then 50 else min max whole

unfoldable pub clamp_interval_secs : QueryNumber → ℕ
clamp_interval_secs missing = min 86_400 900
clamp_interval_secs not_finite = 900
clamp_interval_secs negative = 900
clamp_interval_secs (decimal whole fraction) = if ltb whole 60 then 900 else min 86_400 whole
