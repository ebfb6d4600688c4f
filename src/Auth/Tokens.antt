-- ===== src/Auth/Tokens.antt =====
-- services/auth/internal/service/jwt.go and password.go.
use gofin.Prelude.{
  ltb, if◌then◌else◌, ◌+◌, String, Bool, true, false, not, ◌&&◌, Option, none, some,
}
use Prim.Native.Char.{code}
use gofin.Api.{◌>>=◌, Result, ok}
use gofin.Auth.Model.{Claims, Environment, TokenPair, to_seconds}
use gofin.Expense.Validation.{byte_length}

unfoldable pub token_pair : Result String → Result String → Result TokenPair
token_pair access refresh = do
  access_token ← access
  refresh_token ← refresh
  ok (record { access_token = access_token; refresh_token = refresh_token })

module _ (env : Environment) where
  abbrev pub access_claims : String → String → String → String → Claims
  access_claims user_id role username assumed_by = record {
    subject = user_id;
    jti = "";
    issued_at = some (to_seconds env.now);
    expires_at = some (to_seconds (env.now + env.access_token_ttl));
    role = role;
    username = username;
    assumed_by = assumed_by;
  }

  abbrev pub refresh_claims : String → Claims
  refresh_claims user_id = record {
    subject = user_id;
    jti = env.new_jti;
    issued_at = some (to_seconds env.now);
    expires_at = some (to_seconds (env.now + env.refresh_token_ttl));
    role = "";
    username = "";
    assumed_by = "";
  }

  unfoldable pub generate_token_pair_with_assumed_by :
      String → String → String → String → Result TokenPair
  unfolding token_pair
  generate_token_pair_with_assumed_by user_id role username assumed_by =
      token_pair (env.sign (access_claims user_id role username assumed_by))
        (env.sign (refresh_claims user_id))

  unfoldable pub generate_token_pair : String → String → String → Result TokenPair
  unfolding generate_token_pair_with_assumed_by
  generate_token_pair user_id role username =
      generate_token_pair_with_assumed_by user_id role username ""

  -- The two validations differ in the Go type of the claims only: they ask the library with the same
  -- key and the same method, and neither looks at which kind of token it is given.
  unfoldable pub validate_access_token : String → Result Claims
  validate_access_token token = env.parse env.now token

  unfoldable pub validate_refresh_token : String → Result Claims
  validate_refresh_token token = env.parse env.now token

  -- The three flags of the loop over the characters: upper case, lower case, digit.
  unfoldable pub scan_classes : String → Bool × Bool × Bool → Bool × Bool × Bool
  scan_classes String.[] found = found
  scan_classes (String.◌∷◌ c s) (upper, lower, digit) = scan_classes s (
      if env.is_upper (code c)
      then (true, lower, digit)
      else if env.is_lower (code c)
      then (upper, true, digit)
      else if env.is_digit (code c)
      then (upper, lower, true)
      else (upper, lower, digit))

  abbrev pub has_all : Bool × Bool × Bool → Bool
  has_all (upper, lower, digit) = upper && (lower && digit)

  -- The text of the error, if there is one.
  unfoldable pub validate_password_strength : String → Option String
  unfolding scan_classes byte_length
  validate_password_strength password =
      let weak : String =
        "password must be at least 8 characters with one uppercase letter, one lowercase letter, and one digit" in
      if ltb 72 (byte_length password)
      then some "password must not exceed 72 characters"
      else if ltb (byte_length password) 8
      then some weak
      else if not (has_all (scan_classes password (false, false, false)))
      then some weak
      else none
