-- ===== src/Native/Forms.antt =====
-- The sign-in and sign-up screens of native/src/app/(auth), login.tsx and register.tsx, with the
-- messages and the checks of native/src/modules/auth/lib/auth-errors.ts. What `mutate` is called with
-- is an entry of `requests`, newest last.
pub mod Email
pub mod Submit
use dropbox_go_grpc_microser.Prelude.{
  ℕ, String, Bool, true, false, not, ◌&&◌, ◌||◌, Option, none, some, List, [], ◌∷◌, ◌++◌, ltb, ◌==◌,
  length, truthy, if◌then◌else◌,
}
use dropbox_go_grpc_microser.Rpc.{Code}
use dropbox_go_grpc_microser.Text.{codes, is_space, trim}

-- `raw || otherwise`
abbrev or_else : String → String → String
or_else raw otherwise = if truthy raw then raw else otherwise

-- `messageForAuthError`, of the code and the message of `ConnectError.from(error)`.
unfoldable pub message_for_auth_error : Code → String → String
message_for_auth_error Code.unauthenticated raw =
    "That email and password do not match. Check them and try again."
message_for_auth_error Code.already_exists raw =
    "An account with this email already exists. Try logging in instead."
message_for_auth_error Code.invalid_argument raw =
    or_else raw "Please check the details you entered."
message_for_auth_error Code.unavailable raw =
    "Cannot reach the server. Check your connection and try again."
message_for_auth_error Code.deadline_exceeded raw =
    "Cannot reach the server. Check your connection and try again."
message_for_auth_error Code.resource_exhausted raw =
    "Too many attempts. Wait a moment and try again."
message_for_auth_error _ raw = or_else raw "Something went wrong. Please try again."

-- `[^\s@]`
abbrev pub is_part : ℕ → Bool
is_part c = not (is_space c) && not (c == b'@')

-- `p+` of a pattern, and then what `rest` matches.
unfoldable pub plus : (ℕ → Bool) → (List ℕ → Bool) → List ℕ → Bool
plus p rest [] = false
plus p rest (c ∷ s) = p c && (rest s || plus p rest s)

-- A character of a pattern, and then what `rest` matches.
abbrev pub one : ℕ → (List ℕ → Bool) → List ℕ → Bool
one a rest [] = false
one a rest (c ∷ s) = c == a && rest s

abbrev pub at_end : List ℕ → Bool
at_end [] = true
at_end (c ∷ s) = false

-- `/^[^\s@]+@[^\s@]+\.[^\s@]+$/`
unfoldable pub is_email : List ℕ → Bool
unfolding plus
is_email = plus is_part (one b'@' (plus is_part (one b'.' (plus is_part at_end))))

unfoldable pub validate_email : String → Option String
validate_email email =
    if not (truthy (trim email))
    then some "Enter your email address."
    else if not (is_email (codes (trim email)))
    then some "Enter a valid email address."
    else none

unfoldable pub validate_password : String → Option String
validate_password password =
    if not (truthy password)
    then some "Enter your password."
    else if ltb (length (codes password)) 8
    then some "Passwords are at least 8 characters."
    else none

unfoldable pub validate_name : String → Option String
validate_name name = if not (truthy (trim name)) then some "Enter your name." else none

pub record LoginScreen : Type 0 where
  pub email : String
  pub password : String
  pub email_error : Option String
  pub password_error : Option String
  pub requests : List (String × String)

-- `if (a || b) return`: the messages are not empty, so an error is one that is there.
abbrev pub is_set : Option String → Bool
is_set none = false
is_set (some message) = true

unfoldable pub login_submit : LoginScreen → LoginScreen
login_submit s =
    let shown = record s {
      email_error = validate_email s.email;
      password_error = validate_password s.password;
    } in
    if is_set (validate_email s.email) || is_set (validate_password s.password)
    then shown
    else record shown { requests = s.requests ++ (s.email, s.password) ∷ [] }

pub data Field : Type 0 where
  name_field email_field password_field : Field

pub record FieldErrors : Type 0 where
  pub name : Option String
  pub email : Option String
  pub password : Option String

pub record RegisterScreen : Type 0 where
  pub name : String
  pub email : String
  pub password : String
  pub errors : FieldErrors
  pub requests : List (String × String × String)

abbrev next_errors : RegisterScreen → FieldErrors
next_errors s = record {
  name = validate_name s.name;
  email = validate_email s.email;
  password = validate_password s.password;
}

abbrev pub any_error : FieldErrors → Bool
any_error e = is_set e.name || is_set e.email || is_set e.password

unfoldable pub register_submit : RegisterScreen → RegisterScreen
register_submit s =
    let shown = record s { errors = next_errors s } in
    if any_error (next_errors s)
    then shown
    else record shown { requests = s.requests ++ (s.name, s.email, s.password) ∷ [] }

-- `clearError`
unfoldable pub clear_error : Field → FieldErrors → FieldErrors
clear_error name_field e = record e { name = none }
clear_error email_field e = record e { email = none }
clear_error password_field e = record e { password = none }
