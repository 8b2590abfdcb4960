-- ===== src/Web/Profile.antt =====
-- Who is signed in, for the views: `useAuth` of web/src/lib/auth-context.tsx, and the initials of
-- user-button.tsx of web/src/modules/auth/components and file-header.tsx of
-- web/src/modules/files/components. `toUpperCase` of one code unit is an argument.
pub mod Initials
use Prim.Native.String
use dropbox_go_grpc_microser.Prelude.{
  ℕ, String, Bool, true, false, ◌||◌, ◌&&◌, not, Option, none, some, List, [], ◌∷◌, map, take,
  str_eq, truthy, if◌then◌else◌,
}
use dropbox_go_grpc_microser.Text.{codes, is_space, trim}

abbrev begins_with_space : List ℕ → Bool
begins_with_space [] = false
begins_with_space (c ∷ s) = is_space c

abbrev attach : ℕ → List (List ℕ) → List (List ℕ)
attach c [] = (c ∷ []) ∷ []
attach c (part ∷ parts) = (c ∷ part) ∷ parts

-- `split(/\s+/)`: a run of spaces is one separator.
unfoldable pub split_spaces : List ℕ → List (List ℕ)
split_spaces [] = [] ∷ []
split_spaces (c ∷ s) =
    let rest = split_spaces s in
    if is_space c then (if begins_with_space s then rest else [] ∷ rest) else attach c rest

module _ (to_upper_case : ℕ → String) where
  -- `part[0]?.toUpperCase() ?? ""`
  abbrev initial_of : List ℕ → String
  initial_of [] = ""
  initial_of (c ∷ s) = to_upper_case c

  abbrev join : List String → String
  join [] = ""
  join (s ∷ ss) = String.◌++◌ s (join ss)

  abbrev text_or : String → String → String
  text_or fallback s = if truthy s then s else fallback

  -- `getInitials`, of what is shown where there is no name: "U" and "AS".
  unfoldable pub get_initials : (fallback : String) → Option String → String
  unfolding split_spaces trim
  get_initials fallback none = fallback
  get_initials fallback (some name) =
      if truthy name
      then text_or fallback (join (map initial_of (take 2 (split_spaces (codes (trim name))))))
      else fallback

pub record CurrentUser : Type 0 where
  pub user_id : String
  pub email : String
  pub name : String

-- The data of the query: none yet, nobody, or a user.
pub data UserData : Type 0 where
  undefined nobody : UserData
  user : CurrentUser → UserData

pub record AuthState : Type 0 where
  pub is_authenticated : Bool
  pub is_loading_auth : Bool
  pub current_user : Option CurrentUser
  pub is_loading_user : Bool

abbrev is_user : UserData → Bool
is_user undefined = false
is_user nobody = false
is_user (user u) = true

abbrev user_of : UserData → Option CurrentUser
user_of undefined = none
user_of nobody = none
user_of (user u) = some u

unfoldable pub use_auth : UserData → (is_loading is_fetching : Bool) → AuthState
use_auth answer is_loading is_fetching = record {
  is_authenticated = is_user answer;
  is_loading_auth = is_loading;
  current_user = user_of answer;
  is_loading_user = is_fetching;
}

abbrev name_of : Option CurrentUser → Option String
name_of none = none
name_of (some u) = some u.name

abbrev name_or : String → Option String → String
name_or other none = other
name_or other (some name) = name

-- What the two components show of the state: the button names a missing user "User".
unfoldable pub button_initials : (ℕ → String) → AuthState → String
unfolding get_initials
button_initials to_upper_case state =
    get_initials to_upper_case "U" (some (name_or "User" (name_of state.current_user)))

unfoldable pub header_initials : (ℕ → String) → AuthState → String
unfolding get_initials
header_initials to_upper_case state = get_initials to_upper_case "AS" (name_of state.current_user)
