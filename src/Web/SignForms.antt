-- ===== src/Web/SignForms.antt =====
-- The forms of web/src/modules/auth/components, sign-in-form.tsx and sign-up-form.tsx: the schemas and
-- `onSubmit`, with the answer of the server action of web/src/actions/auth.ts. What zod takes for an email
-- address is an argument. A path that the router is sent to is an entry of `visited`.
pub mod Leaving
use dropbox_go_grpc_microser.Prelude.{
  ℕ, String, Bool, true, false, ◌&&◌, List, [], ◌∷◌, ◌++◌, length, leb, str_eq, if◌then◌else◌,
}
use dropbox_go_grpc_microser.Exec.{Reply, ok, err}
use dropbox_go_grpc_microser.Text.{codes}

pub record SigninFormValues : Type 0 where
  pub email : String
  pub password : String

pub record SignupFormValues : Type 0 where
  pub name : String
  pub email : String
  pub password : String
  pub confirm_password : String

-- `.min(low).max(high)`
abbrev pub is_between : ℕ → ℕ → String → Bool
is_between low high text = leb low (length (codes text)) && leb (length (codes text)) high

-- What the page does: the values that the server is asked with, the paths, and rejections that nothing handles.
pub record Page (E A : Type 0) : Type 0 where
  pub asked : List A
  pub visited : List String
  pub rejected : List E

abbrev visit : {E A : Type 0} → String → Page E A → Page E A
visit path p = record p { visited = p.visited ++ path ∷ [] }

abbrev ask : {E A : Type 0} → A → Page E A → Page E A
ask values p = record p { asked = p.asked ++ values ∷ [] }

abbrev reject_with : {E A : Type 0} → Reply E Unit → Page E A → Page E A
reject_with (ok done) p = p
reject_with (err e) p = record p { rejected = p.rejected ++ e ∷ [] }

module _ (is_email : String → Bool) where
  unfoldable pub signin_schema : SigninFormValues → Bool
  signin_schema v = is_email v.email && is_between 8 100 v.password

  unfoldable pub signup_schema : SignupFormValues → Bool
  signup_schema v =
      is_between 2 100 v.name
      && is_email v.email
      && is_between 8 100 v.password
      && leb 8 (length (codes v.confirm_password))
      && str_eq v.password v.confirm_password

  module _ {E : Type 0} where
    abbrev after_login : Reply E Unit → Page E SigninFormValues → Page E SigninFormValues
    after_login (ok done) p = visit "/files" p
    after_login (err e) p = reject_with (err e) p

    -- `onSubmit` of the sign-in form waits for the answer.
    unfoldable pub submit_signin :
        Reply E Unit → SigninFormValues → Page E SigninFormValues → Page E SigninFormValues
    unfolding signin_schema
    submit_signin answer v p = if signin_schema v then after_login answer (ask v p) else p

    -- `onSubmit` of the sign-up form does not.
    unfoldable pub submit_signup :
        Reply E Unit → SignupFormValues → Page E SignupFormValues → Page E SignupFormValues
    unfolding signup_schema
    submit_signup answer v p =
        if signup_schema v then reject_with answer (visit "/" (ask v p)) else p
