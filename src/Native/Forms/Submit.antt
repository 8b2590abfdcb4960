-- ===== src/Native/Forms/Submit.antt =====
-- What the screens send.
use dropbox_go_grpc_microser.Prelude.{
  ◌≡◌, ◌≢◌, ◌≤◌, ◌⊎◌, true, false, none, [], ◌∷◌, ◌++◌, arith, length, truthy,
}
use dropbox_go_grpc_microser.Text.{codes, trim}
use dropbox_go_grpc_microser.Native.Forms.{
  is_email, validate_email, validate_password, validate_name, LoginScreen, login_submit,
  RegisterScreen, register_submit, any_error,
}

-- A submission of the sign-in screen sends the email and the password once if the trimmed email has the
-- form of one and the password at least eight characters, and then shows no error; and else it sends
-- nothing and shows an error.
pub login_submit-sends :
    (s : LoginScreen)
    → ((is_email (codes (trim s.email)) ≡ true)
        × (8 ≤ length (codes s.password))
        × ((login_submit s).requests ≡ s.requests ++ (s.email, s.password) ∷ [])
        × ((login_submit s).email_error ≡ none)
        × ((login_submit s).password_error ≡ none))
      ⊎ (((login_submit s).requests ≡ s.requests)
          × (((login_submit s).email_error ≢ none) ⊎ ((login_submit s).password_error ≢ none)))
unfolding login_submit validate_email validate_password
login_submit-sends s = ground arith

-- A submission of the sign-up screen sends the name, the email and the password once if the name is not
-- blank, the trimmed email has the form of one and the password has at least eight characters; and else
-- it sends nothing and shows an error.
pub register_submit-sends :
    (s : RegisterScreen)
    → ((truthy (trim s.name) ≡ true)
        × (is_email (codes (trim s.email)) ≡ true)
        × (8 ≤ length (codes s.password))
        × ((register_submit s).requests ≡ s.requests ++ (s.name, s.email, s.password) ∷ [])
        × (any_error (register_submit s).errors ≡ false))
      ⊎ (((register_submit s).requests ≡ s.requests)
          × (any_error (register_submit s).errors ≡ true))
unfolding register_submit validate_email validate_password validate_name
register_submit-sends s = ground arith
