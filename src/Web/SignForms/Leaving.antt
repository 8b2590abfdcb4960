-- ===== src/Web/SignForms/Leaving.antt =====
-- When the forms leave their pages.
use dropbox_go_grpc_microser.Prelude.{
  String, ◌≡◌, Bool, true, ◌⊎◌, [], ◌∷◌, ◌++◌, arith, Bool-cases, inl, inr,
}
use dropbox_go_grpc_microser.Exec.{Reply, ok, err, Reply-cases}
use dropbox_go_grpc_microser.Web.SignForms.{
  SigninFormValues, SignupFormValues, Page, signin_schema, signup_schema, submit_signin,
  submit_signup,
}

-- The sign-in form leaves its page only if its values pass the schema and the server accepts them.
pub submit_signin-visits :
    {E : Type 0} (is_email : String → Bool) (answer : Reply E Unit) (v : SigninFormValues)
    (p : Page E SigninFormValues)
    → ((submit_signin is_email answer v p).visited ≡ p.visited)
      ⊎ ((signin_schema is_email v ≡ true)
          × (answer ≡ ok tt)
          × ((submit_signin is_email answer v p).visited ≡ p.visited ++ "/files" ∷ []))
unfolding submit_signin
submit_signin-visits is_email answer v p = elim (Bool-cases (signin_schema is_email v)) [
  | inr bad ↦ inl (ground arith)
  | inl good ↦ elim (Reply-cases answer) [
    | inl (done, accepted) ↦ inr (good, ground arith, ground arith)
    | inr (e, refused) ↦ inl (ground arith)
  ]
]

-- The sign-up form leaves its page whatever the server answers.
pub submit_signup-visits :
    {E : Type 0} (is_email : String → Bool) (answer : Reply E Unit) (v : SignupFormValues)
    (p : Page E SignupFormValues)
    → signup_schema is_email v ≡ true
    → (submit_signup is_email answer v p).visited ≡ p.visited ++ "/" ∷ []
unfolding submit_signup
submit_signup-visits is_email (ok done) v p good = ground arith
submit_signup-visits is_email (err e) v p good = ground arith
