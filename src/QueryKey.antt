-- ===== src/QueryKey.antt =====
-- The keys of the query caches of both apps (modules/files/api/use-files.ts of web/src and native/src): a
-- list of parts. Which keys a filter matches is up to the query library, and an argument.
use dropbox_go_grpc_microser.Prelude.{
  String, ◌≡◌, ◌≢◌, Bool, true, false, List, ◌∷◌, ◌++◌, any, str_eq, eq_iff, arith,
}

-- A part of a key: a text, a list of texts, or an object, as its members.
pub data Part : Type 0 where
  text : String → Part
  texts : List String → Part
  object : List (String × String) → Part

abbrev pub Key : Type 0
Key = List Part

pub data FileSort : Type 0 where
  by_name updated_at : FileSort

abbrev pub sort_text : FileSort → String
sort_text by_name = "NAME"
sort_text updated_at = "UPDATED_AT"

-- Whether a query of a key is refetched.
unfoldable pub is_refreshed : (Key → Key → Bool) → List Key → Key → Bool
is_refreshed matches filters key = any (λ f. matches f key) filters

-- What the query library documents of its filters, as far as it is used: a filter matches the keys that
-- begin with it; it matches no key that begins with another text, nor one that has another text or
-- another first member of an object after a beginning that they share.
pub record IsPartialMatch (matches : Key → Key → Bool) : Type 0 where
  pub begins : (filter rest : Key) → matches filter (filter ++ rest) ≡ true
  pub other_text :
      (shared : Key) (a b : String) (filter key : Key)
      → a ≢ b
      → matches (shared ++ text a ∷ filter) (shared ++ text b ∷ key) ≡ false
  pub other_member :
      (shared : Key) (name a b : String) (more others : List (String × String)) (filter key : Key)
      → a ≢ b
      → matches
          (shared ++ object ((name, a) ∷ more) ∷ filter)
          (shared ++ object ((name, b) ∷ others) ∷ key)
        ≡ false

pub differ : (a b : String) → str_eq a b ≡ false → a ≢ b
differ a b h e = ground (arith, eq_iff a b)
