-- ===== src/Dict.antt =====
-- JavaScript's `Map` with string keys, as an association list in insertion order: `set` on a key
-- that is there keeps its place, a new key goes to the end.
use dropbox_go_grpc_microser.Prelude.{
  String, ◌≡◌, Bool, true, Option, none, some, List, [], ◌∷◌, arith, str_eq, eq_iff, if◌then◌else◌,
  keep,
}

abbrev pub Dict {ℓ} : Type ℓ → Type ℓ
Dict V = List (String × V)

module _ {ℓ} {V : Type ℓ} where
  abbrev is_at : String → String × V → Bool
  is_at key entry = str_eq entry.0 key

  -- map.delete(key)
  unfoldable pub erase : String → Dict V → Dict V
  erase key [] = []
  erase key (entry ∷ rest) =
      let later = erase key rest in if is_at key entry then later else entry ∷ later

  -- map.get(key)
  unfoldable pub lookup : String → Dict V → Option V
  lookup key [] = none
  lookup key (entry ∷ rest) =
      let later = lookup key rest in if is_at key entry then some entry.1 else later

  -- map.set(key, value)
  unfoldable pub insert : String → V → Dict V → Dict V
  insert key value [] = (key, value) ∷ []
  insert key value (entry ∷ rest) =
      let later = insert key value rest in
      if is_at key entry then (entry.0, value) ∷ rest else entry ∷ later

  pub lookup-erase :
      (key other : String) (map : Dict V)
      → lookup other (erase key map) ≡ (if str_eq key other then none else lookup other map)
  unfolding erase lookup
  lookup-erase key other [] = ground arith
  lookup-erase key other ((at, w) ∷ rest) =
      ground (arith, lookup-erase key other rest, eq_iff key other, eq_iff at key, eq_iff at other)

  -- An entry that passes the test is found in the filtered map too.
  pub lookup-keep :
      (test : String × V → Bool) (key : String) (value : V) (map : Dict V)
      → lookup key map ≡ some value
      → test (key, value) ≡ true
      → lookup key (keep test map) ≡ some value
  unfolding lookup
  lookup-keep test key value [] held passes = held
  lookup-keep test key value ((at, w) ∷ rest) held passes =
      ground (arith, eq_iff at key, lookup-keep test key value rest)

  pub lookup-insert :
      (key other : String) (value : V) (map : Dict V)
      → lookup other (insert key value map)
        ≡ (if str_eq key other then some value else lookup other map)
  unfolding insert lookup
  lookup-insert key other value [] = ground arith
  lookup-insert key other value ((at, w) ∷ rest) =
      ground (
        arith,
        lookup-insert key other value rest,
        eq_iff at other,
        eq_iff at key,
        eq_iff key other,
      )
