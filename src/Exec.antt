-- ===== src/Exec.antt =====
-- An asynchronous function of the source that reads and writes shared state, and may reject. What
-- was written before a rejection stays written, so the state comes back beside the error too.
use dropbox_go_grpc_microser.Prelude.{◌≡◌, refl, ◌⊎◌, inl, inr, Bool, true, false}

pub data Reply {ℓ} (E A : Type ℓ) : Type ℓ where
  ok : A → Reply E A
  err : E → Reply E A

abbrev pub Exec {ℓ} : Type ℓ → Type ℓ → Type ℓ → Type ℓ
Exec S E A = S → Reply E A × S

module _ {ℓ} {S E A : Type ℓ} where
  abbrev pub pure : A → Exec S E A
  pure a s = (ok a, s)

  -- `throw`
  abbrev pub raise : E → Exec S E A
  raise e s = (err e, s)

  -- The answer of a call that touches none of the state.
  abbrev pub lift : Reply E A → Exec S E A
  lift r s = (r, s)

  abbrev pub gets : (S → A) → Exec S E A
  gets f s = (ok (f s), s)

  abbrev handler : Reply E A → (E → Exec S E A) → Exec S E A
  handler (ok a) h s = (ok a, s)
  handler (err e) h s = h e s

  -- `try { m } catch (error) { h(error) }`
  abbrev pub catch : Exec S E A → (E → Exec S E A) → Exec S E A
  catch m h s = let (r, s') = m s in handler r h s'

abbrev pub modify {ℓ} : {S E : Type ℓ} → (S → S) → Exec S E (Unit {ℓ})
modify f s = (ok tt, f s)

module _ {ℓ} {S E A B : Type ℓ} where
  abbrev continue : Reply E A → (A → Exec S E B) → Exec S E B
  continue (ok a) f s = f a s
  continue (err e) f s = (err e, s)

  infixl 5 ◌>>=◌ ◌>>◌
  abbrev pub ◌>>=◌ : Exec S E A → (A → Exec S E B) → Exec S E B
  ◌>>=◌ m f s = let (r, s') = m s in continue r f s'

  abbrev pub ◌>>◌ : Exec S E A → Exec S E B → Exec S E B
  m >> n = m >>= λ _. n

abbrev pub is_ok {ℓ} : {E A : Type ℓ} → Reply E A → Bool
is_ok (ok a) = true
is_ok (err e) = false

pub Reply-cases {ℓ} :
    {E A : Type ℓ} (r : Reply E A) → ((a : A) × (r ≡ ok a)) ⊎ ((e : E) × (r ≡ err e))
Reply-cases (ok a) = inl (a, refl)
Reply-cases (err e) = inr (e, refl)
