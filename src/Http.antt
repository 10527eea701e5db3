-- ===== src/Http.antt =====
-- FastAPI handlers: a handler reads and writes the service's store and returns a value or raises
-- an `HTTPException`. What was written before a raise stays written, so the state comes back
-- beside the error too.
use penguard.Prelude.{
  ℕ, String, List, [], ◌∷◌, Bool, true, false, Option, none, some, ◌≡◌, refl, ◌⊎◌, inl, inr,
  if◌then◌else◌,
}

pub record HttpError : Type 0 where
  pub status : ℕ
  pub detail : List String

pub data Reply {ℓ} (A : Type ℓ) : Type ℓ where
  ok : A → Reply A
  raised : HttpError → Reply A

-- HTTPException(status, detail)
abbrev pub http_error : ℕ → String → HttpError
http_error status detail = record { status = status; detail = detail ∷ [] }

abbrev pub Handler : Type 0 → Type 0 → Type 0
Handler S A = S → Reply A × S

module _ {S A : Type 0} where
  abbrev pub pure : A → Handler S A
  pure a s = (ok a, s)

  abbrev pub raise : HttpError → Handler S A
  raise e s = (raised e, s)

  abbrev pub gets : (S → A) → Handler S A
  gets f s = (ok (f s), s)

  abbrev pub lift : Reply A → Handler S A
  lift r s = (r, s)

  -- `if x is None: raise e`
  abbrev pub require : HttpError → Option A → Handler S A
  require e none s = (raised e, s)
  require e (some a) s = (ok a, s)

module _ {S : Type 0} where
  abbrev pub put_state : S → Handler S (Unit {0})
  put_state s' s = (ok tt, s')

  -- `if test: raise e`
  abbrev pub raise_if : Bool → HttpError → Handler S (Unit {0})
  raise_if test e s = ((if test then raised e else ok tt), s)

module _ {S A B : Type 0} where
  abbrev pub continue : Reply A → (A → Handler S B) → Handler S B
  continue (ok a) f s = f a s
  continue (raised e) f s = (raised e, s)

  infixl 5 ◌>>=◌ ◌>>◌
  abbrev pub ◌>>=◌ : Handler S A → (A → Handler S B) → Handler S B
  ◌>>=◌ m f s = continue (m s).0 f (m s).1

  abbrev pub ◌>>◌ : Handler S A → Handler S B → Handler S B
  m >> n = m >>= λ _. n

abbrev pub is_ok {ℓ} : {A : Type ℓ} → Reply A → Bool
is_ok (ok _) = true
is_ok (raised _) = false

pub Reply-cases {ℓ} :
    {A : Type ℓ} (r : Reply A) → ((a : A) × (r ≡ ok a)) ⊎ ((e : HttpError) × (r ≡ raised e))
Reply-cases (ok a) = inl (a, refl)
Reply-cases (raised e) = inr (e, refl)
