-- ===== src/Server/Auth.antt =====
-- cmd/server/main.go: bearerAuth, and the token it gets from the configuration.
use cloud_credit_system.Common.{
  ℕ, ◌≡◌, ◌↔◌, ◌⊎◌, refl, sym, ap, ◌∙◌, inl, inr, Bool, true, false, ◌&&◌, Option, none, some, List,
  [], ◌∷◌, ◌++◌, arith, nat_beq, if◌then◌else◌, Option-cases,
}
use cloud_credit_system.Server.Config.{Variable, api_token_var, get_env, load}

-- The paths that the middleware tells apart.
pub data RequestPath : Type 0 where
  sim_path ui_path : RequestPath
  other_path : ℕ → RequestPath

-- `is_get`: the method is GET. A missing header is the empty text.
pub record HttpRequest : Type 0 where
  pub is_get : Bool
  pub path : RequestPath
  pub authorization : List ℕ

abbrev pub is_page : RequestPath → Bool
is_page sim_path = true
is_page ui_path = true
is_page (other_path n) = false

-- What subtle.ConstantTimeCompare decides.
unfoldable pub bytes_beq : List ℕ → List ℕ → Bool
bytes_beq [] [] = true
bytes_beq [] (b ∷ bs) = false
bytes_beq (a ∷ as_) [] = false
bytes_beq (a ∷ as_) (b ∷ bs) = nat_beq a b && bytes_beq as_ bs

abbrev pub bearer : List ℕ
bearer = b'B' ∷ b'e' ∷ b'a' ∷ b'r' ∷ b'e' ∷ b'r' ∷ b' ' ∷ []

abbrev pub is_empty : List ℕ → Bool
is_empty [] = true
is_empty (b ∷ bs) = false

-- Whether `next` serves the request; else the answer is 401.
unfoldable pub bearer_auth : List ℕ → HttpRequest → Bool
bearer_auth token r =
    if is_empty token
    then true
    else if r.is_get && is_page r.path
    then true
    else bytes_beq r.authorization (bearer ++ token)

pub bytes_beq_iff : (a b : List ℕ) → (bytes_beq a b ≡ true) ↔ (a ≡ b)
unfolding bytes_beq
bytes_beq_iff [] [] = ground arith
bytes_beq_iff [] (b ∷ bs) = ground arith
bytes_beq_iff (a ∷ as_) [] = ground arith
bytes_beq_iff (a ∷ as_) (b ∷ bs) = ground (arith, bytes_beq_iff as_ bs)

is_empty_iff : (token : List ℕ) → (is_empty token ≡ true) ↔ (token ≡ [])
is_empty_iff [] = ground arith
is_empty_iff (b ∷ bs) = ground arith

auth_iff :
    (token : List ℕ) (r : HttpRequest)
    → (bearer_auth token r ≡ true) ↔ (
        (token ≡ [])
        ⊎ (((r.is_get ≡ true) × (is_page r.path ≡ true)) ⊎ (r.authorization ≡ bearer ++ token)))
unfolding bearer_auth
auth_iff token r =
    ground (arith, is_empty_iff token, bytes_beq_iff r.authorization (bearer ++ token))

module _ (env : Variable → Option (List ℕ)) (trim : List ℕ → List ℕ)
    (fallbacks : Variable → List ℕ) where
  token_unset : env api_token_var ≡ none → (load env trim fallbacks).api_token ≡ []
  unfolding load get_env
  token_unset unset = rw (unset, get_env) refl

  token_set :
      {text : List ℕ}
      → env api_token_var ≡ some text
      → (load env trim fallbacks).api_token ≡ trim text
  unfolding load get_env
  token_set set = rw (set, get_env) refl

-- The server with the token of its environment serves a request exactly when API_TOKEN is unset or blank,
-- or the request is a GET of /sim or /ui, or its Authorization header is "Bearer " and the
-- trimmed token.
pub served_iff :
    (env : Variable → Option (List ℕ)) (trim : List ℕ → List ℕ) (fallbacks : Variable → List ℕ)
    (r : HttpRequest)
    → let token = (load env trim fallbacks).api_token in
      (bearer_auth token r ≡ true) ↔ (
        ((env api_token_var ≡ none)
          ⊎ ((text : List ℕ) × (env api_token_var ≡ some text) × (trim text ≡ [])))
        ⊎ (((r.is_get ≡ true) × (is_page r.path ≡ true))
            ⊎ ((text : List ℕ) × (env api_token_var ≡ some text)
                × (r.authorization ≡ bearer ++ trim text))))
served_iff env trim fallbacks r =
    let auth = auth_iff (load env trim fallbacks).api_token r in
    elim (Option-cases (env api_token_var)) [
      | inl unset ↦ (λ _. inl (inl unset), λ _. auth.1 (inl (token_unset env trim fallbacks unset)))
      | inr (text, set) ↦
          let token = token_set env trim fallbacks set in
          (
            λ served. elim (auth.0 served) [
              | inl blank ↦ inl (inr (text, set, sym token ∙ blank))
              | inr (inl page) ↦ inr (inl page)
              | inr (inr header) ↦
                  inr (inr (text, set, header ∙ ap (λ (t : List ℕ). bearer ++ t) token))
            ],
            λ allowed. elim allowed [
              | inl (inl unset) ↦ absurd (cc (unset, set))
              | inl (inr (other, set', blank)) ↦
                  auth.1 (inl (token_set env trim fallbacks set' ∙ blank))
              | inr (inl page) ↦ auth.1 (inr (inl page))
              | inr (inr (other, set', header)) ↦ auth.1 (
                  inr (
                    inr (
                      header
                      ∙ ap (λ (t : List ℕ). bearer ++ t)
                          (sym (token_set env trim fallbacks set')))))
            ],
          )
    ]
