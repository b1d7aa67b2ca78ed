-- ===== src/Server/Auth/Access.antt =====
-- src/auth.rs: who passes the middleware.
use memo_build.Prelude.{
  ℕ, ◌≤◌, ◌≡◌, refl, sym, ap, ◌∙◌, Bool, true, false, Option, none, some, List, [], ◌∷◌, inl, inr,
  ◌⊎◌, arith, Bool-cases, length, codes, not, ◌&&◌, ◌||◌, ◌++◌, ◌==◌, subst, Text, text_eq_iff,
  text_eq_refl, lookup, insert, lookup-insert,
}
use memo_build.Prelude.Results.{Result, ok, err}
use memo_build.Server.Auth.{
  StoredToken, AuthState, Headers, next_run, is_token, strip_bearer, first_eight, check_rate_limit,
  valid_if_stored, is_valid_token, is_admin_token, create_token, limit_token, admit, authenticate,
  auth_middleware, client_ip, split_dollar, verify_password,
}

-- The token is the administrator's, or a token with its SHA-256 hash is stored.
abbrev pub IsKnown : (Text → Text) → Text → AuthState → Type 0
IsKnown sha256_hash token st =
    (st.admin_token ≡ some token)
    ⊎ ((stored : StoredToken) × (lookup (sha256_hash token) st.tokens ≡ some stored))

module _ (sha256_hash : Text → Text) (argon2 : Text → Text → Option Text)
    (iter : List (Text × StoredToken) → List (Text × StoredToken)) where
  is_token-eq : (o : Option Text) (token : Text) → is_token o token ≡ true → o ≡ some token
  is_token-eq none token e = cc
  is_token-eq (some admin) token e = ap some (sym ((text_eq_iff token admin).0 e))

  valid_if_stored-some :
      (token : Text) (o : Option StoredToken)
      → valid_if_stored sha256_hash argon2 iter token o ≡ ok true
      → (stored : StoredToken) × (o ≡ some stored)
  valid_if_stored-some token none e = cc
  valid_if_stored-some token (some stored) e = (stored, refl)

  is_valid_token-IsKnown :
      (token : Text) (st : AuthState)
      → is_valid_token sha256_hash argon2 iter token st ≡ ok true
      → IsKnown sha256_hash token st
  unfolding is_valid_token
  is_valid_token-IsKnown token st e = elim (Bool-cases (is_token st.admin_token token)) [
    | inl admin ↦ inl (is_token-eq st.admin_token token admin)
    | inr other ↦
        inr (valid_if_stored-some token (lookup (sha256_hash token) st.tokens) (rw other at e))
  ]

  first_eight-long : (token prefix : Text) → first_eight token ≡ some prefix → 8 ≤ length token
  first_eight-long token prefix e = ground arith

  limit_token-next_run :
      (now : ℕ) (token : Text) (o : Option Text) (st : AuthState) (t : Text)
      → (limit_token sha256_hash argon2 iter now token o st).0 ≡ next_run t
      → (t ≡ token) × ((prefix : Text) × (o ≡ some prefix))
  limit_token-next_run now token none st t e = cc
  limit_token-next_run now token (some prefix) st t e =
      elim (Bool-cases (check_rate_limit (codes "auth:" ++ prefix) 1000 60 now st).0) [
        | inl allowed ↦ let e' = rw allowed at e in (cc e', (prefix, refl))
        | inr refused ↦ let e' = rw refused at e in cc e'
      ]

  admit-next_run :
      (now : ℕ) (token : Text) (r : Result Bool) (st : AuthState) (t : Text)
      → (admit sha256_hash argon2 iter now token r st).0 ≡ next_run t
      → (t ≡ token) × (r ≡ ok true) × (8 ≤ length token)
  admit-next_run now token (err e) st t next = cc
  admit-next_run now token (ok false) st t next = cc
  admit-next_run now token (ok true) st t next =
      let (same, (prefix, long)) = limit_token-next_run now token (first_eight token) st t next in
      (same, refl, first_eight-long token prefix long)

  authenticate-next_run :
      (now : ℕ) (o : Option Text) (st : AuthState) (t : Text)
      → (authenticate sha256_hash argon2 iter now o st).0 ≡ next_run t
      → (o ≡ some t) × IsKnown sha256_hash t st × (8 ≤ length t)
  authenticate-next_run now none st t next = cc
  authenticate-next_run now (some token) st t next =
      let (same, valid, long) =
        admit-next_run now token (is_valid_token sha256_hash argon2 iter token st) st t next in
      subst (λ x. (some token ≡ some x) × IsKnown sha256_hash x st × (8 ≤ length x)) (sym same)
        (refl, is_valid_token-IsKnown token st valid, long)

-- A request passes the middleware only with a bearer token of at least eight characters that is
-- the administrator's or whose SHA-256 hash is that of a stored token; the token is passed on with it.
pub auth_middleware-IsKnown :
    (sha256_hash : Text → Text) (argon2 : Text → Text → Option Text)
    (iter : List (Text × StoredToken) → List (Text × StoredToken)) (now later : ℕ)
    (headers : Headers) (st : AuthState) (token : Text)
    → (auth_middleware sha256_hash argon2 iter now later headers st).0 ≡ next_run token
    → (strip_bearer headers.authorization ≡ some token)
      × IsKnown sha256_hash token st
      × (8 ≤ length token)
unfolding auth_middleware check_rate_limit
auth_middleware-IsKnown sha256_hash argon2 iter now later headers st token next =
    let (allowed, st') =
      check_rate_limit (codes "unauth:" ++ client_ip headers.x_forwarded_for) 100 60 now st in
    elim (Bool-cases allowed) [
      | inl allows ↦
          authenticate-next_run sha256_hash argon2 iter later (strip_bearer headers.authorization)
            st' token (rw allows at next)
      | inr refuses ↦ let refused = rw refuses at next in cc refused
    ]

abbrev pub has_no_dollar : Text → Bool
has_no_dollar [] = true
has_no_dollar (c ∷ s) = not (c == b'$') && has_no_dollar s

split_dollar-plain : (s : Text) → has_no_dollar s ≡ true → split_dollar s ≡ s ∷ []
unfolding split_dollar
split_dollar-plain [] e = refl
split_dollar-plain (c ∷ s) e =
    let plain : (c == b'$') ≡ false = ground arith in
    rw (plain, split_dollar-plain s (ground arith)) refl

split_dollar-append :
    (s t : Text)
    → has_no_dollar s ≡ true
    → has_no_dollar t ≡ true
    → split_dollar (s ++ b'$' ∷ t) ≡ s ∷ t ∷ []
unfolding split_dollar
split_dollar-append [] t e f = ap (λ ws. [] ∷ ws) (split_dollar-plain t f)
split_dollar-append (c ∷ s) t e f =
    let plain : (c == b'$') ≡ false = ground arith in
    rw (plain, split_dollar-append s t (ground arith) f) refl

-- Where the salt and the password hash are texts without a dollar sign, as base64 is, a token
-- that was created is valid, and it is an administrator's if it was created as one or is the
-- administrator's token.
pub is_valid_token-create_token :
    (sha256_hash : Text → Text) (argon2 : Text → Text → Option Text)
    (iter : List (Text × StoredToken) → List (Text × StoredToken))
    (token salt hash description : Text) (is_admin : Bool) (st : AuthState)
    → argon2 token salt ≡ some hash
    → has_no_dollar salt ≡ true
    → has_no_dollar hash ≡ true
    → let (r, st') = create_token sha256_hash argon2 iter token salt description is_admin st in
      (r ≡ ok token)
      × (is_valid_token sha256_hash argon2 iter token st' ≡ ok true)
      × (is_admin_token sha256_hash argon2 iter token st'
          ≡ (is_token st.admin_token token || is_admin))
unfolding create_token is_valid_token is_admin_token verify_password
is_valid_token-create_token sha256_hash argon2 iter token salt hash description is_admin st drawn s
      h =
    let stored : StoredToken = record {
      hash = salt ++ b'$' ∷ hash;
      description = description;
      is_admin = is_admin;
    } in
    let key = sha256_hash token in
    let found : lookup key (insert key stored st.tokens) ≡ some stored =
      lookup-insert key key stored st.tokens ∙ rw (text_eq_refl key) refl in
    rw (drawn, found, split_dollar-append salt hash s h, drawn) (refl, ground arith, ground arith)
