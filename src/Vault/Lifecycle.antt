-- ===== src/Vault/Lifecycle.antt =====
-- What vending gives after credentials are stored, rotated or revoked, and when a token signs.
use cavi_erp.Prelude.{
  ℕ, ◌+◌, ◌≡◌, refl, String, Bool, true, Bool-cases, inl, inr, Option-cases, none, some, List, [],
  ◌∷◌, ◌==◌, string_eq, pair_eq, if◌then◌else◌, All,
}
use cavi_erp.Dict.{get, put, pop, has_key}
use cavi_erp.Dict.Laws.{get-put, get-pop, get-put_self}
use cavi_erp.Error.{ok, err, ◌>>=◌, >>=-eq-ok, or_raise-eq-ok}
use cavi_erp.Vault.Credentials.{
  Credentials, CredentialStore, missing_fields, required_fields, complain, normalize_platform,
  store_credentials, rotate_token, revoke, not_found,
}
use cavi_erp.Vault.Token.{VendedToken, vend_token, default_scopes, default_ttl}

-- Two platform names with the same normal form, for the same tenant.
abbrev pub same_account : String → String → String → String → Bool
same_account tenant_id platform tenant_id' platform' =
    ◌==◌ {K = String × String} (platform, tenant_id) (platform', tenant_id')

module _ (tenant_id other : String) (name other_name platform platform' : String) (now : ℕ)
    (store : CredentialStore) (normal : normalize_platform name ≡ ok platform)
    (normal' : normalize_platform other_name ≡ ok platform') where
  -- After a tenant's credentials for a platform are revoked, under whatever name of the platform,
  -- vending for that tenant and platform finds no credentials, and any other vending is as before.
  pub vend_token-revoke :
      (left : CredentialStore)
      → revoke tenant_id name store ≡ ok left
      → vend_token other other_name none none now left ≡ (
          if same_account tenant_id platform other platform'
          then err (not_found platform' other)
          else vend_token other other_name none none now store)
  unfolding vend_token revoke
  vend_token-revoke left e =
      let gone : left ≡ pop (platform, tenant_id) store = cc (rw normal at e) in
      rw (gone, normal')
        (rw (get-pop (platform, tenant_id) (platform', other) store)
          (elim (Bool-cases (same_account tenant_id platform other platform')) [
            | inl same ↦ rw same refl
            | inr different ↦ rw different refl
          ]))

has_key-get :
    (k : String) (d : Credentials) → has_key k d ≡ true → (v : String) × (get k d ≡ some v)
has_key-get k d h = elim (Option-cases (get k d)) [
  | inl absent ↦ cc (rw (absent, has_key) at h)
  | inr found ↦ found
]

missing_fields-All :
    (fields : List String) (credentials : Credentials)
    → missing_fields fields credentials ≡ []
    → All (λ f. has_key f credentials ≡ true) fields
unfolding missing_fields
missing_fields-All [] credentials h = tt
missing_fields-All (f ∷ fields) credentials h = elim (Bool-cases (has_key f credentials)) [
  | inl given ↦ (given, missing_fields-All fields credentials (rw given at h))
  | inr absent ↦ cc (rw absent at h)
]

module _ (tenant_id name platform : String) (now : ℕ)
    (normal : normalize_platform name ≡ ok platform) where
  abbrev issue : Credentials → String → String → String → VendedToken
  issue creds account_id consumer_key token_id = record {
    tenant_id = tenant_id;
    erp_platform = platform;
    realm = account_id;
    consumer_key = consumer_key;
    token_id = token_id;
    scopes = default_scopes;
    issued_at = now;
    expires_at = now + default_ttl;
    bound = creds;
  }

  pub vend_token-issue :
      (store : CredentialStore) (creds : Credentials) (account_id consumer_key token_id : String)
      → get (platform, tenant_id) store ≡ some creds
      → get "account_id" creds ≡ some account_id
      → get "consumer_key" creds ≡ some consumer_key
      → get "token_id" creds ≡ some token_id
      → vend_token tenant_id name none none now store
        ≡ ok (issue creds account_id consumer_key token_id)
  unfolding vend_token
  vend_token-issue store creds account_id consumer_key token_id present a c t =
      rw (normal, present) (rw (a, c, t) refl)

  -- What a successful vending found.
  pub record Found (store : CredentialStore) (token : VendedToken) : Type 0 where
    pub creds : Credentials
    pub account_id : String
    pub consumer_key : String
    pub token_id : String
    pub stored : get (platform, tenant_id) store ≡ some creds
    pub account : get "account_id" creds ≡ some account_id
    pub consumer : get "consumer_key" creds ≡ some consumer_key
    pub access : get "token_id" creds ≡ some token_id
    pub issued : token ≡ issue creds account_id consumer_key token_id

  pub vend_token-Found :
      (store : CredentialStore) (token : VendedToken)
      → vend_token tenant_id name none none now store ≡ ok token
      → Found store token
  unfolding vend_token
  vend_token-Found store token e =
      let (creds, found, e1) = >>=-eq-ok _ _ (rw normal at e) in
      let (account_id, a, e2) = >>=-eq-ok _ _ e1 in
      let (consumer_key, c, e3) = >>=-eq-ok _ _ e2 in
      let (token_id, t, e4) = >>=-eq-ok _ _ e3 in
      record {
        creds = creds;
        account_id = account_id;
        consumer_key = consumer_key;
        token_id = token_id;
        stored = or_raise-eq-ok _ _ found;
        account = or_raise-eq-ok _ _ a;
        consumer = or_raise-eq-ok _ _ c;
        access = or_raise-eq-ok _ _ t;
        issued = cc;
      }

  -- After a rotation, a tenant to whom a token was vended before is vended the same token with the
  -- new token id, bound to the credentials with the new token id and secret.
  pub vend_token-rotate :
      (token_id token_secret : String) (store left : CredentialStore) (token : VendedToken)
      → rotate_token tenant_id name token_id token_secret store ≡ ok left
      → vend_token tenant_id name none none now store ≡ ok token
      → vend_token tenant_id name none none now left
        ≡ ok (record token {
          token_id = token_id;
          bound = put "token_secret" token_secret (put "token_id" token_id token.bound);
        })
  unfolding rotate_token
  vend_token-rotate token_id token_secret store left token e v =
      let f = vend_token-Found store token v in
      let rotated : Credentials =
        put "token_secret" token_secret (put "token_id" token_id f.creds) in
      let written : left ≡ put (platform, tenant_id) rotated store =
        cc (rw (normal, f.stored) at e) in
      rw (written, f.issued)
        (vend_token-issue (put (platform, tenant_id) rotated store) rotated f.account_id
          f.consumer_key token_id (get-put_self (platform, tenant_id) rotated store)
          (simp (get-put, f.account)) (simp (get-put, f.consumer)) (simp get-put))

  store_credentials-ok :
      (credentials : Credentials) (store left : CredentialStore)
      → store_credentials tenant_id name credentials store ≡ ok left
      → (missing_fields required_fields credentials ≡ [])
        × (left ≡ put (platform, tenant_id) credentials store)
  unfolding store_credentials
  store_credentials-ok credentials store left e =
      judged (missing_fields required_fields credentials) (rw normal at e)
    where
      judged :
          (missing : List String)
          → (complain platform missing >>= λ _. ok (put (platform, tenant_id) credentials store))
            ≡ ok left
          → (missing ≡ []) × (left ≡ put (platform, tenant_id) credentials store)
      judged [] h = (refl, cc)
      judged (f ∷ fields) h = cc

  -- Credentials that are accepted for a tenant are vended: the token names their account, consumer
  -- key and token id, is bound to them, and expires 300 seconds after it was vended.
  pub vend_token-store :
      (credentials : Credentials) (store left : CredentialStore)
      → store_credentials tenant_id name credentials store ≡ ok left
      → (token : VendedToken) × (vend_token tenant_id name none none now left ≡ ok token)
        × (get "account_id" credentials ≡ some token.realm)
        × (get "consumer_key" credentials ≡ some token.consumer_key)
        × (get "token_id" credentials ≡ some token.token_id)
        × (token.bound ≡ credentials)
        × (token.expires_at ≡ now + default_ttl)
  vend_token-store credentials store left e =
      let (complete, written) = store_credentials-ok credentials store left e in
      let given = missing_fields-All required_fields credentials complete in
      let (account_id, a) = has_key-get "account_id" credentials given.0 in
      let (consumer_key, c) = has_key-get "consumer_key" credentials given.1.0 in
      let (token_id, t) = has_key-get "token_id" credentials given.1.1.1.0 in
      (
        issue credentials account_id consumer_key token_id,
        rw written (
            vend_token-issue (put (platform, tenant_id) credentials store) credentials account_id
              consumer_key token_id (get-put_self (platform, tenant_id) credentials store) a c t),
        a,
        c,
        t,
        refl,
        refl,
      )
