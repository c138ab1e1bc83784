-- ===== src/Sdk/Profile.antt =====
-- The cache of profiles, over `GetMe` and `UpdateAccountProfile`.
use vertex_sdk_go.Prelude.{
  ℕ, ◌≡◌, refl, [], sym, ap, ◌∙◌, inl, inr, ◌++◌, if◌then◌else◌, Option-cases, Bool, true, false,
  Option, none, some, ok, err, arith,
}
use vertex_sdk_go.Prelude.Strings.{Bytes, bytes, str_eq}
use vertex_sdk_go.Cache.{Cache}
use vertex_sdk_go.Config.{SdkConfig}
use vertex_sdk_go.AuthContext.{User, Context, from_context}
use vertex_sdk_go.CurrentUser.{normalize_bearer}
use vertex_sdk_go.Http.{Log, Did, Backoff, Server}
use vertex_sdk_go.Http.Account.{
  UserProfile, AccountUpdateProfileRequest, Codec, get_account_profile,
}
use vertex_sdk_go.Sdk.{
  token_key, user_key, profile_cache_key, Sdk, cached_profile, keep_profile, get_me, update_me,
}

-- Whose profile a call is about: the user of the context, or else the bearer of the token.
pub data Caller : Type 0 where
  user : Bytes → Bytes → Caller
  holder : Bytes → Caller

unfoldable pub caller_of : Option User → Bytes → Caller
caller_of none access_token = holder (normalize_bearer access_token)
caller_of (some u) access_token =
    if str_eq u.subject [] then holder (normalize_bearer access_token) else user u.app_id u.subject

key_text : (Bytes → Bytes) → Caller → Bytes
key_text sha256_hex (user app subject) = bytes "user:" ++ (app ++ (bytes ":" ++ subject))
key_text sha256_hex (holder t) = bytes "token:" ++ sha256_hex t

user_key-caller :
    (sha256_hex : Bytes → Bytes) (u : Option User) (access_token : Bytes)
    → user_key sha256_hex u access_token ≡ key_text sha256_hex (caller_of u access_token)
unfolding user_key token_key key_text caller_of
user_key-caller sha256_hex none access_token = refl
user_key-caller sha256_hex (some u) access_token = ground arith

same_caller-key :
    (sha256_hex : Bytes → Bytes) (ctx later : Option Context) (t access_token : Bytes)
    → caller_of (from_context ctx) t ≡ caller_of (from_context later) access_token
    → profile_cache_key sha256_hex later access_token ≡ profile_cache_key sha256_hex ctx t
unfolding profile_cache_key
same_caller-key sha256_hex ctx later t access_token e =
    user_key-caller sha256_hex (from_context later) access_token
    ∙ ap (key_text sha256_hex) (sym e)
    ∙ sym (user_key-caller sha256_hex (from_context ctx) t)

module _ (c : Cache UserProfile) (sha256_hex : Bytes → Bytes) (b : Backoff) (v : Server)
    (cfg : SdkConfig) (k : Codec) where
  keep_profile-answer :
      (now : ℕ) (key : Bytes) (s : c.State) (sdk : Sdk c.State) (d : Did UserProfile)
      → (keep_profile c sha256_hex b v cfg k now key s sdk d).0 ≡ d
  unfolding keep_profile
  keep_profile-answer now key s sdk (err e, l) = refl
  keep_profile-answer now key s sdk (ok p, l) = refl

  found-missed :
      (bypass : Bool) (now : ℕ) (key : Bytes) (s : c.State)
      → c.get now key s ≡ none
      → cached_profile c sha256_hex b v cfg k bypass now key s ≡ none
  unfolding cached_profile
  found-missed true now key s e = refl
  found-missed false now key s e = e

  get_me-missed :
      (ctx : Option Context) (access_token : Bytes) (bypass : Bool) (now stored ttl : ℕ) (l : Log)
      (s : c.State)
      → c.get now (profile_cache_key sha256_hex ctx access_token) s ≡ none
      → (get_me c sha256_hex b v cfg k ctx access_token bypass now stored
          (record { profile_cache = some s; profile_cache_ttl = ttl })
          l).0
        ≡ get_account_profile b v cfg k access_token l
  unfolding get_me
  get_me-missed ctx access_token bypass now stored ttl l s gone =
      let key = profile_cache_key sha256_hex ctx access_token in
      rw (get_me, found-missed bypass now key s gone)
        (keep_profile-answer stored key s
          (record { profile_cache = some s; profile_cache_ttl = ttl })
          (get_account_profile b v cfg k access_token l))

  -- After `UpdateAccountProfile`, and no other call since, `GetMe` of the same caller answers what
  -- the client's `GetMe` answers and leaves the log as it does, whatever the cache held before. The
  -- caller is the user of the context, by application and subject, or else the bearer of the access
  -- token, however its scheme is spelled.
  pub get_me-update_me :
      (ctx later : Option Context) (t access_token : Bytes) (input : AccountUpdateProfileRequest)
      (bypass : Bool) (now stored : ℕ) (sdk : Sdk c.State) (l sent : Log)
      → caller_of (from_context ctx) t ≡ caller_of (from_context later) access_token
      → (get_me c sha256_hex b v cfg k later access_token bypass now stored
          (update_me c sha256_hex b v cfg k ctx t input sdk l).1
          sent).0
        ≡ get_account_profile b v cfg k access_token sent
  unfolding update_me
  get_me-update_me ctx later t access_token input bypass now stored sdk l sent same =
      elim (Option-cases sdk.profile_cache) [
        | inl e ↦ rw (e) (unfold get_me in rw (e) refl)
        | inr (s, e) ↦ rw (e) (
            get_me-missed later access_token bypass now stored sdk.profile_cache_ttl sent
              (c.del (profile_cache_key sha256_hex ctx t) s)
              (rw (same_caller-key sha256_hex ctx later t access_token same)
                (c.get_del now (profile_cache_key sha256_hex ctx t) s)))
      ]
