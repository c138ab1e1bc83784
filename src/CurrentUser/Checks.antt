-- ===== src/CurrentUser/Checks.antt =====
-- What a view that `ParseCurrentUser` returns is known to say.
use mathlib.Core.Path.{subst}
use vertex_sdk_go.Prelude.{
  ℕ, ◌≤◌, ◌⊎◌, inl, inr, length, ◌≡◌, ◌≢◌, refl, ap, ◌∙◌, Bool, true, false, List, [], ◌∷◌, Option,
  none, some, Result, ok, ◌>>◌, >>=-eq-ok, arith, any, All,
}
use vertex_sdk_go.Prelude.Strings.{Bytes, bytes, str_eq_iff}
use vertex_sdk_go.CurrentUser.{
  ImpersonationContext, CurrentUser, Members, Decoding, UserError, blank, present, blank_if_set,
  is_nil, blank_methods, blank_impersonation, text_of, refused_texts, refused_options,
  refused_bindings, refuse_if, decoded, accepted, with_context, refused_root, with_root, Answer,
  no_response, response, normalize_bearer, body_view, answer_view, get_current_user,
  parse_current_user,
}

-- The text has a character that is not a space.
abbrev pub Filled : Bytes → Type 0
Filled s = blank s ≡ false

abbrev pub FilledIfSet : Option Bytes → Type 0
FilledIfSet o = (s : Bytes) → o ≡ some s → Filled s

filled_if_set : (o : Option Bytes) → blank_if_set o ≡ false → FilledIfSet o
filled_if_set none h s e = cc
filled_if_set (some t) h s e = let same : t ≡ s = cc in subst (λ x. blank x ≡ false) same h

filled_methods : (ms : List Bytes) → any blank ms ≡ false → All Filled ms
filled_methods [] h = tt
filled_methods (m ∷ ms) h = (ground arith, filled_methods ms (ground arith))

-- The view is that of a user, with the texts that it must have; no text that is set is blank; and
-- its bindings agree: no workspace while one is still to be chosen, no organisation's slug or role
-- without the organisation, no impersonation without both its IDs.
pub record IsSound (u : CurrentUser) : Type 0 where
  pub subject : u.authentication_context.subject_type ≡ bytes "USER"
  pub id : Filled u.id
  pub status : Filled u.status
  pub application : Filled u.authentication_context.application_id
  pub client : Filled u.authentication_context.client_id
  pub session : Filled u.authentication_context.session_id
  pub methods :
      (ms : List Bytes) × (u.authentication_context.authentication_methods ≡ some ms)
      × All Filled ms
  pub email : FilledIfSet u.email
  pub username : FilledIfSet u.username
  pub workspace_id : FilledIfSet u.authentication_context.workspace_id
  pub organization_id : FilledIfSet u.authentication_context.organization_id
  pub organization_slug : FilledIfSet u.authentication_context.organization_slug
  pub organization_role : FilledIfSet u.authentication_context.organization_role
  pub assurance_level : FilledIfSet u.authentication_context.assurance_level
  pub metadata : u.metadata ≢ none
  pub workspace :
      u.authentication_context.workspace_selection_required ≡ true
      → u.authentication_context.workspace_id ≡ none
  pub organization :
      u.authentication_context.organization_id ≡ none
      → (u.authentication_context.organization_slug ≡ none)
        × (u.authentication_context.organization_role ≡ none)
  pub impersonation :
      (i : ImpersonationContext)
      → u.authentication_context.impersonation ≡ some i
      → Filled i.actor_id × Filled i.impersonation_id

refuse_if_ok :
    {A : Type 0} (b : Bool) (k : Result UserError A) (a : A)
    → (refuse_if b >> k) ≡ ok a
    → (b ≡ false) × (k ≡ ok a)
unfolding refuse_if
refuse_if_ok true k a h = cc
refuse_if_ok false k a h = (refl, h)

methods_lem :
    (o : Option (List Bytes))
    → blank_methods o ≡ false
    → (ms : List Bytes) × (o ≡ some ms) × All Filled ms
methods_lem none h = cc
methods_lem (some ms) h = (ms, refl, filled_methods ms h)

decoded_ok : {A : Type 0} (o : Option A) (a : A) → decoded o ≡ ok a → o ≡ some a
unfolding decoded
decoded_ok none a h = cc
decoded_ok (some b) a h = cc

present-none : (o : Option Bytes) → present o ≡ false → o ≡ none
present-none none h = refl
present-none (some s) h = cc

is_nil_some : {A : Type 0} (o : Option A) → is_nil o ≡ false → o ≢ none
is_nil_some none h e = cc
is_nil_some (some a) h e = cc

impersonation_lem :
    (o : Option ImpersonationContext)
    → blank_impersonation o ≡ false
    → (i : ImpersonationContext) → o ≡ some i
    → Filled i.actor_id × Filled i.impersonation_id
impersonation_lem none h i e = cc
impersonation_lem (some k) h i e =
    let same : k ≡ i = cc in
    subst (λ (x : ImpersonationContext). Filled x.actor_id × Filled x.impersonation_id) same
      (ground arith, ground arith)

module _ (out : CurrentUser) where
  IsSound-of_tests :
      refused_texts out ≡ false
      → refused_options out ≡ false
      → refused_bindings out.authentication_context ≡ false
      → out.metadata ≢ none
      → IsSound out
  unfolding refused_texts refused_options refused_bindings
  IsSound-of_tests t o b m = record {
    subject = ground (arith, str_eq_iff out.authentication_context.subject_type (bytes "USER"));
    id = ground arith;
    status = ground arith;
    application = ground arith;
    client = ground arith;
    session = ground arith;
    methods = methods_lem out.authentication_context.authentication_methods (ground arith);
    email = filled_if_set out.email (ground arith);
    username = filled_if_set out.username (ground arith);
    workspace_id = filled_if_set out.authentication_context.workspace_id (ground arith);
    organization_id = filled_if_set out.authentication_context.organization_id (ground arith);
    organization_slug = filled_if_set out.authentication_context.organization_slug (ground arith);
    organization_role = filled_if_set out.authentication_context.organization_role (ground arith);
    assurance_level = filled_if_set out.authentication_context.assurance_level (ground arith);
    metadata = m;
    workspace = λ h. present-none out.authentication_context.workspace_id (ground arith);
    organization = λ h.
        let nil : is_nil out.authentication_context.organization_id ≡ true = ap is_nil h in
        (
          present-none out.authentication_context.organization_slug (ground arith),
          present-none out.authentication_context.organization_role (ground arith),
        );
    impersonation = impersonation_lem out.authentication_context.impersonation (ground arith);
  }

  accepted_lem :
      (u : CurrentUser)
      → accepted out ≡ ok u
      → (out ≡ u)
        × (refused_texts out ≡ false)
        × (refused_options out ≡ false)
        × (refused_bindings out.authentication_context ≡ false)
  unfolding accepted
  accepted_lem u h =
      let rest₂ = refuse_if (refused_bindings out.authentication_context) >> ok out in
      let rest₁ = refuse_if (refused_options out) >> rest₂ in
      let (t, h₁) = refuse_if_ok (refused_texts out) rest₁ u h in
      let (o, h₂) = refuse_if_ok (refused_options out) rest₂ u h₁ in
      let (b, h₃) = refuse_if_ok (refused_bindings out.authentication_context) (ok out) u h₂ in
      (cc, t, o, b)

  with_context_lem :
      (raw : Members) (u : CurrentUser) → with_context out raw ≡ ok u → accepted out ≡ ok u
  unfolding with_context
  with_context_lem raw u h = (refuse_if_ok _ (accepted out) u h).1

  with_root-IsSound :
      (j : Decoding) (root : Members) (u : CurrentUser)
      → with_root j root out ≡ ok u
      → (out ≡ u) × IsSound out
  unfolding with_root refused_root
  with_root-IsSound j root u h =
      let (t, h₁) = refuse_if_ok (refused_root root out) _ u h in
      let (raw, e, h₂) =
        >>=-eq-ok (decoded (j.members (text_of (root (bytes "authenticationContext")))))
          (with_context out) h₁ in
      let (same, a, b, d) = accepted_lem u (with_context_lem raw u h₂) in
      (same, IsSound-of_tests a b d (is_nil_some out.metadata (ground arith)))

-- What `ParseCurrentUser` returns is what the decoder made of the text, and it is sound: a user with
-- all the texts that it must have, none of those set blank, and with bindings that agree.
pub parse_current_user-IsSound :
    (j : Decoding) (text : Bytes) (u : CurrentUser)
    → parse_current_user j text ≡ ok u
    → (j.decode text ≡ some u) × IsSound u
unfolding parse_current_user
parse_current_user-IsSound j text u h =
    let (root, e₁, h₁) = >>=-eq-ok (decoded (j.members text)) _ h in
    let (out, e₂, h₂) = >>=-eq-ok (decoded (j.decode text)) (with_root j root) h₁ in
    let (same, sound) = with_root-IsSound out j root u h₂ in
    (decoded_ok (j.decode text) out e₂ ∙ ap some same, subst IsSound same sound)

-- How a user is obtained for a token: the token is not empty, the server answers with a success and a
-- body of at most 1 MiB, and the decoded view is sound.
pub record IsAnswered (j : Decoding) (answer : Bytes → Answer) (access_token : Bytes)
    (u : CurrentUser) : Type 0 where
  pub token : normalize_bearer access_token ≢ []
  pub status : ℕ
  pub body : Bytes
  pub answered : answer (normalize_bearer access_token) ≡ response status (some body)
  pub success : (200 ≤ status) × (status ≤ 299)
  pub small : length body ≤ 1_048_576
  pub view : parse_current_user j body ≡ ok u
  pub sound : IsSound u

Answer-cases :
    (a : Answer)
    → ((b : Bool) × (a ≡ no_response b))
      ⊎ ((s : ℕ) × (a ≡ response s none))
      ⊎ ((s : ℕ) × (body : Bytes) × (a ≡ response s (some body)))
Answer-cases (no_response b) = inl (b, refl)
Answer-cases (response s none) = inr (inl (s, refl))
Answer-cases (response s (some body)) = inr (inr (s, body, refl))

-- `GetCurrentUser` returns a user only for a token that is not empty, from an answer with a success
-- status and at most 1 MiB, whose view is sound.
pub get_current_user-IsAnswered :
    (j : Decoding) (answer : Bytes → Answer) (access_token : Bytes) (u : CurrentUser)
    → get_current_user j answer access_token ≡ ok u
    → IsAnswered j answer access_token u
unfolding get_current_user answer_view body_view
get_current_user-IsAnswered j answer access_token u h =
    elim (Answer-cases (answer (normalize_bearer access_token))) [
      | inl (b, e) ↦ absurd (ground arith)
      | inr (inl (s, e)) ↦ absurd (ground arith)
      | inr (inr (s, body, e)) ↦
          let view : parse_current_user j body ≡ ok u = ground arith in
          record {
            token = ground (arith, str_eq_iff (normalize_bearer access_token) []);
            status = s;
            body = body;
            answered = e;
            success = (ground arith, ground arith);
            small = ground arith;
            view = view;
            sound = (parse_current_user-IsSound j body u view).1;
          }
    ]
