-- ===== src/Http/Auth/Contexts.antt =====
-- Who is admitted by `from_request_parts`, and with what context.
use agent_mail_kit.Prelude.{
  ℕ, ◌≡◌, ◌≢◌, ◌↔◌, ◌⊎◌, refl, sym, ap, ◌∙◌, String, Option, none, some, [], ◌∷◌, ◌++◌, nat_eq,
  list_eq, Result, ok, err, ◌>>=◌, inl, inr, arith, Option-cases, Result-cases, ok_injective,
}
use mathlib.Core.Path.{subst}
use agent_mail_kit.Types.Str.{Text}
use agent_mail_kit.Types.Ids.{PodId, InboxId}
use agent_mail_kit.Types.Mail.{Identity, ScopeType, Inbox}
use agent_mail_kit.Types.ApiKey.{from_wire}
use agent_mail_kit.Core.Scope.Denials.{ScopeResolutionError}
use agent_mail_kit.Core.Scope.Mounts.{Scope}
use agent_mail_kit.Core.Scope.Identities.{from_identity}
use agent_mail_kit.Core.Scope.Binding.{from_identity_iff}
use agent_mail_kit.Http.Auth.{
  AuthenticatedKey, AuthContext, AuthRejection, KeyStore, gateway, forbidden, app, panicked, forbid,
  scope_type_of, strip_start, bearer_scheme, inbox_pod, pod_of, scope_id_of, context_of, with_key,
  presented_as, from_request_parts,
}

strip_start-append : (start s : Text) → strip_start start (start ++ s) ≡ some s
unfolding strip_start
strip_start-append [] s = refl
strip_start-append (c ∷ start) s = ground (arith, strip_start-append start s)

strip_start_sound : (start value s : Text) → strip_start start value ≡ some s → value ≡ start ++ s
unfolding strip_start
strip_start_sound [] value s h = ground arith
strip_start_sound (c ∷ start) [] s h = ground arith
strip_start_sound (c ∷ start) (b ∷ value) s h = ground (arith, strip_start_sound start value s)

module _ (k : KeyStore) (parse_str : Text → Option ℕ) (pod_text : PodId → Text) where
  -- The scope that the columns of a key name: an inbox comes before a pod, and the pod of an inbox that
  -- has no column of its own is the pod of the row of the inbox.
  abbrev pub Names : AuthenticatedKey → k.World → Scope → Type 0
  Names key w (Scope.organization o) =
      (o ≡ key.organization_id) × (key.pod_id ≡ none) × (key.inbox_id ≡ none)
  Names key w (Scope.pod o p) =
      (o ≡ key.organization_id) × (key.pod_id ≡ some p) × (key.inbox_id ≡ none)
  Names key w (Scope.inbox o p i) =
      (o ≡ key.organization_id)
      × (key.inbox_id ≡ some i)
      × ((key.pod_id ≡ some p)
          ⊎ ((key.pod_id ≡ none)
              × ((row : Inbox) × ((k.get_inbox key.organization_id i w ≡ ok (some row))
                    × (row.pod_id ≡ p)))))

  -- The identity that a scope stands for.
  abbrev pub identity_at : String → Scope → Identity
  identity_at key (Scope.organization o) = record {
    api_key_id = some key;
    organization_id = o;
    scope_id = o;
    scope_type = ScopeType.organization;
    pod_id = none;
    inbox_id = none;
  }
  identity_at key (Scope.pod o p) = record {
    api_key_id = some key;
    organization_id = o;
    scope_id = pod_text p;
    scope_type = ScopeType.pod;
    pod_id = some p;
    inbox_id = none;
  }
  identity_at key (Scope.inbox o p i) = record {
    api_key_id = some key;
    organization_id = o;
    scope_id = i;
    scope_type = ScopeType.inbox;
    pod_id = some p;
    inbox_id = some i;
  }

  abbrev pub context_at : AuthenticatedKey → Scope → AuthContext
  context_at key scope = record {
    identity = identity_at key.api_key_id scope;
    grants = from_wire key.permissions;
    scope = scope;
  }

  from_identity-identity_at :
      ((p : PodId) → parse_str (pod_text p) ≡ some p)
      → (key : String) (scope : Scope) → from_identity parse_str (identity_at key scope) ≡ ok scope
  from_identity-identity_at law key (Scope.organization o) =
      (from_identity_iff parse_str _ (Scope.organization o)).1 (refl, refl, refl, refl, refl)
  from_identity-identity_at law key (Scope.pod o p) =
      (from_identity_iff parse_str _ (Scope.pod o p)).1 (refl, refl, refl, refl, law p)
  from_identity-identity_at law key (Scope.inbox o p i) =
      (from_identity_iff parse_str _ (Scope.inbox o p i)).1 (refl, refl, refl, refl, refl)

  context_of-Names :
      ((p : PodId) → parse_str (pod_text p) ≡ some p)
      → (key : AuthenticatedKey) (w : k.World) (scope : Scope) → Names key w scope
      → context_of k parse_str pod_text key w ≡ ok (context_at key scope)
  unfolding context_of pod_of scope_id_of scope_type_of
  context_of-Names law key w (Scope.organization o) (a, b, c) =
      rw
        (
          a,
          b,
          c,
          from_identity-identity_at law key.api_key_id (Scope.organization key.organization_id),
        )
        refl
  context_of-Names law key w (Scope.pod o p) (a, b, c) =
      rw (a, b, c, from_identity-identity_at law key.api_key_id (Scope.pod key.organization_id p))
        refl
  context_of-Names law key w (Scope.inbox o p i) (a, b, inl c) =
      rw
        (
          a,
          b,
          c,
          from_identity-identity_at law key.api_key_id (Scope.inbox key.organization_id p i),
        )
        refl
  context_of-Names law key w (Scope.inbox o p i) (a, b, inr (c, (row, (d, e)))) =
      rw
        (
          a,
          b,
          c,
          d,
          e,
          from_identity-identity_at law key.api_key_id (Scope.inbox key.organization_id p i),
        )
        refl

  pod_of-inbox :
      (key : AuthenticatedKey) (w : k.World) (i : InboxId)
      → key.pod_id ≡ none
      → key.inbox_id ≡ some i
      → pod_of k parse_str pod_text key w ≡ inbox_pod (k.get_inbox key.organization_id i w)
  unfolding pod_of
  pod_of-inbox key w i e f = rw (e, f) refl

  context_of-err :
      (key : AuthenticatedKey) (w : k.World) (r : AuthRejection)
      → pod_of k parse_str pod_text key w ≡ err r
      → context_of k parse_str pod_text key w ≡ err r
  unfolding context_of
  context_of-err key w r h = rw (h) refl

  -- A key that names no scope, since the row of its inbox is not found, has no context.
  context_of_sound :
      ((p : PodId) → parse_str (pod_text p) ≡ some p)
      → (key : AuthenticatedKey) (w : k.World) (ctx : AuthContext)
      → context_of k parse_str pod_text key w ≡ ok ctx
      → Names key w ctx.scope × (ctx ≡ context_at key ctx.scope)
  context_of_sound law key w ctx h = elim (Option-cases key.pod_id) [
    | inr (p, e) ↦ elim (Option-cases key.inbox_id) [
      | inr (i, f) ↦ named (Scope.inbox key.organization_id p i) (refl, f, inl e)
      | inl f ↦ named (Scope.pod key.organization_id p) (refl, e, f)
    ]
    | inl e ↦ elim (Option-cases key.inbox_id) [
      | inl f ↦ named (Scope.organization key.organization_id) (refl, e, f)
      | inr (i, f) ↦ elim (Result-cases (k.get_inbox key.organization_id i w)) [
        | inr (e1, g) ↦
            absurd
              (cc (context_of-err key w (app e1) (pod_of-inbox key w i e f ∙ ap inbox_pod g), h))
        | inl (o, g) ↦ elim (Option-cases o) [
          | inl n ↦ absurd (
              cc (
                context_of-err key w (gateway forbidden)
                    (pod_of-inbox key w i e f ∙ ap inbox_pod (g ∙ ap ok n)),
                h,
              ))
          | inr (row, n) ↦
              named (Scope.inbox key.organization_id row.pod_id i)
                (refl, f, inr (e, (row, (g ∙ ap ok n, refl))))
        ]
      ]
    ]
  ]
    where
      named :
          (scope : Scope)
          → Names key w scope
          → Names key w ctx.scope × (ctx ≡ context_at key ctx.scope)
      named scope n =
          subst (λ c. Names key w c.scope × (c ≡ context_at key c.scope))
            (ok_injective _ _ (sym (context_of-Names law key w scope n) ∙ h)) (n, refl)

  -- A request is admitted with a context: its header holds a secret that the store knows, and the
  -- context is that of the scope which the key names once it is marked as used.
  pub record IsAdmitted (header : Option (Option Text)) (w : k.World) (ctx : AuthContext)
      : Type 0 where
    pub presented : Text
    pub key : AuthenticatedKey
    pub is_bearer : header ≡ some (some (bearer_scheme ++ presented))
    pub is_known : k.authenticate presented w ≡ ok (some key)
    pub names : Names key (k.touch_used_at key.api_key_id w) ctx.scope
    pub is_context : ctx ≡ context_at key ctx.scope

  admitted :
      ((p : PodId) → parse_str (pod_text p) ≡ some p)
      → (header : Option (Option Text)) (w : k.World) (ctx : AuthContext) → IsAdmitted header w ctx
      → (from_request_parts k parse_str pod_text header w).0 ≡ ok ctx
  unfolding from_request_parts
  admitted law header w ctx a =
      rw (a.is_bearer, from_request_parts, strip_start-append bearer_scheme a.presented, a.is_known)
        (context_of-Names law a.key _ ctx.scope a.names ∙ ap ok (sym a.is_context))

  admits_only :
      ((p : PodId) → parse_str (pod_text p) ≡ some p)
      → (header : Option (Option Text)) (w : k.World) (ctx : AuthContext)
      → (from_request_parts k parse_str pod_text header w).0 ≡ ok ctx
      → IsAdmitted header w ctx
  unfolding from_request_parts
  admits_only law none w ctx h = cc
  admits_only law (some none) w ctx h = cc
  admits_only law (some (some value)) w ctx h =
      elim (Option-cases (strip_start bearer_scheme value)) [
        | inl n ↦ absurd cc
        | inr (presented, e) ↦
            known presented e (k.authenticate presented w) refl
              (sym (ap (λ o. (presented_as k parse_str pod_text o w).0) e) ∙ h)
      ]
    where
      known :
          (presented : Text)
          → strip_start bearer_scheme value ≡ some presented
          → (r : Result (Option AuthenticatedKey) Text) → k.authenticate presented w ≡ r
          → (with_key k parse_str pod_text r w).0 ≡ ok ctx
          → IsAdmitted (some (some value)) w ctx
      known presented e (err x) r h1 = cc
      known presented e (ok none) r h1 = cc
      known presented e (ok (some key)) r h1 =
          let (n, c) = context_of_sound law key (k.touch_used_at key.api_key_id w) ctx h1 in
          record {
            presented = presented;
            key = key;
            is_bearer = ap (λ v. some (some v)) (strip_start_sound bearer_scheme value presented e);
            is_known = r;
            names = n;
            is_context = c;
          }

  bind_forbid :
      {A : Type 0} (r : Result Scope ScopeResolutionError) (f : Scope → A)
      → (forbid r >>= λ x. ok (f x)) ≢ err panicked
  bind_forbid (ok x) f h = cc
  bind_forbid (err e) f h = cc

  context_of-settled :
      (key : AuthenticatedKey) (w : k.World) (pod_id : Option PodId) (scope_id : Text)
      → pod_of k parse_str pod_text key w ≡ ok pod_id
      → scope_id_of k parse_str pod_text key pod_id ≡ ok scope_id
      → context_of k parse_str pod_text key w ≢ err panicked
  unfolding context_of
  context_of-settled key w pod_id scope_id a b = rw (a, b) (bind_forbid _ _)

  scope_id_of-inbox :
      (key : AuthenticatedKey) (pod_id : Option PodId) (i : InboxId)
      → key.inbox_id ≡ some i
      → scope_id_of k parse_str pod_text key pod_id ≡ ok i
  unfolding scope_id_of scope_type_of
  scope_id_of-inbox key pod_id i e = rw (e) refl

  -- The `expect`s hold: an inbox scope has an inbox, and a pod scope a pod.
  context_of-calm :
      (key : AuthenticatedKey) (w : k.World) → context_of k parse_str pod_text key w ≢ err panicked
  unfolding pod_of scope_id_of scope_type_of
  context_of-calm key w = elim (Option-cases key.inbox_id) [
    | inl f ↦ elim (Option-cases key.pod_id) [
      | inl e ↦ context_of-settled key w none key.organization_id (rw (e, f) refl) (rw (f, e) refl)
      | inr (p, e) ↦ context_of-settled key w (some p) (pod_text p) (rw (e) refl) (rw (f, e) refl)
    ]
    | inr (i, f) ↦ elim (Option-cases key.pod_id) [
      | inr (p, e) ↦
          context_of-settled key w (some p) i (rw (e) refl) (scope_id_of-inbox key (some p) i f)
      | inl e ↦ of_row i f (k.get_inbox key.organization_id i w) (pod_of-inbox key w i e f)
    ]
  ]
    where
      of_row :
          (i : InboxId)
          → key.inbox_id ≡ some i
          → (r : Result (Option Inbox) Text) → pod_of k parse_str pod_text key w ≡ inbox_pod r
          → context_of k parse_str pod_text key w ≢ err panicked
      of_row i f (err e) h g = cc (context_of-err key w (app e) h, g)
      of_row i f (ok none) h g = cc (context_of-err key w (gateway forbidden) h, g)
      of_row i f (ok (some row)) h g =
          context_of-settled key w (some row.pod_id) i h
            (scope_id_of-inbox key (some row.pod_id) i f) g

  with_key-calm :
      (r : Result (Option AuthenticatedKey) Text) (w : k.World)
      → (with_key k parse_str pod_text r w).0 ≢ err panicked
  with_key-calm (err e) w h = cc
  with_key-calm (ok none) w h = cc
  with_key-calm (ok (some key)) w h = context_of-calm key _ h

  from_request_parts-calm :
      (header : Option (Option Text)) (w : k.World)
      → (from_request_parts k parse_str pod_text header w).0 ≢ err panicked
  unfolding from_request_parts
  from_request_parts-calm none w h = cc
  from_request_parts-calm (some none) w h = cc
  from_request_parts-calm (some (some value)) w h = bearing (strip_start bearer_scheme value) h
    where
      bearing : (o : Option Text) → (presented_as k parse_str pod_text o w).0 ≢ err panicked
      bearing none g = cc
      bearing (some presented) g = with_key-calm (k.authenticate presented w) w g

  -- Where the text of a pod's id is read back as that id: a request is admitted exactly if its header
  -- is `Bearer` and a secret that the store knows, and the key names a scope, its own inbox, else its
  -- own pod, else its organization; the context is then that of the scope, with the grants of the key.
  -- No `expect` panics.
  pub from_request_parts_lem :
      ((p : PodId) → parse_str (pod_text p) ≡ some p)
      → (header : Option (Option Text)) (w : k.World)
      → ((ctx : AuthContext)
          → ((from_request_parts k parse_str pod_text header w).0 ≡ ok ctx)
            ↔ IsAdmitted header w ctx)
        × ((from_request_parts k parse_str pod_text header w).0 ≢ err panicked)
  from_request_parts_lem law header w = (
    (λ ctx. (admits_only law header w ctx, admitted law header w ctx)),
    from_request_parts-calm header w,
  )
