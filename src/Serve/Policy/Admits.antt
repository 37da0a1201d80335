-- ===== src/Serve/Policy/Admits.antt =====
-- What the admission of hydralisk/serve/proxy.py lets through.
use mathlib.Core.Path.{subst}
use hydralisk.Prelude.{
  ◌≡◌, ◌∙◌, sym, ap, some_path, refl, ◌⊎◌, inl, inr, ◌↔◌, arith, String, true, false, Option, none,
  some, List, [], ◌∷◌, str_eq, eq_iff, Option-cases, if_cases,
}
use hydralisk.Json.{Json, Fields, null, bool, int, float, str, arr, obj, get}
use hydralisk.Text.{strip, is_blank, is_in}
use hydralisk.Serve.Settings.{HydraliskSettings}
use hydralisk.Serve.Policy.{
  Denial, Admitted, check_policy, admitted, denied, PolicyContext, admit_policy,
  required_policy_string, policy_text, fields?, or_get, context_in, deny_if, ◌>>◌,
  scope_not_allowed, tool_policy_not_allowed, network_policy_not_allowed, security_context,
  excludes, readiness_blockers, require_ready, is_falsy, require_bearer,
}

-- Under one of the keys the source has a text that is the name, without the blanks around it.
abbrev pub IsNamed : Fields → List String → String → Type 0
IsNamed source keys name =
    (key : String) × (text : String) × (is_in key keys ≡ true)
    × (get key source ≡ some (str text))
    × (strip text ≡ name)
    × (is_blank name ≡ false)

policy_text-str :
    (v : Option Json) (s : String)
    → policy_text v ≡ some s
    → (text : String) × (v ≡ some (str text)) × (strip text ≡ s) × (is_blank s ≡ false)
policy_text-str (some (str t)) s e = (t, refl, ground (arith, e), ground (arith, e))
policy_text-str none s e = absurd (cc)
policy_text-str (some null) s e = absurd (cc)
policy_text-str (some (bool b)) s e = absurd (cc)
policy_text-str (some (int z)) s e = absurd (cc)
policy_text-str (some (float z)) s e = absurd (cc)
policy_text-str (some (arr vs)) s e = absurd (cc)
policy_text-str (some (obj vs)) s e = absurd (cc)

required_policy_string-IsNamed :
    (source : Fields) (keys : List String) (s : String)
    → required_policy_string source keys ≡ admitted s
    → IsNamed source keys s
unfolding required_policy_string
required_policy_string-IsNamed source [] s e = absurd (ground (arith, e))
required_policy_string-IsNamed source (k ∷ keys) s e =
    elim (Option-cases (policy_text (get k source))) [
      | inl n ↦
          let h = required_policy_string-IsNamed source keys s (ground (arith, n, e)) in
          (h.0, h.1, ground (arith, h.2), h.3, h.4, h.5)
      | inr (t, f) ↦
          let h = policy_text-str (get k source) s (ground (arith, f, e)) in
          (k, h.0, ground (arith, eq_iff k k), h.1, h.2, h.3)
    ]

-- The admission has what the context names, and each is one that the lane allows.
pub record IsAllowed (context : Fields) (config : HydraliskSettings) (c : PolicyContext)
    : Type 0 where
  pub scope : IsNamed context ("scopeId" ∷ "scope_id" ∷ []) c.scope_id
  pub authorization :
      IsNamed context
        ("authorizationRef" ∷ "authorization_ref" ∷ "labRunId" ∷ "lab_run_id" ∷ [])
        c.authorization_ref
  pub tool : IsNamed context ("toolPolicy" ∷ "tool_policy" ∷ []) c.tool_policy
  pub network : IsNamed context ("networkPolicy" ∷ "network_policy" ∷ []) c.network_policy
  pub scope_allowed :
      (config.authorized_security_scope_ids ≡ [])
      ⊎ (is_in c.scope_id config.authorized_security_scope_ids ≡ true)
  pub tool_allowed :
      (config.authorized_security_tool_policies ≡ [])
      ⊎ (is_in c.tool_policy config.authorized_security_tool_policies ≡ true)
  pub network_allowed :
      (config.authorized_security_network_policies ≡ [])
      ⊎ (is_in c.network_policy config.authorized_security_network_policies ≡ true)

-- The payload's metadata is an object with the context, an object too, under one of its two keys.
abbrev pub IsContext : Fields → Fields → Type 0
IsContext payload context =
    (metadata : Fields) × (get "metadata" payload ≡ some (obj metadata))
    × ((get "hydraliskAuthorizedSecurity" metadata ≡ some (obj context))
        ⊎ (get "hydralisk_authorized_security" metadata ≡ some (obj context)))

abbrev pub IsLab : HydraliskSettings → Type 0
IsLab config = str_eq config.model_policy "authorized_security_lab_only" ≡ true

abbrev pub Follows : Fields → HydraliskSettings → Option PolicyContext → Type 0
Follows payload config none = str_eq config.model_policy "authorized_security_lab_only" ≡ false
Follows payload config (some c) =
    IsLab config × ((context : Fields) × IsContext payload context × IsAllowed context config c)

fields?_obj : (v : Option Json) (fields : Fields) → fields? v ≡ some fields → v ≡ some (obj fields)
fields?_obj (some (obj vs)) fields e = ap (λ o. some (obj o)) (some_path e)
fields?_obj none fields e = absurd (cc)
fields?_obj (some null) fields e = absurd (cc)
fields?_obj (some (bool b)) fields e = absurd (cc)
fields?_obj (some (int z)) fields e = absurd (cc)
fields?_obj (some (float z)) fields e = absurd (cc)
fields?_obj (some (arr vs)) fields e = absurd (cc)
fields?_obj (some (str s)) fields e = absurd (cc)

or_get_either :
    (v w : Option Json) (fields : Fields)
    → or_get v w ≡ some (obj fields)
    → (v ≡ some (obj fields)) ⊎ (w ≡ some (obj fields))
or_get_either none w fields e = inr e
or_get_either (some null) w fields e = inr e
or_get_either (some (obj vs)) w fields e = inl e
or_get_either (some (bool b)) w fields e = absurd (cc)
or_get_either (some (int z)) w fields e = absurd (cc)
or_get_either (some (float z)) w fields e = absurd (cc)
or_get_either (some (arr vs)) w fields e = absurd (cc)
or_get_either (some (str s)) w fields e = absurd (cc)

security_context-IsContext :
    (payload context : Fields) → security_context payload ≡ some context → IsContext payload context
security_context-IsContext payload context e =
    elim (Option-cases (fields? (get "metadata" payload))) [
      | inl n ↦ absurd (ground (arith, n, e))
      | inr (metadata, f) ↦ (
        metadata,
        fields?_obj (get "metadata" payload) metadata f,
        or_get_either (get "hydraliskAuthorizedSecurity" metadata)
            (get "hydralisk_authorized_security" metadata) context
            (fields?_obj _ context (ap (λ m. fields? (context_in m)) (sym f) ∙ e)),
      )
    ]

excludes_allows :
    (xs : List String) (s : String) → excludes xs s ≡ false → (xs ≡ []) ⊎ (is_in s xs ≡ true)
excludes_allows [] s e = inl refl
excludes_allows (x ∷ xs) s e = inr (ground (arith, e))

Admitted-cases :
    {A : Type 0} (r : Admitted A) → ((a : A) × (r ≡ admitted a)) ⊎ ((d : Denial) × (r ≡ denied d))
Admitted-cases (admitted a) = inl (a, refl)
Admitted-cases (denied d) = inr (d, refl)

abbrev context_with : String → String → String → String → PolicyContext
context_with s a t n = record {
  scope_id = s;
  authorization_ref = a;
  tool_policy = t;
  network_policy = n;
}

check_policy-IsAllowed :
    (context : Fields) (config : HydraliskSettings) (c : PolicyContext)
    → check_policy context config ≡ admitted c
    → IsAllowed context config c
check_policy-IsAllowed context config c e = elim (Admitted-cases scope) [
  | inr (d, f) ↦ absurd (ground (arith, e, f))
  | inl (s, fs) ↦ elim (Admitted-cases authorization) [
    | inr (d, f) ↦ absurd (ground (arith, e, fs, f))
    | inl (a, fa) ↦ elim (Admitted-cases tool) [
      | inr (d, f) ↦ absurd (ground (arith, e, fs, fa, f))
      | inl (t, ft) ↦ elim (Admitted-cases network) [
        | inr (d, f) ↦ absurd (ground (arith, e, fs, fa, ft, f))
        | inl (n, fn) ↦
            let (allowed, same) = allowed_by s a t n (ground (arith, e, fs, fa, ft, fn)) in
            subst (IsAllowed context config) same (record {
              scope = required_policy_string-IsNamed context _ s fs;
              authorization = required_policy_string-IsNamed context _ a fa;
              tool = required_policy_string-IsNamed context _ t ft;
              network = required_policy_string-IsNamed context _ n fn;
              scope_allowed = allowed.0;
              tool_allowed = allowed.1;
              network_allowed = allowed.2;
            })
      ]
    ]
  ]
]
  where
    allowed_by :
        (s a t n : String)
        → (deny_if (excludes config.authorized_security_scope_ids s) scope_not_allowed
            >> deny_if (excludes config.authorized_security_tool_policies t) tool_policy_not_allowed
            >> deny_if
                (excludes config.authorized_security_network_policies n)
                network_policy_not_allowed
            >> admitted (context_with s a t n))
          ≡ admitted c
        → (((config.authorized_security_scope_ids ≡ [])
              ⊎ (is_in s config.authorized_security_scope_ids ≡ true))
            × ((config.authorized_security_tool_policies ≡ [])
                ⊎ (is_in t config.authorized_security_tool_policies ≡ true))
            × ((config.authorized_security_network_policies ≡ [])
                ⊎ (is_in n config.authorized_security_network_policies ≡ true)))
          × (context_with s a t n ≡ c)
    allowed_by s a t n g = (
      (
        excludes_allows config.authorized_security_scope_ids s (ground (arith, g)),
        excludes_allows config.authorized_security_tool_policies t (ground (arith, g)),
        excludes_allows config.authorized_security_network_policies n (ground (arith, g)),
      ),
      ground (arith, g),
    )

    scope : Admitted String
    scope = required_policy_string context ("scopeId" ∷ "scope_id" ∷ [])

    authorization : Admitted String
    authorization =
        required_policy_string context
          ("authorizationRef" ∷ "authorization_ref" ∷ "labRunId" ∷ "lab_run_id" ∷ [])

    tool : Admitted String
    tool = required_policy_string context ("toolPolicy" ∷ "tool_policy" ∷ [])

    network : Admitted String
    network = required_policy_string context ("networkPolicy" ∷ "network_policy" ∷ [])

-- Fail closed: under the authorized-security policy a payload that is admitted has metadata with a
-- context, under one of its two keys, in which each of the scope, the authorization, the tool policy
-- and the network policy of the admission stands as a text under a key of its own, without the blanks
-- around it and not blank, and the scope and the policies are in the lane's lists where it has any;
-- a lane without that policy admits without a context.
pub admit_policy-Follows :
    (payload : Fields) (config : HydraliskSettings) (r : Option PolicyContext)
    → admit_policy payload config ≡ admitted r
    → Follows payload config r
unfolding admit_policy
admit_policy-Follows payload config r =
    if_cases (λ o. o ≡ admitted r → Follows payload config r)
      (str_eq config.model_policy "authorized_security_lab_only") _ _
      (λ lab e. elim (Option-cases (security_context payload)) [
        | inl n ↦ absurd (ground (arith, n, e))
        | inr (context, f) ↦ elim (Admitted-cases (check_policy context config)) [
          | inr (d, g) ↦ absurd (ground (arith, f, g, e))
          | inl (c, g) ↦ subst (Follows payload config) {x = some c} (ground (arith, f, g, e)) (
            lab,
            (
              context,
              security_context-IsContext payload context f,
              check_policy-IsAllowed context config c g,
            ),
          )
        ]
      ])
      (λ other e. subst (Follows payload config) {x = none} (ground (arith, e)) other)

-- A lane is ready exactly if it asks for no evidence, or its model revision and engine version are
-- pinned and its profile, container image, admission, evidence and receipt directory are named.
pub require_ready_iff :
    (config : HydraliskSettings)
    → (require_ready config ≡ admitted tt) ↔ (
        (config.require_profile_evidence ≡ false)
        ⊎ (str_eq config.model_revision "unknown_model_revision" ≡ false)
          × (str_eq config.engine_version "unknown_engine_version" ≡ false)
          × (is_falsy config.model_profile_ref ≡ false)
          × (is_falsy config.container_image ≡ false)
          × (is_falsy config.admission_ref ≡ false)
          × (is_falsy config.evidence_ref ≡ false)
          × (is_blank (strip config.receipt_dir) ≡ false))
unfolding require_ready readiness_blockers
require_ready_iff config = ground arith

-- A request passes the bearer check exactly if it carries the lane's token, or the lane has none and
-- is marked insecure.
pub require_bearer_iff :
    (bearer : Option String) (config : HydraliskSettings)
    → (require_bearer bearer config ≡ admitted tt) ↔ (
        ((config.bearer_token ≡ none) × (config.allow_insecure_dev ≡ true))
        ⊎ ((token : String) × (config.bearer_token ≡ some token) × (bearer ≡ some token)))
unfolding require_bearer
require_bearer_iff bearer config = elim (Option-cases config.bearer_token) [
  | inl e ↦ ground (arith, e)
  | inr (token, e) ↦ elim (Option-cases bearer) [
    | inl f ↦ ground (arith, e, f)
    | inr (b, f) ↦ ground (arith, e, f, eq_iff b token)
  ]
]
