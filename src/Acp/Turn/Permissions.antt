-- ===== src/Acp/Turn/Permissions.antt =====
-- Which option a permission request is answered with.
use agentrun.Prelude.{
  ℕ, ◌≡◌, subst, Str, bytes, str_eq, str_eq_refl, Bool, true, false, ◌&&◌, ◌||◌, none, some, List,
  [], ◌∷◌, if◌then◌else◌, is_empty, contains, arith, Option-cases, Bool-cases, inl, inr,
}
use agentrun.Acp.Turn.{
  PermissionOpt, PermissionParams, readable, Verdict, decides, fails, Policy, Turn, selected,
  first_option_by_kind, select_permission_option, allow_kinds, reject_kinds, decide,
  handle_permission, request_of,
}

-- Whether an option with this id is of one of the kinds.
pub offers : List PermissionOpt → List Str → Str → Bool
offers [] kinds id = false
offers (opt ∷ options) kinds id =
    let rest = offers options kinds id in
    (str_eq opt.option_id id && contains kinds opt.kind) || rest

abbrev pub allowing : List Str
allowing = bytes "allow_once" ∷ bytes "allow_always" ∷ []

abbrev pub rejecting : List Str
rejecting = bytes "reject_once" ∷ bytes "reject_always" ∷ []

-- The kinds of option that a policy may answer with: those that allow, if the level or the handler
-- approves, those that reject, if the handler does not or there is none, and no kind, if it fails.
pub kinds_for : Policy → PermissionParams → List Str
kinds_for policy params =
    if str_eq policy.hitl (bytes "off") then allowing else elim policy.handler [
      | none ↦ rejecting
      | some handler ↦
          elim (handler (record {
            session_id = params.session_id;
            tool_name = params.title;
            tool_call_id = params.tool_call_id;
            description = params.tool_kind;
          })) [ fails err ↦ [] | decides approved ↦ if approved then allowing else rejecting ]
    ]

offers-first_option_by_kind :
    (options : List PermissionOpt) (kinds : List Str)
    → is_empty (first_option_by_kind options kinds) ≡ false
    → offers options kinds (first_option_by_kind options kinds) ≡ true
unfolding first_option_by_kind offers
offers-first_option_by_kind [] kinds h = cc
offers-first_option_by_kind (opt ∷ options) kinds h =
    ground (arith, offers-first_option_by_kind options kinds, str_eq_refl opt.option_id)

selected_inj : (i j : Str) → selected i ≡ selected j → i ≡ j
selected_inj i j e = cc

-- An option that is selected is one of those offered, of the kinds that were asked for.
offers-selected :
    (options : List PermissionOpt) (kinds : List Str) (id : Str)
    → select_permission_option options kinds ≡ selected id
    → offers options kinds id ≡ true
unfolding select_permission_option
offers-selected options kinds id e =
    elim (Bool-cases (is_empty (first_option_by_kind options kinds))) [
      | inl missing ↦ absurd (cc (rw (missing, select_permission_option) at e))
      | inr there ↦
          let same = selected_inj (first_option_by_kind options kinds) id (rw there at e) in
          subst (λ i. offers options kinds i ≡ true) same
            (offers-first_option_by_kind options kinds there)
    ]

decide-offers :
    (v : Verdict) (params : PermissionParams) (now : ℕ) (turn : Turn) (id : Str)
    → (decide v params now turn).0 ≡ selected id
    → offers params.options
        (elim v [ fails err ↦ [] | decides approved ↦ if approved then allowing else rejecting ])
        id
      ≡ true
unfolding decide
decide-offers (fails err) params now turn id e = absurd (cc e)
decide-offers (decides true) params now turn id e = offers-selected params.options allow_kinds id e
decide-offers (decides false) params now turn id e =
    offers-selected params.options reject_kinds id e

-- Whatever the policy, a request that is answered with an option is answered with one that the agent
-- offered: one that allows, if HITL is off or the handler approved, and one that rejects, if the handler
-- did not approve or there is none. If the handler fails, it is answered with none.
pub handle_permission-offers :
    (policy : Policy) (params : PermissionParams) (now : ℕ) (turn : Turn) (id : Str)
    → (handle_permission policy (readable params) now turn).0 ≡ selected id
    → offers params.options (kinds_for policy params) id ≡ true
unfolding handle_permission kinds_for
handle_permission-offers policy params now turn id e =
    elim (Bool-cases (str_eq policy.hitl (bytes "off"))) [
      | inl off ↦ rw off (offers-selected params.options allow_kinds id (rw off at e))
      | inr on ↦ elim (Option-cases policy.handler) [
        | inl missing ↦
            simp (on, missing)
              (offers-selected params.options reject_kinds id (simp (on, missing) at e))
        | inr (handler, found) ↦
            simp (on, found)
              (decide-offers (handler (request_of params)) params now turn id
                (simp (on, found) at e))
      ]
    ]
