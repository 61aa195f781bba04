-- ===== src/Apply/Policies/Rows.antt =====
-- The policy rows under activation and deactivation.
use varsten.Prelude.{
  ℕ, String, ◌≡◌, refl, ap, ◌∙◌, ◌≢◌, ◌↔◌, ◌⊎◌, inl, inr, Bool, true, false, ◌&&◌, Option, none,
  some, List, [], ◌∷◌, arith, str_eq, eq_iff, if◌then◌else◌, Bool-cases, str_eq_ne, All,
}
use varsten.Proxy.Canary.{Settings}
use varsten.Apply.Records.{Lever, lever_eq, Recommendation, PolicyParams, ProxyPolicy, ok}
use varsten.Apply.Policies.{
  PolicyKey, has_key, find_policy, no_params, activated, write_policy, text_of,
  activate_trim_policy, trim_live, compression_model, activate_compression_policy, disable_where,
  is_sourced, deactivate_rules, deactivate_lever, deactivate_execution,
}

abbrev pub key_of : ProxyPolicy → PolicyKey
key_of p = record {
  project_id = p.project_id;
  lever = p.lever;
  target_key = p.target_key;
  route_key = p.route_key;
}

lever_eq_iff : (a b : Lever) → (lever_eq a b ≡ true) ↔ (a ≡ b)
lever_eq_iff Lever.smart_routing b = ground arith
lever_eq_iff a b = ground arith

has_key_iff : (k : PolicyKey) (p : ProxyPolicy) → (has_key k p ≡ true) ↔ (key_of p ≡ k)
unfolding has_key
has_key_iff k p = ground (
  arith,
  eq_iff p.project_id k.project_id,
  lever_eq_iff p.lever k.lever,
  eq_iff p.target_key k.target_key,
  eq_iff p.route_key k.route_key,
)

activated-key :
    (cfg : Settings) (k : PolicyKey) (params : PolicyParams → PolicyParams) (rec : String) (now : ℕ)
    (p : ProxyPolicy)
    → key_of p ≡ k
    → key_of (activated cfg k params rec now (some p)) ≡ k
unfolding activated
activated-key cfg k params rec now p e = ground arith

-- A written policy is found under its key as the activation of what was there, and no other key is
-- touched.
write_policy-find :
    (cfg : Settings) (j k : PolicyKey) (params : PolicyParams → PolicyParams) (rec : String)
    (now : ℕ) (ps : List ProxyPolicy)
    → let ps' = write_policy cfg k params rec now ps in
      (find_policy k ps' ≡ some (activated cfg k params rec now (find_policy k ps)))
      × (j ≢ k → find_policy j ps' ≡ find_policy j ps)
unfolding find_policy write_policy activated
write_policy-find cfg j k params rec now [] = ground (
  arith,
  has_key_iff k (activated cfg k params rec now none),
  has_key_iff j (activated cfg k params rec now none),
)
write_policy-find cfg j k params rec now (p ∷ ps) = ground (
  arith,
  has_key_iff k p,
  has_key_iff j p,
  has_key_iff k (activated cfg k params rec now (some p)),
  has_key_iff j (activated cfg k params rec now (some p)),
  activated-key cfg k params rec now p,
  write_policy-find cfg j k params rec now ps,
)

-- No policy that a recommendation is the source of is left on.
abbrev pub NoneLive : String → List ProxyPolicy → Type 0
NoneLive rec = All (λ p. p.source_recommendation_id ≡ rec → p.enabled ≡ false)

disable_where-NoneLive :
    (rec : String) (test : ProxyPolicy → Bool) (ps : List ProxyPolicy)
    → NoneLive rec ps
    → NoneLive rec (disable_where test ps)
unfolding disable_where
disable_where-NoneLive rec test [] h = tt
disable_where-NoneLive rec test (p ∷ ps) (h, hs) =
    (disabled_still (test p), disable_where-NoneLive rec test ps hs)
  where
    disabled_still :
        (b : Bool)
        → let q = if b then record p { enabled = false } else p in
          q.source_recommendation_id ≡ rec → q.enabled ≡ false
    disabled_still true e = refl
    disabled_still false e = h e

deactivate_rules-NoneLive :
    (rec : String) (ps : List ProxyPolicy) → NoneLive rec (deactivate_rules rec ps)
unfolding deactivate_rules disable_where
deactivate_rules-NoneLive rec [] = tt
deactivate_rules-NoneLive rec (p ∷ ps) =
    (λ e. ground (arith, eq_iff p.source_recommendation_id rec), deactivate_rules-NoneLive rec ps)

-- The policies of other recommendations are what they were.
abbrev pub others : String → List ProxyPolicy → List ProxyPolicy
others rec [] = []
others rec (p ∷ ps) = if is_sourced rec p then others rec ps else p ∷ others rec ps

disable_where-others :
    (rec : String) (test : ProxyPolicy → Bool) (ps : List ProxyPolicy)
    → ((p : ProxyPolicy) → test p ≡ true → is_sourced rec p ≡ true)
    → others rec (disable_where test ps) ≡ others rec ps
unfolding disable_where
disable_where-others rec test [] h = refl
disable_where-others rec test (p ∷ ps) h = ground (arith, h p, disable_where-others rec test ps h)

-- Dismissing or rolling back turns off every policy that the recommendation is the source of,
-- whatever its lever, and leaves the policies of all other recommendations as they were.
pub deactivate_execution-NoneLive :
    (rec : String) (ps : List ProxyPolicy)
    → NoneLive rec (deactivate_execution rec ps)
      × (others rec (deactivate_execution rec ps) ≡ others rec ps)
unfolding deactivate_execution deactivate_rules deactivate_lever
deactivate_execution-NoneLive rec ps =
    let rules = deactivate_rules rec ps in
    let trims = deactivate_lever Lever.token_trim rec rules in
    (
      disable_where-NoneLive rec
          (λ p. is_sourced rec p && lever_eq p.lever Lever.prompt_compression) trims
          (disable_where-NoneLive rec (λ p. is_sourced rec p && lever_eq p.lever Lever.token_trim)
            rules (deactivate_rules-NoneLive rec ps)),
      disable_where-others rec (λ p. is_sourced rec p && lever_eq p.lever Lever.prompt_compression)
            trims (λ p h. ground arith)
          ∙ disable_where-others rec (λ p. is_sourced rec p && lever_eq p.lever Lever.token_trim)
              rules (λ p h. ground arith)
          ∙ disable_where-others rec (is_sourced rec) ps (λ p h. h),
    )

abbrev pub compression_key : Recommendation → PolicyKey
compression_key rec = record {
  project_id = rec.project_id;
  lever = Lever.prompt_compression;
  target_key = compression_model rec;
  route_key = rec.route_key;
}

abbrev pub trim_key : Recommendation → PolicyKey
trim_key rec = record {
  project_id = rec.project_id;
  lever = Lever.token_trim;
  target_key = text_of rec.related_model;
  route_key = rec.route_key;
}

activated-live :
    (cfg : Settings) (k : PolicyKey) (params : PolicyParams → PolicyParams) (rec : String) (now : ℕ)
    (found : Option ProxyPolicy)
    → let p = activated cfg k params rec now found in
      (p.enabled ≡ true)
      × (p.params ≡ params (elim found [ none ↦ no_params | some q ↦ q.params ]))
      × (p.source_recommendation_id ≡ rec)
unfolding activated
activated-live cfg k params rec now none = (refl, refl, refl)
activated-live cfg k params rec now (some q) = (refl, refl, refl)

-- Activating prompt compression succeeds with a live policy of the artifact under the model's key, or
-- does nothing for want of an artifact or a model; in the first case no enabled trim policy of the
-- model stood on its route or the default one.
activate_compression-exclusive :
    (cfg : Settings) (rec : Recommendation) (artifact : String) (now : ℕ)
    (ps ps' : List ProxyPolicy)
    → activate_compression_policy cfg rec (some artifact) now ps ≡ ok ps'
    → let model = compression_model rec in
      let k = compression_key rec in
      ((model ≡ "") × (ps' ≡ ps))
      ⊎ ((trim_live rec.project_id model rec.route_key ps ≡ false)
          × ((p : ProxyPolicy) × (find_policy k ps' ≡ some p)
              × (p.enabled ≡ true)
              × (p.params.artifact_id ≡ some artifact)
              × (p.source_recommendation_id ≡ rec.id)))
unfolding activate_compression_policy
activate_compression-exclusive cfg rec artifact now ps ps' e =
    let model = compression_model rec in
    let k : PolicyKey = compression_key rec in
    let set : PolicyParams → PolicyParams = λ old. record old { artifact_id = some artifact } in
    elim (Bool-cases (str_eq model "")) [
      | inl no_model ↦ inl ((eq_iff model "").0 no_model, ground arith)
      | inr named ↦ elim (Bool-cases (trim_live rec.project_id model rec.route_key ps)) [
        | inl live ↦ absurd (ground arith)
        | inr free ↦
            let written : ps' ≡ write_policy cfg k set rec.id now ps = ground arith in
            let p = activated cfg k set rec.id now (find_policy k ps) in
            let found : find_policy k ps' ≡ some p =
              rw written (write_policy-find cfg k k set rec.id now ps).0 in
            let (on, params, source) = activated-live cfg k set rec.id now (find_policy k ps) in
            inr (free, (p, found, on, ap (λ x. x.artifact_id) params, source))
      ]
    ]

-- The other order is not refused: activating token trim for a model leaves a live compression policy
-- on, so that both body transforms are then live on one model and route.
pub trim_beside_compression :
    (cfg : Settings) (rec : Recommendation) (now : ℕ) (ps : List ProxyPolicy) (k : PolicyKey)
    {c : ProxyPolicy}
    → text_of rec.related_model ≢ ""
    → k.lever ≡ Lever.prompt_compression
    → k.target_key ≡ text_of rec.related_model
    → find_policy k ps ≡ some c
    → c.enabled ≡ true
    → let ps' = activate_trim_policy cfg rec now ps in
      (find_policy k ps' ≡ some c)
      × ((p : ProxyPolicy) × (find_policy (trim_key rec) ps' ≡ some p) × (p.enabled ≡ true))
unfolding activate_trim_policy
trim_beside_compression cfg rec now ps k named lever target found on =
    let same : PolicyParams → PolicyParams = λ old. old in
    let written = write_policy-find cfg k (trim_key rec) same rec.id now ps in
    let live = activated-live cfg (trim_key rec) same rec.id now (find_policy (trim_key rec) ps) in
    rw (str_eq_ne (text_of rec.related_model) "" named) (
      written.1 (λ e. trim_key_ne k rec lever e) ∙ found,
      (
        activated cfg (trim_key rec) same rec.id now (find_policy (trim_key rec) ps),
        written.0,
        live.0,
      ),
    )
  where
    trim_key_ne :
        (k : PolicyKey) (rec : Recommendation)
        → k.lever ≡ Lever.prompt_compression
        → k ≡ trim_key rec
        → ⊥
    trim_key_ne k rec lever e = ground arith
