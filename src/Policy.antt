-- ===== src/Policy.antt =====
-- tg_testcase/scope_policy.py: a policy that `parse` has accepted, and `resolve`. The dictionaries are
-- lists of entries with their key; `parse` itself is not modelled.
use my_ops.Prelude.{
  ℕ, ◌++◌, String, Bool, not, Option, none, some, List, [], ◌∷◌, map, Result, ok, err, ◌>>=◌, ◌>>◌,
  contains, get_by, select, ◌==◌, string_eq,
}
use my_ops.Contract.{
  JobError, contract_error, contract_key_error, scope_denied, root_ambiguous, credential_stale,
  fail_if,
}
use my_ops.Job.{RootType}

pub record Root : Type 0 where
  pub root_type : RootType
  pub id : String

pub record Rule : Type 0 where
  pub actor : String
  pub operations : List String
  pub grants : List String

pub record Grant : Type 0 where
  pub ref : String
  pub workspace_ref : String
  pub credential_ref : String
  pub roots : List Root

pub record PolicyCredential : Type 0 where
  pub ref : String
  pub generation : ℕ
  pub enabled : Bool

pub record Policy : Type 0 where
  pub epoch : ℕ
  pub digest : String
  pub principals : List Rule
  pub grants : List Grant
  pub credentials : List PolicyCredential

pub record ScopeBinding : Type 0 where
  pub principal : String
  pub workspace_ref : String
  pub grant_ref : String
  pub credential_ref : String
  pub credential_generation : ℕ
  pub policy_epoch : ℕ
  pub policy_digest : String
  pub root_type : RootType
  pub root_id : String

-- `index[key]`
abbrev pub entry {ℓ} : {A : Type ℓ} → Option A → Result JobError A
entry none = err contract_key_error
entry (some a) = ok a

abbrev pub grant_ref : Grant → String
grant_ref g = g.ref

-- The list `matches`: the grants of a rule with their roots of this identifier.
unfoldable pub matches : Policy → String → List String → Result JobError (List (Grant × Root))
matches policy root_id [] = ok []
matches policy root_id (ref ∷ refs) = do
  grant ← entry (get_by grant_ref ref policy.grants)
  rest ← matches policy root_id refs
  ok (map (λ root. (grant, root)) (select (λ root. root.id == root_id) grant.roots) ++ rest)

-- `if not matches` and `if len(matches) != 1`
unfoldable pub only_match : List (Grant × Root) → Result JobError (Grant × Root)
only_match [] = err (contract_error scope_denied)
only_match (m ∷ []) = ok m
only_match (m ∷ n ∷ ms) = err (contract_error root_ambiguous)

unfoldable pub find_rule : Policy → String → String → Result JobError Rule
find_rule policy actor operation = elim (get_by (λ (r : Rule). r.actor) actor policy.principals) [
  | none ↦ err (contract_error scope_denied)
  | some rule ↦ do fail_if (not (contains rule.operations operation)) scope_denied; ok rule
]

unfoldable pub resolve : Policy → String → String → String → Result JobError ScopeBinding
unfolding find_rule matches only_match
resolve policy actor operation root_id = do
  rule ← find_rule policy actor operation
  found ← matches policy root_id rule.grants
  (grant, root) ← only_match found
  credential ←
      entry (get_by (λ (c : PolicyCredential). c.ref) grant.credential_ref policy.credentials)
  fail_if (not credential.enabled) credential_stale
  ok (record {
    principal = actor;
    workspace_ref = grant.workspace_ref;
    grant_ref = grant.ref;
    credential_ref = grant.credential_ref;
    credential_generation = credential.generation;
    policy_epoch = policy.epoch;
    policy_digest = policy.digest;
    root_type = root.root_type;
    root_id = root_id;
  })
