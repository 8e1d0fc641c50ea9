-- ===== src/Inspection/Contracts/Evidence.antt =====
-- inspection/contracts.py: what a verdict leaves as evidence (`Verdict.evidence`).
use Prim.Native.String.{compare, ◌++◌ as str_append}
use Prim.Native.Nat.{Ordering}
use Prim.Native.String.compare
use ai_security_gateway.Base.{
  String, ◌≡◌, refl, Bool, ◌&&◌, ◌||◌, not, Option, none, some, List, [], ◌∷◌, contains, arith,
  eq_iff, str_eq,
}
use ai_security_gateway.Inspection.Contracts.{
  Verdict, Action, allow, block, redact, approval_required, unknown, Mode, inline, mirror, Coverage,
  AuthorizationScope, PiiAction, PiiScope, is_inline, is_unknown,
}

-- The dict that `evidence` returns.
pub record Evidence : Type 0 where
  pub mode : Mode
  pub phase : String
  pub decision : Action
  pub hypothetical_action : Option String
  pub enforcement_applied : Bool
  pub enforcement_requested : Bool
  pub reason : String
  pub coverage : Coverage
  pub identity_verified : Bool
  pub source_verified : Bool
  pub authorization_scope : AuthorizationScope
  pub pii_policy_action : Option PiiAction
  pub pii_policy_scope : Option PiiScope
  pub request_digest : Option String
  pub entities : List String
  pub tool : Option String
  pub access_action : Option String
  pub approval_id : Option String

abbrev action_name : Action → String
action_name allow = "allow"
action_name block = "block"
action_name redact = "redact"
action_name approval_required = "approval_required"
action_name unknown = "unknown"

-- `sorted(set(texts))`, by insertion.
unfoldable pub insert_new : String → List String → List String
insert_new t [] = t ∷ []
insert_new t (u ∷ us) =
    let rest = insert_new t us in
    elim (compare t u) [ Ordering.lt ↦ t ∷ u ∷ us | Ordering.eq ↦ u ∷ us | Ordering.gt ↦ u ∷ rest ]

unfoldable pub sorted_set : List String → List String
sorted_set [] = []
sorted_set (t ∷ ts) = insert_new t (sorted_set ts)

abbrev when_inline : {A : Type 0} → Mode → Option A → Option A
when_inline inline o = o
when_inline mirror o = none

-- `evidence`
unfoldable pub evidence : String → Bool → Verdict → Evidence
evidence phase applied v = record {
  mode = v.mode;
  phase = phase;
  decision = v.action;
  hypothetical_action = elim v.mode [
    | inline ↦ none
    | mirror ↦ some (str_append "would_" (action_name v.action))
  ];
  enforcement_applied = applied && is_inline v.mode;
  enforcement_requested = is_inline v.mode && not (is_unknown v.action);
  reason = v.reason;
  coverage = v.coverage;
  identity_verified = v.identity_verified;
  source_verified = v.source_verified;
  authorization_scope = v.authorization_scope;
  pii_policy_action = v.pii_policy_action;
  pii_policy_scope = v.pii_policy_scope;
  request_digest = v.request_digest;
  entities = sorted_set v.entities;
  tool = v.tool;
  access_action = v.access_action;
  approval_id = when_inline v.mode v.approval_id;
}

-- Text after text in the order of their code points, each once.
abbrev pub Ascending : List String → Type 0
Ascending [] = Unit {0}
Ascending (t ∷ []) = Unit {0}
Ascending (t ∷ u ∷ us) = (compare t u ≡ Ordering.lt) × Ascending (u ∷ us)

contains-insert_new :
    (t u : String) (us : List String) → contains (insert_new t us) u ≡ (str_eq t u || contains us u)
unfolding insert_new contains
contains-insert_new t u [] = ground arith
contains-insert_new t u (w ∷ us) =
    ground (arith, eq_iff t w, eq_iff t u, eq_iff w u, contains-insert_new t u us)

contains-sorted_set : (ts : List String) (u : String) → contains (sorted_set ts) u ≡ contains ts u
unfolding sorted_set contains
contains-sorted_set [] u = refl
contains-sorted_set (t ∷ ts) u =
    ground (arith, contains-insert_new t u (sorted_set ts), contains-sorted_set ts u)

-- The order of texts in one direction is that in the other.
compare-flip : (s t : String) → compare s t ≡ Ordering.gt → compare t s ≡ Ordering.lt
compare-flip String.[] String.[] h = ground arith
compare-flip String.[] (String.◌∷◌ d t) h = ground (arith, compare.nil-cons d t)
compare-flip (String.◌∷◌ c s) String.[] h = compare.nil-cons c s
compare-flip (String.◌∷◌ c s) (String.◌∷◌ d t) h =
    ground (arith, compare.cons-cons c d s t, compare.cons-cons d c t s, compare-flip s t)

insert_new-Ascending : (t : String) (us : List String) → Ascending us → Ascending (insert_new t us)
unfolding insert_new
insert_new-Ascending t [] a = tt
insert_new-Ascending t (u ∷ []) a = ground (arith, compare-flip t u)
insert_new-Ascending t (u ∷ w ∷ us) (l, a) =
    ground (arith, l, a, compare-flip t u, insert_new-Ascending t (w ∷ us) a)

sorted_set-Ascending : (ts : List String) → Ascending (sorted_set ts)
unfolding sorted_set
sorted_set-Ascending [] = tt
sorted_set-Ascending (t ∷ ts) = insert_new-Ascending t (sorted_set ts) (sorted_set-Ascending ts)

-- The evidence of a verdict names each type that was found once, in the order of the texts, and no other.
pub evidence-Ascending :
    (phase : String) (applied : Bool) (v : Verdict) (u : String)
    → Ascending (evidence phase applied v).entities
      × (contains (evidence phase applied v).entities u ≡ contains v.entities u)
unfolding evidence
evidence-Ascending phase applied v u =
    (sorted_set-Ascending v.entities, contains-sorted_set v.entities u)
