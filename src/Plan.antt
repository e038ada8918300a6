-- ===== src/Plan.antt =====
-- crates/core/src/plan.rs: endpoints, actions and execution plans. An `EndpointId` is its bytes.
use commeatus.Prelude.{
  ℕ, ◌≤◌, ◌<◌, ◌≡◌, ◌↔◌, ◌⊎◌, Bool, true, false, not, ◌&&◌, ◌||◌, Option, none, some, [], ◌∷◌,
  arith, ltb, leb, ◌==◌, if◌then◌else◌, Bytes, length, all,
}

abbrev pub max_endpoint_id_length : ℕ
max_endpoint_id_length = 64

is_id_byte : ℕ → Bool
is_id_byte c =
    leb b'a' c && leb c b'z'
    || leb b'A' c && leb c b'Z'
    || leb b'0' c && leb c b'9'
    || c == b'-'
    || c == b'_'
    || c == b'.'

is_empty : Bytes → Bool
is_empty [] = true
is_empty (c ∷ cs) = false

-- `EndpointId::new`; `none` is `EndpointIdError`
unfoldable pub new_endpoint_id : Bytes → Option Bytes
unfolding is_empty is_id_byte
new_endpoint_id value =
    if is_empty value || ltb max_endpoint_id_length (length value) || not (all is_id_byte value)
    then none
    else some value

abbrev Within : ℕ → ℕ → ℕ → Type 0
Within lo hi c = (lo ≤ c) × (c ≤ hi)

-- A letter, a digit, `-`, `_` or `.`.
abbrev pub IsIdByte : ℕ → Type 0
IsIdByte c =
    Within b'a' b'z' c
    ⊎ Within b'A' b'Z' c
    ⊎ Within b'0' b'9' c
    ⊎ (c ≡ b'-')
    ⊎ (c ≡ b'_')
    ⊎ (c ≡ b'.')

abbrev pub AllIdBytes : Bytes → Type 0
AllIdBytes [] = Unit
AllIdBytes (c ∷ cs) = IsIdByte c × AllIdBytes cs

all_iff : (s : Bytes) → (all is_id_byte s ≡ true) ↔ AllIdBytes s
unfolding is_id_byte
all_iff [] = ground arith
all_iff (c ∷ cs) = ground (arith, all_iff cs)

-- An id is accepted, as it stands, exactly if it has 1 to 64 bytes, each a letter, a digit, `-`,
-- `_` or `.`.
pub new_endpoint_id_accepts :
    (value id : Bytes)
    → (new_endpoint_id value ≡ some id)
      ↔ ((id ≡ value) × (0 < length value) × (length value ≤ 64) × AllIdBytes value)
unfolding new_endpoint_id
new_endpoint_id_accepts [] id = ground arith
new_endpoint_id_accepts (c ∷ cs) id = ground (arith, all_iff (c ∷ cs))

pub data Endpoint : Type 0 where
  direct : Endpoint
  proxy : Bytes → Endpoint

pub data RejectReason : Type 0 where
  policy security unsupported : RejectReason

pub data ExecutionAction : Type 0 where
  route : Endpoint → ExecutionAction
  reject : RejectReason → ExecutionAction

-- crates/core/src/policy.rs: `PolicyTier`
pub data PolicyTier : Type 0 where
  user_hard safety compatibility adaptive default : PolicyTier

pub record ExecutionPlan : Type 0 where
  pub flow_id : ℕ
  pub action : ExecutionAction
  pub matched_rule : Option ℕ
  pub tier : PolicyTier
