-- ===== src/Web/Proxy.antt =====
-- apps/web/src/app/rpc/route.ts: the proxy that lets read-only JSON-RPC calls through. The text of
-- an answer of the upstream is an opaque number.
pub mod ReadOnly
use ponshot.Base.{
  if◌then◌else◌, ◌∷◌, [], some, none, true, false, ℕ, Bool, true, false, Option, none, some, List,
  [], ◌∷◌, ◌≡◌, ◌⊎◌, ◌==◌, ◌&&◌, All, any, inl, inr, refl, if◌then◌else◌, map, arith, Bool-cases,
}
use ponshot.Base.Text.{same_text, Text, codes}

pub record RpcCall : Type 0 where
  pub id : Option ℕ
  pub method : Option Text

-- A request is one call, or a batch.
pub data Body : Type 0 where
  single : RpcCall → Body
  batch : List RpcCall → Body

pub record Rejection : Type 0 where
  pub id : Option ℕ
  pub method : Option Text

pub data Answer : Type 0 where
  parse_error unreachable : Answer
  rejected_one : Rejection → Answer
  rejected_all : List Rejection → Answer
  relayed : ℕ → Answer

-- `ALLOWED`
abbrev pub allowed : List Text
allowed =
    codes "eth_chainId"
    ∷ codes "eth_blockNumber"
    ∷ codes "eth_call"
    ∷ codes "eth_estimateGas"
    ∷ codes "eth_gasPrice"
    ∷ codes "eth_maxPriorityFeePerGas"
    ∷ codes "eth_feeHistory"
    ∷ codes "eth_getBalance"
    ∷ codes "eth_getCode"
    ∷ codes "eth_getBlockByNumber"
    ∷ codes "eth_getBlockByHash"
    ∷ codes "eth_getTransactionByHash"
    ∷ codes "eth_getTransactionReceipt"
    ∷ codes "eth_getTransactionCount"
    ∷ codes "eth_getLogs"
    ∷ codes "eth_getStorageAt"
    ∷ codes "net_version"
    ∷ codes "web3_clientVersion"
    ∷ []

-- `ALLOWED.has`, of any list of names.
unfoldable pub has : List Text → Text → Bool
has [] name = false
has (a ∷ names) name = if same_text name a then true else has names name

unfoldable pub permits : List Text → Option Text → Bool
unfolding has
permits names none = false
permits names (some []) = false
permits names (some (c ∷ t)) = has names (c ∷ t)

abbrev pub calls_of : Body → List RpcCall
calls_of (single c) = c ∷ []
calls_of (batch cs) = cs

unfoldable pub blocked : List Text → List RpcCall → List RpcCall
unfolding permits
blocked names [] = []
blocked names (c ∷ cs) =
    let rest = blocked names cs in if permits names c.method then rest else c ∷ rest

abbrev pub rejection : RpcCall → Rejection
rejection c = record { id = c.id; method = c.method }

-- The refusal of the calls that are blocked.
abbrev pub refuse : Body → RpcCall → List RpcCall → Answer
refuse (single _) c cs = rejected_one (rejection c)
refuse (batch _) c cs = rejected_all (map rejection (c ∷ cs))

abbrev pub relay : Option ℕ → Answer
relay none = unreachable
relay (some result) = relayed result

-- The answer, and the bodies that are posted upstream; `upstream` is none where the post throws.
abbrev pub screen : Body → Option ℕ → List RpcCall → Answer × List Body
screen body upstream [] = (relay upstream, body ∷ [])
screen body upstream (c ∷ cs) = (refuse body c cs, [])

-- `POST`; the body is none where it is not JSON.
unfoldable pub post : Option Body → Option ℕ → Answer × List Body
unfolding blocked
post none upstream = (parse_error, [])
post (some body) upstream = screen body upstream (blocked allowed (calls_of body))
