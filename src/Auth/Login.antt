-- ===== src/Auth/Login.antt =====
-- DeviceLogin and PollLogin of internal/qoderauth/oauth.go with the store of transactions (store.go).
-- A transaction is shared by the caller of DeviceLogin and by every poll that has looked it up: it
-- stands in a heap, and the store holds its address. Clock, randomness, net/url and encoding/json are
-- parameters. A poll that holds the transaction's lock is one step.
pub mod Poll
use qoder_cpa.Prelude.{
  ℕ, suc, ◌+◌, Bool, true, false, not, ◌&&◌, ◌||◌, List, [], ◌∷◌, ◌++◌, Option, none, some, Text,
  text_eq, ◌==◌, codes, if◌then◌else◌, nat_beq, ltb, leb, length, ℤ, pos, int_eq, plus, lookup,
  insert, delete, update,
}
use mathlib.Core.List.{reverse}
use qoder_cpa.Auth.{Credential, AuthError, invalid_host, message, Result, ok, err, ◌>>=◌}
use qoder_cpa.Auth.Hex.{hex_encode}
use qoder_cpa.VerifyHost.{is_loopback}

pub data Status : Type 0 where
  pending : Status
  success : Status
  error : Status

pub record Transaction : Type 0 where
  pub id : Text
  pub verifier : Text
  pub nonce : Text
  pub machine : Text
  pub device_code : Text
  pub verify_url : Text
  pub expires_at : ℤ
  pub created_at : ℤ
  pub status : Status
  pub credential : Option Credential
  pub err_message : Text

-- The memory: `next` is an address that was never used.
pub record World : Type 0 where
  pub heap : ℕ → Option Transaction
  pub next : ℕ
  pub store : List (Text × ℕ)

unfoldable pub new_world : World
new_world = record { heap = λ a. none; next = 0; store = [] }

unfoldable pub store_get : Text → World → Option ℕ
store_get id w = lookup id w.store

unfoldable pub store_set : Text → ℕ → World → World
store_set id a w = record w { store = insert id a w.store }

unfoldable pub store_delete : Text → World → World
store_delete id w = record w { store = delete id w.store }

-- CancelTransaction.
unfoldable pub cancel_transaction : Text → World → World
unfolding store_delete
cancel_transaction id w = store_delete id w

pub record OauthConfig : Type 0 where
  pub base_url : Text
  pub api_base_url : Text
  pub device_path : Text
  pub poll_path : Text
  pub client_id : Text

unfoldable pub default_config : OauthConfig
default_config = record {
  base_url = codes "https://qoder.com";
  api_base_url = codes "https://openapi.qoder.sh";
  device_path = codes "/device/selectAccounts";
  poll_path = codes "/api/v1/deviceToken/poll";
  client_id = codes "qoder-cpa";
}

unfoldable pub default_config_cn : OauthConfig
default_config_cn = record {
  base_url = codes "https://qoder.com.cn";
  api_base_url = codes "https://openapi.qoder.com.cn";
  device_path = codes "/device/selectAccounts";
  poll_path = codes "/api/v1/deviceToken/poll";
  client_id = codes "qoder-cpa";
}

-- What url.Parse gives: `with_query` is the text of the URL once parameters were set in its query.
pub record Parsed : Type 0 where
  pub scheme : Text
  pub hostname : Text
  pub with_query : List (Text × Text) → Text

pub record Standard : Type 0 where
  pub sha256 : Text → Text
  pub raw_url_base64 : Text → Text
  pub parse_url : Text → Option Parsed

-- The random bytes that are drawn, if they can be: 32 for the verifier, 16 for each other.
pub record Draws : Type 0 where
  pub verifier : Option Text
  pub nonce : Option Text
  pub machine : Option Text
  pub transaction : Option Text

abbrev drop_slashes : Text → Text
drop_slashes [] = []
drop_slashes (c ∷ s) = if nat_beq c b'/' then drop_slashes s else c ∷ s

-- strings.TrimRight(s, "/").
unfoldable pub trim_right_slash : Text → Text
trim_right_slash s = reverse (drop_slashes (reverse s))

abbrev drawn : Text → Option Text → Result Text
drawn what none = err (message (codes "qoderauth: generating " ++ what))
drawn what (some b) = ok b

unfoldable pub new_pkce_verifier : Standard → Option Text → Result Text
new_pkce_verifier std draw = drawn (codes "PKCE verifier") draw >>= λ b. ok (std.raw_url_base64 b)

unfoldable pub pkce_challenge : Standard → Text → Text
pkce_challenge std verifier = std.raw_url_base64 (std.sha256 verifier)

unfoldable pub new_nonce : Standard → Option Text → Result Text
new_nonce std draw = drawn (codes "nonce") draw >>= λ b. ok (std.raw_url_base64 b)

unfoldable pub new_machine_id : Option Text → Result Text
new_machine_id draw = drawn (codes "machine ID") draw >>= λ b. ok (codes "m-" ++ hex_encode b)

unfoldable pub new_transaction_id : Option Text → Result Text
new_transaction_id draw =
    drawn (codes "transaction ID") draw >>= λ b. ok (codes "txn-" ++ hex_encode b)

unfoldable pub is_login_base : Parsed → Bool
is_login_base u = not (u.hostname == []) && (u.scheme == codes "https" || is_loopback u.hostname)

unfoldable pub check_base : Standard → Text → Result (Unit {0})
unfolding is_login_base
check_base std base =
    if base == []
    then err (message (codes "qoderauth: empty base URL"))
    else elim (std.parse_url base) [
      | none ↦ err invalid_host
      | some u ↦ if is_login_base u then ok tt else err invalid_host
    ]

unfoldable pub device_url : Standard → OauthConfig → Text → Text → Text → Result Text
unfolding trim_right_slash
device_url std config challenge machine nonce =
    elim (std.parse_url (trim_right_slash config.base_url ++ config.device_path)) [
      | none ↦ err (message (codes "qoderauth: building device URL"))
      | some u ↦ ok (
          u.with_query (
            (codes "challenge", challenge)
            ∷ (codes "challenge_method", codes "S256")
            ∷ (codes "machine_id", machine)
            ∷ (codes "nonce", nonce)
            ∷ (codes "directLogin", codes "false")
            ∷ []))
    ]

abbrev fifteen_minutes : ℤ
fifteen_minutes = pos 900000000000

-- The transaction that DeviceLogin makes.
unfoldable pub new_transaction : Standard → Draws → ℤ → OauthConfig → Text → ℤ → Result Transaction
new_transaction std draws now config machine_id ttl = do
  checked ← check_base std config.base_url
  verifier ← new_pkce_verifier std draws.verifier
  nonce ← new_nonce std draws.nonce
  machine ← if machine_id == [] then new_machine_id draws.machine else ok machine_id
  url ← device_url std config (pkce_challenge std verifier) machine nonce
  id ← new_transaction_id draws.transaction
  ok (record {
    id = id;
    verifier = verifier;
    nonce = nonce;
    machine = machine;
    device_code = [];
    verify_url = url;
    expires_at = plus now (if ttl == pos 0 then fifteen_minutes else ttl);
    created_at = now;
    status = pending;
    credential = none;
    err_message = [];
  })

abbrev pub allocated : Transaction → World → World
allocated t w = record { heap = update w.heap w.next (some t); next = suc w.next; store = w.store }

abbrev begun : Result Transaction → World → World × Result ℕ
begun (ok t) w = (store_set t.id w.next (allocated t w), ok w.next)
begun (err e) w = (w, err e)

-- The response is the address of the transaction, from which the caller reads its URL and its expiry.
unfoldable pub device_login :
    Standard → Draws → ℤ → OauthConfig → Text → ℤ → World → World × Result ℕ
unfolding new_transaction store_set
device_login std draws now config machine_id ttl w =
    begun (new_transaction std draws now config machine_id ttl) w
