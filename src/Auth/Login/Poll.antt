-- ===== src/Auth/Login/Poll.antt =====
-- PollLogin and doPollRequest of internal/qoderauth/oauth.go.
pub mod Turns
pub mod Reach
pub mod Final
pub mod Kinds
use qoder_cpa.Prelude.{
  ℕ, Bool, true, false, not, ◌||◌, List, [], ◌∷◌, ◌++◌, Option, none, some, Text, text_eq, ◌==◌,
  codes, if◌then◌else◌, nat_beq, ltb, length, ℤ, plus, ltb_ℤ, ◌*ℤ◌, update,
}
use qoder_cpa.Auth.{
  Credential, AuthError, transaction_expired, transaction_unknown, transaction_terminal,
  upstream_failed, upstream_status, malformed_response, response_too_large, message, Result, ok,
  err, Reply, unbuilt, unreached, broken, response, limited, max_response_body_bytes, is_2xx,
}
use qoder_cpa.Auth.Login.{
  Status, pending, success, error, Transaction, World, store_get, store_delete, OauthConfig,
  Standard, trim_right_slash,
}
use qoder_cpa.Auth.Refresh.{PendingResponse, second}

pub record TokenResponse : Type 0 where
  pub access_token : Text
  pub refresh_token : Text
  pub user_id : Text
  pub expires_at : Text
  pub expires_in : ℤ

-- What encoding/json reads from a body, and the instant that time.Parse reads.
pub record Decoder : Type 0 where
  pub token : Text → Option TokenResponse
  pub pending : Text → Option PendingResponse
  pub rfc3339 : Text → Option ℤ

pub record PollStatus : Type 0 where
  pub status : Status
  pub credential : Option Credential
  pub message : Text

-- The client is given the URL; `now` is the clock before the request, `later` after it.
pub record Poll : Type 0 where
  pub config : OauthConfig
  pub client : Option (Text → Reply)
  pub id : Text
  pub now : ℤ
  pub later : ℤ

-- A poll leaves the transaction as it is, or ends it, which takes it out of the store.
pub data Turn : Type 0 where
  keep : Result PollStatus → Turn
  finish : Transaction → Result PollStatus → Turn

abbrev still_pending : Text → Result PollStatus
still_pending text = ok (record { status = pending; credential = none; message = text })

abbrev pub succeeded : Credential → Result PollStatus
succeeded c = ok (record { status = success; credential = some c; message = [] })

-- The body is read through a limit, and no status is refused here.
unfoldable pub read_reply : Reply → Result (ℕ × Text)
unfolding limited
read_reply (unbuilt e) = err (message (codes "qoderauth: building poll request"))
read_reply (unreached e) = err (upstream_failed e)
read_reply (broken status) = err malformed_response
read_reply (response status body) =
    if ltb max_response_body_bytes (length (limited body))
    then err response_too_large
    else ok (status, limited body)

unfoldable pub do_poll_request : Option (Text → Reply) → Text → Result (ℕ × Text)
unfolding read_reply
do_poll_request none url = err (message (codes "qoderauth: nil HTTP client"))
do_poll_request (some send) url = read_reply (send url)

abbrev expiry_or : Option ℤ → ℤ → ℤ
expiry_or none t = t
expiry_or (some at) t = at

unfoldable pub token_expiry : Decoder → ℤ → TokenResponse → ℤ
token_expiry json later t =
    if t.expires_at == []
    then plus later (t.expires_in *ℤ second)
    else expiry_or (json.rfc3339 t.expires_at) (plus later (t.expires_in *ℤ second))

unfoldable pub credential_of : Decoder → ℤ → Transaction → TokenResponse → Credential
unfolding token_expiry
credential_of json later txn t = record {
  access_token = t.access_token;
  refresh_token = t.refresh_token;
  expires_at = token_expiry json later t;
  user_id = t.user_id;
  user_type = [];
  machine_id = txn.machine;
  email = [];
  organization_id = [];
  organization_tags = [];
  runtime_info = [];
  runtime_key = [];
  profile = [];
}

abbrev pub failed : Transaction → Text → Transaction
failed txn text = record txn { status = error; err_message = text }

abbrev pub signed_in : Transaction → Credential → Transaction
signed_in txn c = record txn { status = success; credential = some c }

-- The body names no token.
unfoldable pub on_pending : Transaction → Option PendingResponse → Turn
on_pending txn none = keep (err malformed_response)
on_pending txn (some p) =
    if p.error == codes "authorization_pending" || p.error == codes "slow_down"
    then keep (still_pending p.error_description)
    else if p.error == codes "expired_token" || p.error == codes "access_denied"
    then finish (failed txn p.error_description) (err (upstream_failed p.error_description))
    else finish (failed txn p.error) (err (upstream_failed p.error))

unfoldable pub on_body : Decoder → ℤ → Transaction → Text → Option TokenResponse → Turn
unfolding on_pending credential_of
on_body json later txn body none = on_pending txn (json.pending body)
on_body json later txn body (some t) =
    let c = credential_of json later txn t in
    if t.access_token == []
    then on_pending txn (json.pending body)
    else finish (signed_in txn c) (succeeded c)

unfoldable pub on_answer : Decoder → ℤ → Transaction → Result (ℕ × Text) → Turn
unfolding on_body
on_answer json later txn (err e) = keep (err e)
on_answer json later txn (ok (status, body)) =
    if nat_beq status 404 || nat_beq status 202
    then keep (still_pending [])
    else if is_2xx status
    then on_body json later txn body (json.token body)
    else keep (err (upstream_status status))

abbrev poll_url : Standard → OauthConfig → Transaction → Option Text
poll_url std config txn =
    elim (std.parse_url (trim_right_slash config.api_base_url ++ config.poll_path)) [
      | none ↦ none
      | some u ↦ some (
          u.with_query (
            (codes "nonce", txn.nonce)
            ∷ (codes "verifier", txn.verifier)
            ∷ (codes "challenge_method", codes "S256")
            ∷ []))
    ]

unfoldable pub asked : Decoder → Poll → Transaction → Option Text → Turn
unfolding on_answer do_poll_request
asked json p txn none = keep (err (message (codes "qoderauth: building poll URL")))
asked json p txn (some url) = on_answer json p.later txn (do_poll_request p.client url)

unfoldable pub ask : Standard → Decoder → Poll → Transaction → Turn
unfolding asked
ask std json p txn = asked json p txn (poll_url std p.config txn)

abbrev settled : Option Credential → Result PollStatus
settled none = err (transaction_terminal (codes "success"))
settled (some c) = succeeded c

unfoldable pub turn_of : Status → Standard → Decoder → Poll → Transaction → Turn
unfolding ask
turn_of success std json p txn = keep (settled txn.credential)
turn_of error std json p txn = keep (err (transaction_terminal (codes "error")))
turn_of pending std json p txn =
    if ltb_ℤ txn.expires_at p.now
    then finish (failed txn (codes "transaction expired")) (err transaction_expired)
    else ask std json p txn

abbrev pub settle : Text → ℕ → Turn → World → World × Result PollStatus
settle id a (keep r) w = (w, r)
settle id a (finish t r) w = (store_delete id (record w { heap = update w.heap a (some t) }), r)

abbrev polled :
    Standard → Decoder → Poll → ℕ → Option Transaction → World → World × Result PollStatus
polled std json p a none w = (w, err (transaction_unknown p.id))
polled std json p a (some txn) w = settle p.id a (turn_of txn.status std json p txn) w

-- The poll once it has the address `a`; no address in the store dangles.
unfoldable pub poll_at : Standard → Decoder → Poll → ℕ → World → World × Result PollStatus
unfolding turn_of
poll_at std json p a w = polled std json p a (w.heap a) w

abbrev found : Standard → Decoder → Poll → Option ℕ → World → World × Result PollStatus
found std json p none w = (w, err (transaction_unknown p.id))
found std json p (some a) w = poll_at std json p a w

unfoldable pub poll_login : Standard → Decoder → Poll → World → World × Result PollStatus
unfolding poll_at store_get
poll_login std json p w = found std json p (store_get p.id w) w
