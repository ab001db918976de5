-- ===== src/Auth/Login/Poll/Turns.antt =====
-- What one poll of internal/qoderauth/oauth.go may do to a transaction.
use qoder_cpa.Prelude.{
  ℕ, [], Option, none, some, Text, text_eq, ◌==◌, ℤ, ltb_ℤ, ◌≡◌, ◌≢◌, refl, arith, inl, inr,
  Bool-cases,
}
use qoder_cpa.Auth.{Result, ok, err}
use qoder_cpa.Auth.Login.{Status, pending, success, error, Transaction, Standard}
use qoder_cpa.Auth.Refresh.{PendingResponse}
use qoder_cpa.Auth.Login.Poll.{
  TokenResponse, Decoder, PollStatus, Poll, Turn, keep, finish, do_poll_request, on_pending,
  on_body, on_answer, poll_url, asked, ask, turn_of,
}

-- A transaction that ends with an answer to the caller: with a credential, which the answer holds
-- too, or as failed, its credential left alone.
abbrev pub EndsWith : Transaction → Transaction → Result PollStatus → Type 0
EndsWith txn t (ok s) =
    (t.status ≡ success)
    × (s.status ≡ success)
    × (s.credential ≡ t.credential)
    × (t.credential ≢ none)
EndsWith txn t (err e) = (t.status ≡ error) × (t.credential ≡ txn.credential)

-- A poll that ends the transaction found it pending.
abbrev pub IsTurn : Transaction → Turn → Type 0
IsTurn txn (keep r) = Unit
IsTurn txn (finish t r) = (txn.status ≡ pending) × (t.id ≡ txn.id) × EndsWith txn t r

module _ (txn : Transaction) (open_txn : txn.status ≡ pending) where
  on_pending-IsTurn : (o : Option PendingResponse) → IsTurn txn (on_pending txn o)
  unfolding on_pending
  on_pending-IsTurn none = tt
  on_pending-IsTurn (some p) = ground arith

  module _ (json : Decoder) (later : ℤ) where
    on_body-IsTurn :
        (body : Text) (o : Option TokenResponse) → IsTurn txn (on_body json later txn body o)
    unfolding on_body
    on_body-IsTurn body none = on_pending-IsTurn (json.pending body)
    on_body-IsTurn body (some t) = elim (Bool-cases (t.access_token == [])) [
      | inl lacks ↦ rw lacks (on_pending-IsTurn (json.pending body))
      | inr has ↦ rw has (open_txn, refl, (refl, refl, refl, λ e. cc))
    ]

    on_answer-IsTurn : (m : Result (ℕ × Text)) → IsTurn txn (on_answer json later txn m)
    unfolding on_answer
    on_answer-IsTurn (err e) = tt
    on_answer-IsTurn (ok (status, body)) = ground (arith, on_body-IsTurn body (json.token body))

  asked-IsTurn : (json : Decoder) (p : Poll) (url : Option Text) → IsTurn txn (asked json p txn url)
  unfolding asked
  asked-IsTurn json p none = tt
  asked-IsTurn json p (some url) = on_answer-IsTurn json p.later (do_poll_request p.client url)

  ask-IsTurn : (std : Standard) (json : Decoder) (p : Poll) → IsTurn txn (ask std json p txn)
  unfolding ask
  ask-IsTurn std json p = asked-IsTurn json p (poll_url std p.config txn)

pub turn_of-IsTurn :
    (status : Status) (std : Standard) (json : Decoder) (p : Poll) (txn : Transaction)
    → txn.status ≡ status
    → IsTurn txn (turn_of status std json p txn)
unfolding turn_of
turn_of-IsTurn success std json p txn at = tt
turn_of-IsTurn error std json p txn at = tt
turn_of-IsTurn pending std json p txn at = elim (Bool-cases (ltb_ℤ txn.expires_at p.now)) [
  | inl over ↦ rw over (at, refl, (refl, refl))
  | inr within ↦ rw within (ask-IsTurn txn at std json p)
]
