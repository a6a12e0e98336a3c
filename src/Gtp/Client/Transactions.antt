-- ===== src/Gtp/Client/Transactions.antt =====
-- internal/gtp/gtp.go: the transactions of the GTP-C client. A `*gtpcTransaction` is a place in
-- `txs`, which the table of pending ones shares with the goroutine that waits on its channels; each
-- channel holds one value. Each step under the mutex is one step here, with the reader's lookup and
-- its offer to the channel behind it taken together, and sending is an effect.
pub mod Matching
pub mod Reach
use vectorcore_twag.Base.{
  ℕ, ◌+◌, Bool, true, false, ◌||◌, not, List, [], ◌∷◌, Option, none, some, Result, ok, err, ◌==◌,
  ◌!=◌, if◌then◌else◌,
}
use vectorcore_twag.Base.Bytes.{Bytes}
use vectorcore_twag.Base.Map.{Assoc, lookup, insert, delete, nat_eq}
use vectorcore_twag.Base.Net.{UdpAddr, ip_equal}
use vectorcore_twag.Gtp.Message.{Gtpv2Message, encode, decode}
use vectorcore_twag.Gtp.Message as Messages
use vectorcore_twag.Gtp.Ie.{encode_ie}
use vectorcore_twag.Gtp.Ie.Fields.{recovery_ie, ie_cause}
use vectorcore_twag.Gtp.Client.{
  gtpv2_echo_request, gtpv2_echo_response, gtpv2_delete_session_req, gtpv2_delete_session_resp,
  cause_request_accepted,
}

-- `context_done` is a timeout, a cancellation or a datagram that could not be sent.
pub data TxError : Type 0 where
  client_closed context_done : TxError
  duplicate_sequence : ℕ → TxError
  bad_message : Messages.Error → TxError
  type_mismatch : ℕ → ℕ → ℕ → TxError

-- `result` is what doTransaction has returned, nothing while it waits.
pub record Transaction : Type 0 where
  pub sequence : ℕ
  pub expected_type : ℕ
  pub response : Option Gtpv2Message
  pub failure : Option TxError
  pub result : Option (Result TxError Gtpv2Message)

pub record Client : Type 0 where
  pub remote : UdpAddr
  pub next : ℕ
  pub txs : ℕ → Transaction
  pub pending : Assoc ℕ ℕ
  -- Whether `closeCh` is closed, and whether failPending has run after that.
  pub closed : Bool
  pub pending_failed : Bool
  pub has_delete_handler : Bool

pub data Effect : Type 0 where
  sent : Bytes → UdpAddr → Effect
  network_delete : ℕ → Effect

-- Writes `t` at the place `p`.
abbrev pub put_tx : Client → ℕ → Transaction → Client
put_tx c p t = record c { txs = λ q. if p == q then t else c.txs q }

-- The client that NewGTP makes; `blank` is what the places hold that no transaction has yet.
unfoldable pub new_client : UdpAddr → Bool → (ℕ → Transaction) → Client
new_client remote has_handler blank = record {
  remote = remote;
  next = 0;
  txs = blank;
  pending = [];
  closed = false;
  pending_failed = false;
  has_delete_handler = has_handler;
}

-- registerTransaction
unfoldable pub register_transaction : Client → Transaction → Result TxError Client
register_transaction c tx =
    if c.closed then err client_closed else elim (lookup tx.sequence c.pending) [
      | some p ↦ err (duplicate_sequence tx.sequence)
      | none ↦ ok (record (put_tx c c.next tx) {
        next = c.next + 1;
        pending = insert tx.sequence c.next c.pending;
      })
    ]

-- unregisterTransaction
unfoldable pub unregister_transaction : Client → ℕ → Client
unregister_transaction c sequence = record c { pending = delete sequence c.pending }

-- The end of doTransaction: it returns what it took from a channel, or the context's error, and its
-- deferred call takes the transaction out of the table.
unfoldable pub finish : Client → ℕ → Result TxError Gtpv2Message → Client
unfolding unregister_transaction
finish c p r =
    unregister_transaction (put_tx c p (record (c.txs p) { result = some r })) (c.txs p).sequence

abbrev encoded_or_dropped : Client → ℕ → Result Messages.Error Bytes → Result TxError Bytes × Client
encoded_or_dropped c p (ok b) = (ok b, c)
encoded_or_dropped c p (err e) = (err (bad_message e), finish c p (err (bad_message e)))

abbrev registered : Client → Gtpv2Message → Result TxError Client → Result TxError Bytes × Client
registered c req (err e) = (err e, c)
registered c req (ok c') = encoded_or_dropped c' c.next (encode req)

-- doTransaction up to the write, with the number that the allocator gave: the datagram, or the error
-- that it returns at once.
unfoldable pub start_transaction : Client → Gtpv2Message → ℕ → ℕ → Result TxError Bytes × Client
unfolding finish
start_transaction c req expected_type sequence =
    let req' : Gtpv2Message = record req { sequence = sequence } in
    registered c req' (
      register_transaction c (record {
        sequence = sequence;
        expected_type = expected_type;
        response = none;
        failure = none;
        result = none;
      }))

-- `select { case ch <- v: default: }` on a channel of one place.
abbrev pub offer {ℓ} : {A : Type ℓ} → A → Option A → Option A
offer v none = some v
offer v (some w) = some w

-- One turn of failPending, and its loop.
abbrev pub fail_at : TxError → ℕ → (ℕ → Transaction) → ℕ → Transaction
fail_at e p txs q = if p == q then record (txs q) { failure = offer e (txs q).failure } else txs q

unfoldable pub fail_loop : TxError → Assoc ℕ ℕ → (ℕ → Transaction) → ℕ → Transaction
fail_loop e [] txs = txs
fail_loop e ((n, p) ∷ rest) txs = fail_loop e rest (fail_at e p txs)

-- Close closes `closeCh` without the mutex, and then the socket.
unfoldable pub close_channel : Client → Client
close_channel c = record c { closed = true }

-- Its failPending, which takes the mutex.
unfoldable pub fail_pending : Client → Client
fail_pending c = record c {
  pending_failed = true;
  txs = fail_loop client_closed c.pending c.txs;
  pending = [];
}

abbrev answered : Result Messages.Error Bytes → UdpAddr → List Effect → List Effect
answered (ok b) peer more = sent b peer ∷ more
answered (err e) peer more = []

-- handleInboundEchoRequest
unfoldable pub inbound_echo_request : Gtpv2Message → UdpAddr → List Effect
inbound_echo_request msg peer =
    answered
      (encode (record {
        type = gtpv2_echo_response;
        teid = 0;
        has_teid = false;
        sequence = msg.sequence;
        payload = encode_ie (recovery_ie 0);
      }))
      peer []

-- handleInboundDeleteSessionRequest
unfoldable pub inbound_delete_session_request : Client → Gtpv2Message → UdpAddr → List Effect
inbound_delete_session_request c msg peer =
    answered
      (encode (record {
        type = gtpv2_delete_session_resp;
        teid = msg.teid;
        has_teid = true;
        sequence = msg.sequence;
        payload = encode_ie (record {
          type = ie_cause;
          instance_no = 0;
          payload = cause_request_accepted ∷ 0 ∷ [];
        });
      }))
      peer (if c.has_delete_handler then network_delete msg.teid ∷ [] else [])

-- What a transaction is offered when a message with its number comes in.
unfoldable pub matched : Transaction → Gtpv2Message → Transaction
matched tx msg =
    if msg.type != tx.expected_type
    then record tx {
      failure = offer (type_mismatch msg.sequence msg.type tx.expected_type) tx.failure;
    }
    else record tx { response = offer msg tx.response }

abbrev deliver : Client → Gtpv2Message → Option ℕ → Client
deliver c msg none = c
deliver c msg (some p) = put_tx c p (matched (c.txs p) msg)

unfoldable pub dispatch : Client → Gtpv2Message → UdpAddr → List Effect × Client
unfolding inbound_echo_request inbound_delete_session_request matched
dispatch c msg peer =
    if msg.type == gtpv2_echo_request
    then (inbound_echo_request msg peer, c)
    else if msg.type == gtpv2_delete_session_req
    then (inbound_delete_session_request c msg peer, c)
    else ([], deliver c msg (lookup msg.sequence c.pending))

-- handleIncomingGTPv2
unfoldable pub handle_incoming : Client → Bytes → UdpAddr → List Effect × Client
handle_incoming c packet peer =
    if not (ip_equal peer.ip c.remote.ip) || (peer.port != c.remote.port)
    then ([], c)
    else elim (decode packet) [ err e ↦ ([], c) | ok msg ↦ dispatch c msg peer ]
