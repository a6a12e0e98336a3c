-- ===== src/Gtp/Client/Transactions/Reach.antt =====
-- The steps of the GTP-C client's goroutines, and what holds after any of them.
use vectorcore_twag.Base.{
  ℕ, ◌<◌, ◌≡◌, ◌≢◌, ◌⊎◌, sym, subst, Bool, true, false, [], none, some, ok, err, arith,
}
use vectorcore_twag.Base.Bytes.{Bytes}
use vectorcore_twag.Base.Map.{lookup, nat_eq}
use vectorcore_twag.Base.Net.{UdpAddr, ip_equal}
use vectorcore_twag.Gtp.Message.{Gtpv2Message, encode, decode, max_gtpv2_sequence}
use vectorcore_twag.Gtp.Client.{gtpv2_echo_request, gtpv2_delete_session_req}
use vectorcore_twag.Gtp.Client.Transactions.{
  TxError, context_done, Transaction, Client, new_client, start_transaction, finish, close_channel,
  fail_pending, matched, dispatch, handle_incoming, inbound_delete_session_request,
}
use vectorcore_twag.Gtp.Client.Transactions.Matching.{
  IsMatched, has_failure, new_client-IsMatched, start_transaction-IsMatched,
  handle_incoming-IsMatched, close_channel-IsMatched, fail_pending-IsMatched, finish-IsMatched,
}

-- One step of any goroutine: a caller that starts a transaction, the reader with a packet, a caller
-- that takes what its channels hold or gives up, and the one call whose Close `closeOnce` lets
-- through, which closes `closeCh` first and comes to failPending later.
pub data Step (c c' : Client) : Type 0 where
  started :
      (req : Gtpv2Message) (expected n : ℕ)
      → c' ≡ (start_transaction c req expected n).1
      → Step c c'
  received : (packet : Bytes) (peer : UdpAddr) → c' ≡ (handle_incoming c packet peer).1 → Step c c'
  took_response :
      (p : ℕ) (m : Gtpv2Message)
      → p < c.next
      → (c.txs p).result ≡ none
      → (c.txs p).response ≡ some m
      → c' ≡ finish c p (ok m)
      → Step c c'
  took_failure :
      (p : ℕ) (e : TxError)
      → p < c.next
      → (c.txs p).result ≡ none
      → (c.txs p).failure ≡ some e
      → c' ≡ finish c p (err e)
      → Step c c'
  gave_up :
      (p : ℕ)
      → p < c.next
      → (c.txs p).result ≡ none
      → c' ≡ finish c p (err context_done)
      → Step c c'
  closed : c.closed ≡ false → c' ≡ close_channel c → Step c c'
  failed : c.closed ≡ true → c.pending_failed ≡ false → c' ≡ fail_pending c → Step c c'

pub data Reachable : Client → Type 0 where
  opened :
      (remote : UdpAddr) (h : Bool) (blank : ℕ → Transaction)
      → Reachable (new_client remote h blank)
  stepped : (c c' : Client) → Reachable c → Step c c' → Reachable c'

Step-IsMatched : (c c' : Client) → IsMatched c → Step c c' → IsMatched c'
Step-IsMatched c c' h (started req expected n e) =
    subst IsMatched (sym e) (start_transaction-IsMatched c req expected n h)
Step-IsMatched c c' h (received packet peer e) =
    subst IsMatched (sym e) (handle_incoming-IsMatched c packet peer h)
Step-IsMatched c c' h (took_response p m l waits held e) =
    subst IsMatched (sym e)
      (finish-IsMatched c p (ok m) h l waits (λ n x. ground (arith, h.offered p n)))
Step-IsMatched c c' h (took_failure p x l waits held e) =
    subst IsMatched (sym e) (finish-IsMatched c p (err x) h l waits (λ n y. absurd (ground arith)))
Step-IsMatched c c' h (gave_up p l waits e) =
    subst IsMatched (sym e)
      (finish-IsMatched c p (err context_done) h l waits (λ n y. absurd (ground arith)))
Step-IsMatched c c' h (closed before e) = subst IsMatched (sym e) (close_channel-IsMatched c h)
Step-IsMatched c c' h (failed shut first e) =
    subst IsMatched (sym e) (fail_pending-IsMatched c shut h)

pub Reachable-IsMatched : (c : Client) → Reachable c → IsMatched c
Reachable-IsMatched _ (opened remote h blank) = new_client-IsMatched remote h blank
Reachable-IsMatched _ (stepped c c' r s) = Step-IsMatched c c' (Reachable-IsMatched c r) s

-- In whatever order the goroutines run and packets come in, a transaction that returned a message
-- returned one of the type that it expected and with its own sequence number.
pub returned-Answers :
    (c : Client) (p : ℕ) (m : Gtpv2Message)
    → Reachable c
    → p < c.next
    → (c.txs p).result ≡ some (ok m)
    → (m.type ≡ (c.txs p).expected_type) × (m.sequence ≡ (c.txs p).sequence)
returned-Answers c p m r l e = (Reachable-IsMatched c r).returned p m l e

-- Two transactions that wait before failPending has run have different sequence numbers.
pub waiting_distinct :
    (c : Client) (p q : ℕ)
    → Reachable c
    → c.pending_failed ≡ false
    → p < c.next
    → q < c.next
    → (c.txs p).result ≡ none
    → (c.txs q).result ≡ none
    → (c.txs p).sequence ≡ (c.txs q).sequence
    → p ≡ q
waiting_distinct c p q r still l k a b same =
    let h = Reachable-IsMatched c r in ground (arith, h.waiting p, h.waiting q)

-- Whatever other goroutines do between the closing of `closeCh` and failPending, and after it: once
-- failPending has run in Close, `closeCh` is closed, no transaction is pending, and each that still
-- waits has an error in its channel, so that its caller can return.
pub closed_fails :
    (c : Client) (p : ℕ)
    → Reachable c
    → c.pending_failed ≡ true
    → p < c.next
    → (c.txs p).result ≡ none
    → (c.closed ≡ true)
      × (lookup (c.txs p).sequence c.pending ≡ none)
      × (has_failure (c.txs p) ≡ true)
closed_fails c p r ran l waits =
    let h = Reachable-IsMatched c r in
    ground (arith, h.waiting p, h.drained (c.txs p).sequence, h.shut_before)

-- In whatever state steps lead to, until failPending has run in Close: a response from the gateway with the number and the type that
-- a transaction waits for, which is neither an Echo Request nor a Delete Session Request, lies in
-- its channel behind the reader's step, where the channel was empty, and no other transaction
-- changes.
pub handle_incoming-delivers :
    (c : Client) (packet : Bytes) (peer : UdpAddr) (p q : ℕ) (m : Gtpv2Message)
    → Reachable c
    → c.pending_failed ≡ false
    → p < c.next
    → (c.txs p).result ≡ none
    → (c.txs p).response ≡ none
    → ip_equal peer.ip c.remote.ip ≡ true
    → peer.port ≡ c.remote.port
    → decode packet ≡ ok m
    → m.sequence ≡ (c.txs p).sequence
    → m.type ≡ (c.txs p).expected_type
    → m.type ≢ gtpv2_echo_request
    → m.type ≢ gtpv2_delete_session_req
    → q ≢ p
    → (((handle_incoming c packet peer).1.txs p).response ≡ some m)
      × ((handle_incoming c packet peer).1.txs q ≡ c.txs q)
unfolding handle_incoming dispatch matched
handle_incoming-delivers c packet peer p q m r still l waits empty from port read number type
      no_echo no_delete other =
    let h = Reachable-IsMatched c r in
    let found : lookup m.sequence c.pending ≡ some p = ground (arith, h.waiting p) in
    ground (arith, found)

-- A packet from another address or port changes nothing and has no effect.
pub handle_incoming_stranger :
    (c : Client) (packet : Bytes) (peer : UdpAddr)
    → (ip_equal peer.ip c.remote.ip ≡ false) ⊎ (peer.port ≢ c.remote.port)
    → handle_incoming c packet peer ≡ ([], c)
unfolding handle_incoming
handle_incoming_stranger c packet peer h = ground arith

-- A Delete Session Request with a sequence number above 0x7fffff, which three bytes can hold, is
-- neither answered nor handed on.
pub high_sequence_ignored :
    (c : Client) (packet : Bytes) (peer : UdpAddr) (m : Gtpv2Message)
    → decode packet ≡ ok m
    → m.type ≡ gtpv2_delete_session_req
    → max_gtpv2_sequence < m.sequence
    → handle_incoming c packet peer ≡ ([], c)
unfolding handle_incoming dispatch inbound_delete_session_request encode
high_sequence_ignored c packet peer m read type high = ground arith
