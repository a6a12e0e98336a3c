-- ===== src/Gtp/Client/Transactions/Matching.antt =====
-- Every transaction gets the answer to its own request, whatever comes in and in whatever order.
use vectorcore_twag.Base.{
  ℕ, ◌+◌, ◌<◌, ◌≡◌, ◌⊎◌, inl, inr, refl, sym, ap, subst, Bool, true, false, ◌||◌, not, [], ◌∷◌,
  none, some, Result, ok, err, ◌==◌, ◌!=◌, arith, Option-cases, Result-cases, Bool-cases,
}
use vectorcore_twag.Base.Bytes.{Bytes}
use vectorcore_twag.Base.Map.{Assoc, lookup, insert, nat_eq, lookup-insert, lookup-delete}
use vectorcore_twag.Base.Net.{UdpAddr, ip_equal}
use vectorcore_twag.Gtp.Message.{Gtpv2Message, encode, decode}
use vectorcore_twag.Gtp.Client.{gtpv2_echo_request, gtpv2_delete_session_req}
use vectorcore_twag.Gtp.Client.Transactions.{
  TxError, bad_message, client_closed, Transaction, Client, put_tx, new_client,
  register_transaction, unregister_transaction, start_transaction, finish, fail_loop, fail_at,
  close_channel, fail_pending, matched, dispatch, handle_incoming,
}

-- The message answers the transaction's request.
abbrev pub Answers : Transaction → Gtpv2Message → Type 0
Answers t m = (m.type ≡ t.expected_type) × (m.sequence ≡ t.sequence)

abbrev pub has_failure : Transaction → Bool
has_failure t = elim t.failure [ none ↦ false | some e ↦ true ]

-- The table leads to waiting transactions by their numbers, it leads to each that waits until
-- failPending has run, when all have failed, and only answers reach a transaction.
pub record IsMatched (c : Client) : Type 0 where
  pub filed :
      (n p : ℕ)
      → lookup n c.pending ≡ some p
      → ((c.txs p).sequence ≡ n) × ((c.txs p).result ≡ none) × (p < c.next)
  pub waiting :
      (p : ℕ)
      → p < c.next
      → (c.txs p).result ≡ none
      → (lookup (c.txs p).sequence c.pending ≡ some p)
        ⊎ ((c.pending_failed ≡ true) × (has_failure (c.txs p) ≡ true))
  pub shut_before : c.pending_failed ≡ true → c.closed ≡ true
  pub drained : (n : ℕ) → c.pending_failed ≡ true → lookup n c.pending ≡ none
  pub offered :
      (p : ℕ) (m : Gtpv2Message) → p < c.next → (c.txs p).response ≡ some m → Answers (c.txs p) m
  pub returned :
      (p : ℕ) (m : Gtpv2Message) → p < c.next → (c.txs p).result ≡ some (ok m) → Answers (c.txs p) m

pub new_client-IsMatched :
    (remote : UdpAddr) (h : Bool) (blank : ℕ → Transaction) → IsMatched (new_client remote h blank)
unfolding new_client lookup
new_client-IsMatched remote h blank = record {
  filed = λ n p e. cc;
  waiting = λ p l e. absurd (omega arith);
  shut_before = λ e. cc;
  drained = λ n e. cc;
  offered = λ p m l e. absurd (omega arith);
  returned = λ p m l e. absurd (omega arith);
}

abbrev pub fresh : ℕ → ℕ → Transaction
fresh n expected = record {
  sequence = n;
  expected_type = expected;
  response = none;
  failure = none;
  result = none;
}

register-IsMatched :
    (c c' : Client) (n expected : ℕ)
    → IsMatched c
    → register_transaction c (fresh n expected) ≡ ok c'
    → IsMatched c'
unfolding register_transaction
register-IsMatched c c' n expected h e = elim (Option-cases (lookup n c.pending)) [
  | inr (p, found) ↦ absurd (ground arith)
  | inl absent ↦
      let still : c.closed ≡ false = ground arith in
      let c'' : Client = record (put_tx c c.next (fresh n expected)) {
        next = c.next + 1;
        pending = insert n c.next c.pending;
      } in
      let same : c'' ≡ c' = ground arith in
      subst IsMatched same (record {
        filed = λ k p e. ground (arith, lookup-insert k n c.next c.pending, h.filed k p);
        shut_before = λ e. ground (arith, h.shut_before);
        drained = λ k e. absurd (ground (arith, h.shut_before));
        waiting = λ p l e. ground (
          arith,
          lookup-insert (c.txs p).sequence n c.next c.pending,
          lookup-insert n n c.next c.pending,
          h.waiting p,
        );
        offered = λ p m l e. ground (arith, h.offered p m);
        returned = λ p m l e. ground (arith, h.returned p m);
      })
]

-- Ending a transaction with a result that is an error, or an answer.
pub finish-IsMatched :
    (c : Client) (p : ℕ) (r : Result TxError Gtpv2Message)
    → IsMatched c
    → p < c.next
    → (c.txs p).result ≡ none
    → ((m : Gtpv2Message) → r ≡ ok m → Answers (c.txs p) m)
    → IsMatched (finish c p r)
unfolding finish unregister_transaction
finish-IsMatched c p r h l waits a = record {
  filed = λ n q e. ground (arith, lookup-delete n (c.txs p).sequence c.pending, h.filed n q);
  waiting = λ q k e. ground (
    arith,
    lookup-delete (c.txs q).sequence (c.txs p).sequence c.pending,
    h.waiting q,
    h.waiting p,
    h.drained (c.txs q).sequence,
  );
  shut_before = λ e. h.shut_before e;
  drained = λ n e. ground (arith, lookup-delete n (c.txs p).sequence c.pending, h.drained n);
  offered = λ q m k e. ground (arith, h.offered q m);
  returned = λ q m k e. ground (arith, h.returned q m, a m);
}

-- What a matched transaction becomes.
matched-IsMatched :
    (c : Client) (p : ℕ) (msg : Gtpv2Message)
    → IsMatched c
    → lookup msg.sequence c.pending ≡ some p
    → IsMatched (put_tx c p (matched (c.txs p) msg))
unfolding matched
matched-IsMatched c p msg h found = record {
  filed = λ n q e. ground (arith, h.filed n q);
  waiting = λ q k e. ground (arith, h.waiting q, h.filed msg.sequence p);
  shut_before = λ e. h.shut_before e;
  drained = λ n e. h.drained n e;
  offered = λ q m k e. ground (arith, h.offered q m, h.filed msg.sequence p);
  returned = λ q m k e. ground (arith, h.returned q m);
}

-- A packet changes nothing, or offers itself to the transaction of its number.
pub handle_cases :
    (c : Client) (packet : Bytes) (peer : UdpAddr)
    → ((handle_incoming c packet peer).1 ≡ c)
      ⊎ ((m : Gtpv2Message) × (p : ℕ) × (lookup m.sequence c.pending ≡ some p)
          × ((handle_incoming c packet peer).1 ≡ put_tx c p (matched (c.txs p) m)))
unfolding handle_incoming dispatch
handle_cases c packet peer = elim (Result-cases (decode packet)) [
  | inr (x, bad) ↦ inl (ground arith)
  | inl (m, read) ↦
      elim (Bool-cases (
        not (ip_equal peer.ip c.remote.ip)
        || (peer.port != c.remote.port)
        || (m.type == gtpv2_echo_request)
        || (m.type == gtpv2_delete_session_req))) [
          | inl other ↦ inl (ground arith)
          | inr own ↦ elim (Option-cases (lookup m.sequence c.pending)) [
            | inl absent ↦ inl (ground arith)
            | inr (p, found) ↦ inr (m, p, found, ground arith)
          ]
        ]
]

pub handle_incoming-IsMatched :
    (c : Client) (packet : Bytes) (peer : UdpAddr)
    → IsMatched c
    → IsMatched (handle_incoming c packet peer).1
handle_incoming-IsMatched c packet peer h = elim (handle_cases c packet peer) [
  | inl same ↦ subst IsMatched (sym same) h
  | inr (m, p, found, same) ↦ subst IsMatched (sym same) (matched-IsMatched c p m h found)
]

-- failPending touches the failures only.
abbrev SameBut : Transaction → Transaction → Type 0
SameBut t s =
    (t.sequence ≡ s.sequence)
    × (t.expected_type ≡ s.expected_type)
    × (t.response ≡ s.response)
    × (t.result ≡ s.result)

fail_loop-same :
    (e : TxError) (table : Assoc ℕ ℕ) (txs : ℕ → Transaction) (q : ℕ)
    → SameBut (fail_loop e table txs q) (txs q)
unfolding fail_loop
fail_loop-same e [] txs q = (refl, refl, refl, refl)
fail_loop-same e ((n, p) ∷ rest) txs q = ground (arith, fail_loop-same e rest (fail_at e p txs) q)

fail_loop-keeps :
    (e : TxError) (table : Assoc ℕ ℕ) (txs : ℕ → Transaction) (q : ℕ)
    → has_failure (txs q) ≡ true
    → has_failure (fail_loop e table txs q) ≡ true
unfolding fail_loop
fail_loop-keeps e [] txs q h = h
fail_loop-keeps e ((n, p) ∷ rest) txs q h =
    fail_loop-keeps e rest (fail_at e p txs) q (ground arith)

-- And it leaves one with each transaction of the table.
fail_loop-fails :
    (e : TxError) (table : Assoc ℕ ℕ) (txs : ℕ → Transaction) (n p : ℕ)
    → lookup n table ≡ some p
    → has_failure (fail_loop e table txs p) ≡ true
unfolding fail_loop lookup
fail_loop-fails e [] txs n p found = absurd (ground arith)
fail_loop-fails e ((k, q) ∷ rest) txs n p found = elim (Bool-cases (k == n)) [
  | inl here ↦ fail_loop-keeps e rest (fail_at e q txs) p (ground arith)
  | inr there ↦ fail_loop-fails e rest (fail_at e q txs) n p (ground arith)
]

pub close_channel-IsMatched : (c : Client) → IsMatched c → IsMatched (close_channel c)
unfolding close_channel
close_channel-IsMatched c h = record {
  filed = λ n p e. h.filed n p e;
  waiting = λ p l e. h.waiting p l e;
  shut_before = λ e. refl;
  drained = λ n e. h.drained n e;
  offered = λ p m l e. h.offered p m l e;
  returned = λ p m l e. h.returned p m l e;
}

pub fail_pending-IsMatched :
    (c : Client) → c.closed ≡ true → IsMatched c → IsMatched (fail_pending c)
unfolding fail_pending lookup
fail_pending-IsMatched c shut h = record {
  filed = λ n p e. cc;
  waiting = λ p l e. inr (refl, failed p l (ground (arith, same p)));
  shut_before = λ e. shut;
  drained = λ n e. refl;
  offered = λ p m l e. ground (arith, same p, h.offered p m);
  returned = λ p m l e. ground (arith, same p, h.returned p m);
}
  where
    same : (p : ℕ) → SameBut (fail_loop client_closed c.pending c.txs p) (c.txs p)
    same p = fail_loop-same client_closed c.pending c.txs p

    failed :
        (p : ℕ)
        → p < c.next
        → (c.txs p).result ≡ none
        → has_failure (fail_loop client_closed c.pending c.txs p) ≡ true
    failed p l e = elim (h.waiting p l e) [
      | inl found ↦ fail_loop-fails client_closed c.pending c.txs (c.txs p).sequence p found
      | inr (closed, old) ↦ fail_loop-keeps client_closed c.pending c.txs p old
    ]

-- What a registration did.
pub register_lem :
    (c c' : Client) (n expected : ℕ)
    → register_transaction c (fresh n expected) ≡ ok c'
    → (c'.txs c.next ≡ fresh n expected)
      × (c'.next ≡ c.next + 1)
      × (lookup n c'.pending ≡ some c.next)
unfolding register_transaction
register_lem c c' n expected e = elim (Option-cases (lookup n c.pending)) [
  | inr (p, found) ↦ absurd (ground arith)
  | inl absent ↦ ground (arith, lookup-insert n n c.next c.pending)
]

pub start_transaction-IsMatched :
    (c : Client) (req : Gtpv2Message) (expected n : ℕ)
    → IsMatched c
    → IsMatched (start_transaction c req expected n).1
unfolding start_transaction
start_transaction-IsMatched c req expected n h =
    elim (Result-cases (register_transaction c (fresh n expected))) [
      | inr (e, refused) ↦ rw refused h
      | inl (c', done) ↦ elim (Result-cases (encode (record req { sequence = n }))) [
        | inl (b, sent) ↦ rw (done, sent) (register-IsMatched c c' n expected h done)
        | inr (e, bad) ↦
            let (blank, larger, named) = register_lem c c' n expected done in
            rw (done, bad)
              (finish-IsMatched c' c.next (err (bad_message e))
                (register-IsMatched c c' n expected h done) (omega (arith, larger))
                (ap (λ (t : Transaction). t.result) blank) (λ m x. absurd (ground arith)))
      ]
    ]
