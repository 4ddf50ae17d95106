-- ===== src/Ringbuf.antt =====
-- crates/conductor/src/ringbuf.rs: the task that hands each raw event to the database and to the
-- aggregator.
use daemon_choir.Base.{
  ℕ, zero, ◌≢◌, suc, ◌+◌, ◌-◌, ◌≡◌, refl, sym, ap, ◌∙◌, arith, false, List, [], ◌∷◌, ◌++◌, take,
  length, length-append,
}
use mathlib.Core.List.{append-nil, append_assoc}
use daemon_choir.Events.{RawEvent}
use daemon_choir.Sync.{Sender, TrySend, IsMpsc}

-- `self`, with the events for which a task that inserts them was spawned
pub record RingbufConsumer (Tx : Type 0) : Type 0 where
  pub aggregator_tx : Tx
  pub insertions : List RawEvent

-- whether the loop of `run` goes on
pub data Consumed (Tx : Type 0) : Type 0 where
  next : RingbufConsumer Tx → Consumed Tx
  exited : RingbufConsumer Tx → Consumed Tx

module _ {Tx : Type 0} ⦃tx : Sender RawEvent Tx⦄ where
  unfoldable pub after_try_send : TrySend → RingbufConsumer Tx → Consumed Tx
  after_try_send TrySend.closed r = exited r
  after_try_send _ r = next r

  -- the body of `while let`, for one event
  unfoldable pub consume : RingbufConsumer Tx → RawEvent → Consumed Tx
  unfolding after_try_send
  consume r event = after_try_send (tx.try_send r.aggregator_tx event).0 (record {
    aggregator_tx = (tx.try_send r.aggregator_tx event).1;
    insertions = r.insertions ++ (event ∷ []);
  })

  -- the rest of `run` after one event
  abbrev continue_with :
      Consumed Tx → (RingbufConsumer Tx → RingbufConsumer Tx) → RingbufConsumer Tx
  continue_with (next r) k = k r
  continue_with (exited r) k = r

  -- `run`, on the events received until the probes' channel is closed
  unfoldable pub consume_all : RingbufConsumer Tx → List RawEvent → RingbufConsumer Tx
  unfolding consume
  consume_all r [] = r
  consume_all r (e ∷ es) = continue_with (consume r e) (λ r'. consume_all r' es)

  -- how many more events the channel holds
  abbrev pub room : Tx → ℕ
  room s = tx.capacity s - length (tx.queued s)

  consumed :
      (t : TrySend) (s' : Tx) (r : RingbufConsumer Tx) (event : RawEvent) (es : List RawEvent)
      → (tx.try_send r.aggregator_tx event) ≡ (t, s')
      → t ≢ TrySend.closed
      → consume_all r (event ∷ es)
        ≡ consume_all (record { aggregator_tx = s'; insertions = r.insertions ++ (event ∷ []) }) es
  unfolding consume_all consume after_try_send
  consumed TrySend.closed s' r event es e h = absurd (h refl)
  consumed TrySend.sent s' r event es e h = rw e refl
  consumed TrySend.full s' r event es e h = rw e refl

  -- what the run leaves where `n` more events fit
  abbrev Kept : ℕ → RingbufConsumer Tx → List RawEvent → RingbufConsumer Tx → Type 0
  Kept n r l r' =
      (r'.insertions ≡ r.insertions ++ l)
      × (tx.queued r'.aggregator_tx ≡ tx.queued r.aggregator_tx ++ take n l)

  kept :
      IsMpsc RawEvent Tx
      → (n : ℕ) (r : RingbufConsumer Tx) (l : List RawEvent) → tx.is_closed r.aggregator_tx ≡ false
      → room r.aggregator_tx ≡ n
      → Kept n r l (consume_all r l)
  unfolding consume_all
  kept laws zero r [] open_ fits = (sym (append-nil _), sym (append-nil _))
  kept laws (suc n) r [] open_ fits = (sym (append-nil _), sym (append-nil _))
  kept laws zero r (e ∷ es) open_ fits =
      let s = r.aggregator_tx in
      let (t, q) = laws.send_full s e open_ (omega arith) in
      let (cap, closed) = laws.send_keeps s e in
      let s' = (tx.try_send s e).1 in
      let lengths : length (tx.queued s') ≡ length (tx.queued s) = ap length q in
      let (i, k) =
        kept laws zero (record { aggregator_tx = s'; insertions = r.insertions ++ (e ∷ []) }) es
          (closed ∙ open_) (omega arith) in
      rw (consumed TrySend.full s' r e es (ap (λ o. (o, s')) t) (λ p. absurd (grind arith)))
        (i ∙ append_assoc r.insertions (e ∷ []) es, k ∙ ap (λ l. l ++ []) q)
  kept laws (suc n) r (e ∷ es) open_ fits =
      let s = r.aggregator_tx in
      let (t, q) = laws.send_room s e open_ (omega arith) in
      let (cap, closed) = laws.send_keeps s e in
      let s' = (tx.try_send s e).1 in
      let lengths : length (tx.queued s') ≡ length (tx.queued s) + 1 =
        ap length q ∙ length-append (tx.queued s) (e ∷ []) in
      let (i, k) =
        kept laws n (record { aggregator_tx = s'; insertions = r.insertions ++ (e ∷ []) }) es
          (closed ∙ open_) (omega arith) in
      rw (consumed TrySend.sent s' r e es (ap (λ o. (o, s')) t) (λ p. absurd (grind arith))) (
        i ∙ append_assoc r.insertions (e ∷ []) es,
        k ∙ ap (λ l. l ++ take n es) q ∙ append_assoc (tx.queued s) (e ∷ []) (take n es),
      )

  -- For a channel to the aggregator that behaves as documented and is not closed: an insertion
  -- into the database is started for every event, in order, also for those that find the channel
  -- full; and the channel gets exactly the first events, as many as it has room for.
  pub consume_all-keeps :
      IsMpsc RawEvent Tx
      → (r : RingbufConsumer Tx) (l : List RawEvent) → tx.is_closed r.aggregator_tx ≡ false
      → ((consume_all r l).insertions ≡ r.insertions ++ l)
        × (tx.queued (consume_all r l).aggregator_tx
            ≡ tx.queued r.aggregator_tx ++ take (room r.aggregator_tx) l)
  consume_all-keeps laws r l open_ = kept laws (room r.aggregator_tx) r l open_ refl
