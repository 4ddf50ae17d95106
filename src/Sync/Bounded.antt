-- ===== src/Sync/Bounded.antt =====
-- A concrete channel that behaves as tokio's documentation says, and facts about every such channel.
use daemon_choir.Base.{
  ℕ, ◌≤◌, ◌<◌, ◌≡◌, ◌≢◌, refl, sym, ap, ◌∙◌, subst, false, Option, none, some, Bool, true, List, [],
  ◌∷◌, ◌++◌, length, length-append, arith, leb, if◌then◌else◌, ◌⊎◌, inl, inr, All, All-append,
  Bool-cases,
}
use daemon_choir.Sync.{Sender, IsMpsc, TrySend, Receiver, IsFifo}

pub record Chan (A : Type 0) : Type 0 where
  pub items : List A
  pub room : ℕ
  pub shut : Bool

module _ {A : Type 0} where
  abbrev chan_try_send : Chan A → A → TrySend × Chan A
  chan_try_send s a =
      if s.shut
      then (TrySend.closed, s)
      else if leb s.room (length s.items)
      then (TrySend.full, s)
      else (TrySend.sent, record s { items = s.items ++ (a ∷ []) })

  instance abbrev pub chan_sender : Sender A (Chan A)
  chan_sender = record {
    try_send = chan_try_send;
    queued = λ s. s.items;
    capacity = λ s. s.room;
    is_closed = λ s. s.shut;
  }

  pub Chan-IsMpsc : IsMpsc A (Chan A)
  Chan-IsMpsc = record {
    send_room = λ s a open_ room. ground arith;
    send_full = λ s a open_ full. ground arith;
    send_closed = λ s a shut. ground arith;
    send_keeps = λ s a. ground arith;
  }

module _ {A : Type 0} where
  abbrev chan_recv : List A → ℕ → Bool → Option (A × Chan A)
  chan_recv [] room shut = none
  chan_recv (a ∷ items) room shut = some (a, record { items = items; room = room; shut = shut })

  instance abbrev pub chan_receiver : Receiver A (Chan A)
  chan_receiver = record {
    channel = λ n. record { items = []; room = n; shut = false };
    recv = λ s. chan_recv s.items s.room s.shut;
  }

  chan_recv-some :
      (items : List A) (room : ℕ) (shut : Bool) (a : A) (s' : Chan A)
      → chan_recv items room shut ≡ some (a, s')
      → (items ≡ a ∷ s'.items) × (s'.room ≡ room) × (s'.shut ≡ shut)
  chan_recv-some [] room shut a s' e = absurd (ground arith)
  chan_recv-some (x ∷ items) room shut a s' e = (ground arith, ground arith, ground arith)

  pub Chan-IsFifo : IsFifo A (Chan A)
  Chan-IsFifo = record {
    channel_empty = λ n. refl;
    channel_capacity = λ n. refl;
    channel_open = λ n. refl;
    recv_first = λ s s' a e. (chan_recv-some s.items s.room s.shut a s' e).0;
    recv_keeps = λ s s' a e. let t = chan_recv-some s.items s.room s.shut a s' e in (t.1, t.2);
    recv_next = λ s a l e.
        (record { items = l; room = s.room; shut = s.shut }, ap (λ k. chan_recv k s.room s.shut) e);
  }

-- What `try_send` leaves in the channel, on every outcome.
abbrev pub Delivers : {A S : Type 0} ⦃c : Sender A S⦄ → S → A → TrySend → S → Type 0
Delivers ⦃c⦄ s a TrySend.sent s' =
    (c.queued s' ≡ c.queued s ++ (a ∷ [])) × (length (c.queued s') ≤ c.capacity s)
Delivers ⦃c⦄ s a TrySend.full s' = (c.queued s' ≡ c.queued s) × (c.capacity s ≤ length (c.queued s))
Delivers ⦃c⦄ s a TrySend.closed s' = (c.queued s' ≡ c.queued s) × (c.is_closed s ≡ true)

module _ {A S : Type 0} ⦃c : Sender A S⦄ (laws : IsMpsc A S) where
  open laws use {send_room, send_full, send_closed}

  pub try_send-Delivers : (s : S) (a : A) → Delivers s a (c.try_send s a).0 (c.try_send s a).1
  try_send-Delivers s a = elim (Bool-cases (c.is_closed s)) [
    | inl e ↦ let (t, q) = send_closed s a e in rw t (q, e)
    | inr e ↦ elim (Bool-cases (leb (c.capacity s) (length (c.queued s)))) [
      | inl f ↦
          let le : c.capacity s ≤ length (c.queued s) = ground arith in
          let (t, q) = send_full s a e le in rw t (q, le)
      | inr g ↦
          let lt : length (c.queued s) < c.capacity s = ground arith in
          let (t, q) = send_room s a e lt in
          rw t (q, rw q (omega (arith, length-append (c.queued s) (a ∷ []))))
    ]
  ]

  -- The channel holds what it held, and perhaps the value behind it.
  pub try_send-queued :
      (s : S) (a : A)
      → (c.queued (c.try_send s a).1 ≡ c.queued s)
        ⊎ (c.queued (c.try_send s a).1 ≡ c.queued s ++ (a ∷ []))
  try_send-queued s a = delivered (c.try_send s a).0 (try_send-Delivers s a)
    where
      delivered :
          (t : TrySend)
          → Delivers s a t (c.try_send s a).1
          → (c.queued (c.try_send s a).1 ≡ c.queued s)
            ⊎ (c.queued (c.try_send s a).1 ≡ c.queued s ++ (a ∷ []))
      delivered TrySend.sent d = inr d.0
      delivered TrySend.full d = inl d.0
      delivered TrySend.closed d = inl d.0

  -- A property of all the values in a channel survives `try_send` of a value that has it.
  pub try_send-All :
      (P : A → Type 0) (s : S) (a : A)
      → All P (c.queued s)
      → P a
      → All P (c.queued (c.try_send s a).1)
  try_send-All P s a h p = elim (try_send-queued s a) [
    | inl e ↦ rw e h
    | inr e ↦ rw e (All-append P (c.queued s) (a ∷ []) h (p, tt))
  ]

  -- While the receiver lives, `try_send` never says that it is closed.
  pub try_send-ne-closed :
      (s : S) (a : A) → c.is_closed s ≡ false → (c.try_send s a).0 ≢ TrySend.closed
  try_send-ne-closed s a open_ e =
      let d : Delivers s a TrySend.closed (c.try_send s a).1 =
        subst (λ t. Delivers s a t (c.try_send s a).1) e (try_send-Delivers s a) in
      absurd (let q = sym open_ ∙ d.1 in grind arith)
