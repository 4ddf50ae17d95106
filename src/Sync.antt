-- ===== src/Sync.antt =====
-- What the tasks share: `std::sync::RwLock`, and the interface of tokio's bounded channels, which no
-- file of the repository implements.
pub mod Bounded
use daemon_choir.Base.{
  ℕ, ◌≤◌, ◌<◌, ◌≡◌, ◌≢◌, Bool, true, false, Option, none, some, List, [], ◌∷◌, ◌++◌, length,
}

-- A lock is poisoned when a task panicked while it held the lock for writing.
pub data RwLock (A : Type 0) : Type 0 where
  healthy : A → RwLock A
  poisoned : A → RwLock A

module _ {A : Type 0} where
  -- `lock.read()`, of which the program uses a copy of the value; `none` is `Err(PoisonError)`
  abbrev pub read : RwLock A → Option A
  read (RwLock.healthy a) = some a
  read (RwLock.poisoned a) = none

  -- `if let Ok(mut lock) = lock.write() { *lock = update(*lock) }`
  abbrev pub modify : RwLock A → (A → A) → RwLock A
  modify (RwLock.healthy a) update = RwLock.healthy (update a)
  modify (RwLock.poisoned a) update = RwLock.poisoned a

  -- `if let Ok(mut lock) = lock.write() { *lock = value }`
  abbrev pub write : RwLock A → A → RwLock A
  write l value = modify l (λ _. value)

-- The result of `try_send`: `Ok(())`, `Err(TrySendError::Full(_))`, `Err(TrySendError::Closed(_))`.
pub data TrySend : Type 0 where
  sent full closed : TrySend

-- `mpsc::Sender<A>`, whose channel is in a state of type `S`.
pub record Sender (A S : Type 0) : Type 0 where
  pub try_send : S → A → TrySend × S
  -- the values that the receiver has not yet taken, oldest first
  pub queued : S → List A
  pub capacity : S → ℕ
  -- the receiver was dropped or closed
  pub is_closed : S → Bool

-- tokio's documentation of `try_send`: it never waits, and gives the value to the receiver if there
-- is room; otherwise it says why not and changes nothing.
pub record IsMpsc (A S : Type 0) ⦃c : Sender A S⦄ : Type 0 where
  pub send_room :
      (s : S) (a : A)
      → c.is_closed s ≡ false
      → length (c.queued s) < c.capacity s
      → ((c.try_send s a).0 ≡ TrySend.sent) × (c.queued (c.try_send s a).1 ≡ c.queued s ++ (a ∷ []))
  pub send_full :
      (s : S) (a : A)
      → c.is_closed s ≡ false
      → c.capacity s ≤ length (c.queued s)
      → ((c.try_send s a).0 ≡ TrySend.full) × (c.queued (c.try_send s a).1 ≡ c.queued s)
  pub send_closed :
      (s : S) (a : A)
      → c.is_closed s ≡ true
      → ((c.try_send s a).0 ≡ TrySend.closed) × (c.queued (c.try_send s a).1 ≡ c.queued s)
  pub send_keeps :
      (s : S) (a : A)
      → (c.capacity (c.try_send s a).1 ≡ c.capacity s)
        × (c.is_closed (c.try_send s a).1 ≡ c.is_closed s)

-- The other end of a channel: `mpsc::channel(capacity)`, and `recv`, where `none` is a wait.
pub record Receiver (A S : Type 0) : Type 0 where
  pub channel : ℕ → S
  pub recv : S → Option (A × S)

-- tokio's documentation of both: a new channel is empty and open, and values come in the order in
-- which they were sent.
pub record IsFifo (A S : Type 0) ⦃c : Sender A S⦄ ⦃r : Receiver A S⦄ : Type 0 where
  pub channel_empty : (n : ℕ) → c.queued (r.channel n) ≡ []
  pub channel_capacity : (n : ℕ) → c.capacity (r.channel n) ≡ n
  pub channel_open : (n : ℕ) → c.is_closed (r.channel n) ≡ false
  pub recv_first : (s s' : S) (a : A) → r.recv s ≡ some (a, s') → c.queued s ≡ a ∷ c.queued s'
  pub recv_keeps :
      (s s' : S) (a : A)
      → r.recv s ≡ some (a, s')
      → (c.capacity s' ≡ c.capacity s) × (c.is_closed s' ≡ c.is_closed s)
  pub recv_next :
      (s : S) (a : A) (l : List A) → c.queued s ≡ a ∷ l → (s' : S) × (r.recv s ≡ some (a, s'))
