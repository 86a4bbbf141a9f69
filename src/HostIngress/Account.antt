-- ===== src/HostIngress/Account.antt =====
-- The bytes of the sessions of vm-frontend/src/host_ingress.rs: what the gateway does to them, and
-- what it is that none is lost.
use wrapper.Common.{
  ℕ, ◌≤◌, ◌≡◌, ◌≢◌, refl, true, String, List, [], ◌++◌, Bytes, length, take, inl, inr, ◌⊎◌,
}
use wrapper.StreamBuffer.{NonblockingRead, payload, closed, would_block, done, io_error, IoResult}
use wrapper.GuestTcp.Sockets.{Handle}
use wrapper.HostIngress.{HostIngressSession, HostIngressBufferLimits, SessionGateway, Pump}

module _ (sessions : SessionGateway) where
  open sessions use {
    Gateway, RecvError, SendError, ConnectError, send, receive, close, connect, sent, got,
  }

  -- What a send of the bytes does, from the one gateway to the other.
  abbrev pub SendKeeps : Handle → Bytes → Gateway → SendError ⊎ (ℕ × List Bytes) → Gateway → Type 0
  SendKeeps handle bytes g (inl e) g' =
      (sent handle g' ≡ sent handle g) × (got handle g' ≡ got handle g)
  SendKeeps handle bytes g (inr (n, frames)) g' =
      (sent handle g' ≡ sent handle g ++ take n bytes) × (got handle g' ≡ got handle g)

  abbrev pub ReceiveKeeps : Handle → Gateway → RecvError ⊎ Bytes → Gateway → Type 0
  ReceiveKeeps handle g (inl e) g' =
      (sent handle g' ≡ sent handle g) × (got handle g' ≡ got handle g)
  ReceiveKeeps handle g (inr bytes) g' =
      (sent handle g' ≡ sent handle g) × (got handle g' ≡ got handle g ++ bytes)

  -- The other sessions are as before.
  abbrev pub Others : Handle → Gateway → Gateway → Type 0
  Others handle g g' = (k : Handle) → k ≢ handle → (sent k g' ≡ sent k g) × (got k g' ≡ got k g)

  -- All sessions are.
  abbrev pub SameAccounts : Gateway → Gateway → Type 0
  SameAccounts g g' = (k : Handle) → (sent k g' ≡ sent k g) × (got k g' ≡ got k g)

  -- A new session has passed on nothing.
  abbrev pub Connects : Gateway → ConnectError ⊎ (Handle × List Bytes) → Gateway → Type 0
  Connects g (inl e) g' = SameAccounts g g'
  Connects g (inr (handle, frames)) g' =
      (sent handle g' ≡ []) × ((got handle g' ≡ []) × Others handle g g')

  pub record SessionGatewayLaws : Type 0 where
    pub send-SendKeeps :
        (handle : Handle) (bytes : Bytes) (g : Gateway)
        → SendKeeps handle bytes g (send handle bytes g).0 (send handle bytes g).1
    pub receive-ReceiveKeeps :
        (handle : Handle) (g : Gateway)
        → ReceiveKeeps handle g (receive handle g).0 (receive handle g).1
    pub send-Others :
        (handle : Handle) (bytes : Bytes) (g : Gateway) → Others handle g (send handle bytes g).1
    pub receive-Others : (handle : Handle) (g : Gateway) → Others handle g (receive handle g).1
    pub close-Others : (handle : Handle) (g : Gateway) → Others handle g (close handle g).1
    pub connect-Connects :
        (guest_port local_port : ℕ) (g : Gateway)
        → Connects g (connect guest_port local_port g).0 (connect guest_port local_port g).1

  module _ (buffer_limits : HostIngressBufferLimits) (handle : Handle) where
    -- Each direction: what has arrived and what is pending are what was given, and the pending bytes
    -- are within their limit.
    abbrev pub Conserved : Gateway → HostIngressSession → Type 0
    Conserved g s =
        ((sent handle g ++ s.pending_guest_write ≡ s.connection.given)
          × (length s.pending_guest_write ≤ buffer_limits.pending_guest_write))
        × ((s.connection.writes.taken ++ s.pending_host_write ≡ got handle g)
            × (length s.pending_host_write ≤ buffer_limits.pending_host_write))

    abbrev pub Flow : Pump sessions → Type 0
    Flow p = (p.removed ≡ true) ⊎ Conserved p.gateway p.session

pub keep {ℓ κ μ} : {A : Type ℓ} {B : Type κ} {R : Type μ} → (A → B) → R ⊎ A → R ⊎ B
keep f (inl r) = inl r
keep f (inr a) = inr (f a)

pub IoResult-cases {ℓ} :
    {A : Type ℓ} (r : IoResult A) → ((a : A) × (r ≡ done a)) ⊎ ((e : String) × (r ≡ io_error e))
IoResult-cases (done a) = inl (a, refl)
IoResult-cases (io_error e) = inr (e, refl)

pub NonblockingRead-cases :
    (r : NonblockingRead)
    → ((bytes : Bytes) × (r ≡ payload bytes)) ⊎ ((r ≡ closed) ⊎ (r ≡ would_block))
NonblockingRead-cases (payload bytes) = inl (bytes, refl)
NonblockingRead-cases closed = inr (inl refl)
NonblockingRead-cases would_block = inr (inr refl)
