-- ===== src/Net/Client/Quiet/Unlocked.antt =====
-- The first handshake of a client over the methods that take the lock.
use s2c_rs.Base.{
  ℕ, ◌≡◌, refl, sym, ap, ◌∙◌, ◌≢◌, inl, inr, Bool, Bool-cases, Option-cases, Bytes, Result, ok, err,
}
use s2c_rs.Codec.{Codec}
use s2c_rs.Proto.{S2cMessage}
use s2c_rs.Net.Error.{ClientError}
use s2c_rs.Net.Client.{
  ClientState, not_connected, connected, ready, closed, idle, admitted, returned, free, Client,
}
use s2c_rs.Net.Client.Calls.{refusal, send}
use s2c_rs.Net.Client.Connection.{
  connect, connect_tcp, spawn_drain_in, spawn_drain_out, cancel_tasks, close,
}
use s2c_rs.Net.Client.Quiet.Phases.{during, past, IsQuiet, set_call_other}

module _ (k : ℕ) (p : Bytes) where
  -- With the lock free the time of the handshake is over.
  module _ (c : Client) (f : c.rw_lock ≡ free) where
    over : IsQuiet k p c → c.calls k ≢ idle
    over (during h o s) = absurd cc
    over (past h l) = l

    pub send-Quiet :
        (j : ℕ) (id payload : Bytes) → IsQuiet k p c → IsQuiet k p (send j id payload c)
    unfolding send
    send-Quiet j id payload q =
        let l = over q in
        elim (Option-cases (refusal c.client_state)) [
          | inl e ↦
              rw (e, send)
                (past (λ x. cc) (set_call_other k p j (admitted id payload) c.calls (λ x. cc) l))
          | inr (x, e) ↦
              rw (e, send)
                (past (λ x. cc) (set_call_other k p j (returned id (err x)) c.calls (λ x. cc) l))
        ]

    cancel_tasks-Quiet :
        (s : ClientState)
        → c.calls k ≢ idle
        → IsQuiet k p (cancel_tasks (record c { client_state = s }))
    unfolding cancel_tasks
    cancel_tasks-Quiet s l = elim (Bool-cases c.tracker_closed) [
      | inl e ↦ rw e (past (λ x. cc) l)
      | inr e ↦ rw e (past (λ x. cc) l)
    ]

    pub close-Quiet : IsQuiet k p c → IsQuiet k p (close c)
    unfolding close
    close-Quiet q = go c.client_state refl
      where
        go : (s : ClientState) → c.client_state ≡ s → IsQuiet k p (close c)
        go closed e = rw (e, close) q
        go not_connected e = rw (e, close) (cancel_tasks-Quiet closed (over q))
        go connected e = rw (e, close) (cancel_tasks-Quiet closed (over q))
        go ready e = rw (e, close) (cancel_tasks-Quiet closed (over q))

    pub connect-Quiet :
        (runs : Bool → Bool) (C : Codec S2cMessage) (j : ℕ) (id : Bytes)
        (r : Result (Unit {0}) ClientError)
        → c.calls j ≡ idle
        → IsQuiet k p c
        → IsQuiet k p (connect runs C j id r c)
    unfolding connect connect_tcp spawn_drain_in spawn_drain_out
    connect-Quiet runs C j id r a q = go c.client_state refl r
      where
        l : c.calls k ≢ idle
        l = over q

        go :
            (s : ClientState)
            → c.client_state ≡ s
            → (r : Result (Unit {0}) ClientError) → IsQuiet k p (connect runs C j id r c)
        go not_connected e (ok u) =
            rw (e, connect)
              (past (λ h. l (let same : j ≡ k = cc in ap c.calls (sym same) ∙ a))
                (set_call_other k p j _ c.calls (λ x. cc) l))
        go not_connected e (err x) = rw (e, connect) q
        go connected e r = rw (e, connect) q
        go ready e r = rw (e, connect) q
        go closed e r = rw (e, connect) q
