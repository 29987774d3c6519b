-- ===== src/Fsm/Join/Ends.antt =====
-- In which states `join` returns.
use s2c_rs.Base.{
  Bytes, ℕ, ◌≡◌, refl, subst, ◌≢◌, ◌⊎◌, inl, inr, returns, Holds, Holds-returns, Holds-all,
}
use s2c_rs.Codec.{Codec}
use s2c_rs.Proto.{LogEntry, S2cMessage}
use s2c_rs.Store.{ObjectStore, StoreLaws}
use s2c_rs.Fsm.{Fsm, not_joined}
use s2c_rs.Fsm.Leadership.{attempt_leadership, won}
use s2c_rs.Fsm.Leadership.Safety.{Attempted, wins, loses, stops, attempt_leadership-Ended}
use s2c_rs.Fsm.Join.Rounds.{join-keeps}
use s2c_rs.Fsm.Join.{Link, discover_leader_state, connect, follow_leader, join}

abbrev Moved : Fsm → Fsm → Type 0
Moved fsm g = (g ≡ fsm) ⊎ (g.state ≢ not_joined)

module _ (S : ObjectStore) (L : StoreLaws S) (K : Link S) where
  module _ (C : Codec LogEntry) (M : Codec S2cMessage) where
    open S use {State}

    Attempted-Moved :
        {fsm g : Fsm} {v : Bytes} {s t : State} → Attempted S L fsm v s g t → Moved fsm g
    unfolding won
    Attempted-Moved (wins e a c) = inr (rw e (λ k. cc))
    Attempted-Moved (loses e c) = inl e
    Attempted-Moved (stops e) = inr (rw e (λ k. cc))

    attempt-Moved :
        (fsm g : Fsm) (fuel rounds : ℕ) (s : State)
        → g.state ≡ not_joined
        → Moved fsm g
        → Holds (λ o. Moved fsm o.0) (attempt_leadership S C fuel rounds g s)
    attempt-Moved fsm g fuel rounds s n (inr m) = absurd (m n)
    attempt-Moved fsm g fuel rounds s n (inl e) =
        Holds-all (attempt_leadership S C fuel rounds g s) (λ o h.
          subst (λ f. Moved f o.0) e
            (Attempted-Moved (attempt_leadership-Ended S L C fuel rounds g o.0 s o.1 h).1))

    -- A `join` of a `NOT_JOINED` node that returns leaves the node as it was or in another state
    -- than `NOT_JOINED`.
    pub join_settles :
        (fuel rounds : ℕ) (fsm g : Fsm) (s t : State)
        → join S K C M fuel rounds fsm s ≡ returns (g, t)
        → (g ≡ fsm) ⊎ (g.state ≢ not_joined)
    join_settles fuel rounds fsm g s t h =
        Holds-returns (λ o. Moved fsm o.0) h
          (join-keeps S K C M (λ g s. Moved fsm g)
            (record {
              discovers = λ f fuel rounds s m.
                  Holds-all (discover_leader_state S C fuel rounds f s) (λ o _. m);
              connects = λ f fuel id s m. Holds-all (connect S K fuel f id s) (λ o _. m);
              follows = λ f fuel s n m.
                  Holds-all (follow_leader S K M fuel f s) (λ o _. (m, λ _. inr (λ k. cc)));
              attempts = λ f fuel rounds s n m. attempt-Moved fsm f fuel rounds s n m;
            })
            fuel rounds fsm s (inl refl))
