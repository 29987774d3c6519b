-- ===== src/Fsm/Start/Lost.antt =====
-- `start` on a node whose client has lost its connection.
use s2c_rs.Base.{
  ℕ, ◌≡◌, ◌≢◌, Bool, true, false, Bytes, List, [], returns, Holds, Holds-mono, Holds-returns,
  Holds-all, subst,
}
use s2c_rs.Codec.{Codec}
use s2c_rs.Proto.{LogEntry, S2cMessage, StateRequest, Batch}
use s2c_rs.Store.{ObjectStore}
use s2c_rs.Log.{append}
use s2c_rs.Log.Keeps.{StoreKeeps, append-keeps}
use s2c_rs.Net.Client.{Client, not_connected, free}
use s2c_rs.Net.Client.System.{Ended}
use s2c_rs.Net.Client.Runs.{Sending-Reach, Connecting-Reach, Sending}
use s2c_rs.Net.Client.Reconnect.Late.{IsDead}
use s2c_rs.Net.Client.Reconnect.{Reach-IsDead, lost-IsDead, Sending-IsDead}
use s2c_rs.Fsm.{Fsm, follower}
use s2c_rs.Fsm.Leadership.{attempt_leadership}
use s2c_rs.Fsm.Leadership.Keeps.{attempt-keeps, attempt_unfollowing}
use s2c_rs.Fsm.Leader.Rounds.{leader_loop-keeps}
use s2c_rs.Fsm.Join.{Link, discover_leader_state, connect, follow_leader}
use s2c_rs.Fsm.Join.Client.{HasClient}
use s2c_rs.Fsm.Join.Reads.{LinkHolds, discover-keeps, connect-keeps, follow-keeps}
use s2c_rs.Fsm.Join.Rounds.{JoinKeeps}
use s2c_rs.Fsm.Start.{Shift, turn}
use s2c_rs.Fsm.Start.Rounds.{turns, turn-keeps, turns-keeps}

module _ (S : ObjectStore) (K : Link S) (runs : Bool → Bool) (M : Codec S2cMessage)
    (client : S.State → Client) (H : HasClient S K runs M client) (stay : runs true ≡ false) (n : ℕ)
    (w : Bytes) where
  open S use {State}

  abbrev Dead : State → Type 0
  Dead s = IsDead n w (λ k. ⊥) (client s)

  Dead-StoreKeeps : StoreKeeps S Dead
  Dead-StoreKeeps = record {
    puts = λ p v s d. Reach-IsDead runs M stay (H.puts p v s) d;
    lists = λ p s d. Reach-IsDead runs M stay (H.lists p s) d;
    gets = λ p s d. Reach-IsDead runs M stay (H.gets p s) d;
    reads = λ h s d. Reach-IsDead runs M stay (H.reads h s) d;
  }

  Dead-LinkHolds : LinkHolds S K Dead (λ id payload s. ⊥)
  Dead-LinkHolds = record {
    connects = λ id s d. Reach-IsDead runs M stay (Connecting-Reach runs M (H.connects id s)) d;
    sends =
        λ id payload s d. Reach-IsDead runs M stay (Sending-Reach runs M (H.sends id payload s)) d;
    ids = λ s d. Reach-IsDead runs M stay (H.ids s) d;
    answered = λ id payload s m d e. Sending-IsDead runs M stay d (
        subst (λ r. Sending runs M id payload (client s) r (client (K.send id payload s).1)) e
          (H.sends id payload s));
  }

  abbrev Alone : Fsm → State → Type 0
  Alone fsm s = (fsm.state ≢ follower) × Dead s

  module _ (C : Codec LogEntry) where
    join-Alone : JoinKeeps S K C M Alone
    join-Alone = record {
      discovers = λ fsm fuel rounds s a.
          Holds-mono (discover_leader_state S C fuel rounds fsm s) (λ o d. (a.0, d))
            (discover-keeps S Dead Dead-StoreKeeps C fsm fuel rounds s a.1);
      connects = λ fsm fuel id s a.
          Holds-mono (connect S K fuel fsm id s) (λ o d. (a.0, d))
            (connect-keeps S K Dead _ Dead-LinkHolds fsm fuel id s a.1);
      follows = λ fsm fuel s e a.
          Holds-mono (follow_leader S K M fuel fsm s) (λ o d. ((a.0, d.0), λ k. absurd ((d.1 k).1)))
            (follow-keeps S K Dead _ Dead-LinkHolds M fsm fuel s a.1);
      attempts = λ fsm fuel rounds s e a.
          Holds-all (attempt_leadership S C fuel rounds fsm s) (λ o h. (
            Holds-returns (λ x. x.0.state ≢ follower) h
                (Holds-mono (attempt_leadership S C fuel rounds fsm s) (λ o p. p.1)
                  (attempt_unfollowing S Dead Dead-StoreKeeps C fuel rounds fsm s e)),
            Holds-returns (λ x. Dead x.1) h
                (attempt-keeps S Dead Dead-StoreKeeps C fuel rounds fsm s a.1),
          ));
    }

    module _ (R : Codec StateRequest) (B : Codec Batch) where
      turn-Alone :
          (fuel rounds : ℕ) (fsm : Fsm) (shift : Shift) (s : State)
          → Alone fsm s
          → Holds (λ o. Alone o.0 o.1) (turn S K C M R B fuel rounds fsm shift s)
      turn-Alone =
          turn-keeps S K C M R B Alone join-Alone (λ fsm es s e a. absurd (a.0 e))
            (λ fsm rounds rs s e a.
              leader_loop-keeps S Alone (λ g ids u k. k)
                (λ f v g u k.
                  Holds-mono (append S f g.s2c_log g.commit_index v u) (λ o d. (k.0, d))
                    (append-keeps S Dead Dead-StoreKeeps f g.s2c_log g.commit_index v u k.1))
                R B rounds (record { fsm = fsm; acc = [] }) rs s a)

      turns-Alone :
          (fuel rounds : ℕ) (fsm : Fsm) (shifts : List Shift) (s : State)
          → Alone fsm s
          → Holds (λ o. Alone o.0 o.1) (turns S K C M R B fuel rounds fsm shifts s)
      turns-Alone = turns-keeps S K C M R B Alone turn-Alone

module _ (S : ObjectStore) (K : Link S) (runs : Bool → Bool) (M : Codec S2cMessage)
    (client : S.State → Client) (H : HasClient S K runs M client) (stay : runs true ≡ false) where
  -- If a task that is spawned under a cancelled token does not run, and the client of a node is
  -- not connected, with its token cancelled, its lock free and its tasks ended, then over any
  -- number of turns of `start` that return the node, if it was not `FOLLOWER` at first, does not
  -- become `FOLLOWER` and its client writes nothing.
  pub lost_client_never_follows :
      (C : Codec LogEntry) (R : Codec StateRequest) (B : Codec Batch) (fuel rounds : ℕ)
      (fsm g : Fsm) (shifts : List Shift) (s t : S.State)
      → (client s).cancelled ≡ true
      → (client s).client_state ≡ not_connected
      → (client s).rw_lock ≡ free
      → Ended (client s)
      → fsm.state ≢ follower
      → turns S K C M R B fuel rounds fsm shifts s ≡ returns (g, t)
      → (g.state ≢ follower) × ((client t).written ≡ (client s).written)
  lost_client_never_follows C R B fuel rounds fsm g shifts s t cancelled state lock ended u h =
      let dead = lost-IsDead runs M stay (client s) cancelled state lock ended in
      let a =
        Holds-returns _ h
          (turns-Alone S K runs M client H stay _ _ C R B fuel rounds fsm shifts s (u, dead)) in
      (a.0, a.1.written)
