-- ===== src/Fsm/Start/Followed.antt =====
-- What a node that `start` leaves as a follower has from its client.
use s2c_rs.Base.{ℕ, ◌≡◌, ◌≢◌, refl, none, Bool, List, [], returns, Holds, Holds-returns}
use s2c_rs.Codec.{Codec}
use s2c_rs.Config.{S2cOptions}
use s2c_rs.Context.{Context}
use s2c_rs.Proto.{LogEntry, S2cMessage, StateRequest, Batch}
use s2c_rs.Store.{ObjectStore}
use s2c_rs.Log.Keeps.{append-keeps}
use s2c_rs.Net.Client.{Client}
use s2c_rs.Net.Client
use s2c_rs.Net.Client.System.{Reach, start}
use s2c_rs.Net.Client.Runs.{Reach-trans, Sending-Reach}
use s2c_rs.Net.Client.Answers.{answers_match}
use s2c_rs.Fsm.{Fsm, follower, not_joined}
use s2c_rs.Fsm.Follower.{accept}
use s2c_rs.Fsm.Leadership.Keeps.{IsSame}
use s2c_rs.Fsm.Follower.Rounds.{follower_loop-keeps}
use s2c_rs.Fsm.Leader.Rounds.{leader_loop-keeps}
use s2c_rs.Fsm.Join.{Link}
use s2c_rs.Fsm.Join.Client.{HasClient}
use s2c_rs.Fsm.Join.Answers.{FollowAnswer, Traced, Traced-StoreKeeps, Traced-node, join-Traced}
use s2c_rs.Fsm.Start.{Shift, turn}
use s2c_rs.Fsm.Start.Rounds.{turns, turn-keeps, turns-keeps}

module _ (S : ObjectStore) (K : Link S) (runs : Bool → Bool) (M : Codec S2cMessage)
    (client : S.State → Client) (H : HasClient S K runs M client) where
  open S use {State}

  module _ (node : Fsm) (c : Client) where
    abbrev Known : Fsm → State → Type 0
    Known fsm s = Traced S K runs M client H node c fsm s

    moves :
        (fsm g : Fsm) (s : State)
        → g.node_identity ≡ fsm.node_identity
        → g.apply_index ≡ fsm.apply_index
        → g.group ≡ fsm.group
        → (g.state ≡ follower → fsm.state ≡ follower)
        → Known fsm s
        → Known g s
    moves = Traced-node S K runs M client H node c

    module _ (C : Codec LogEntry) (R : Codec StateRequest) (B : Codec Batch) where
      turn-Known :
          (fuel rounds : ℕ) (fsm : Fsm) (shift : Shift) (s : State)
          → Known fsm s
          → Holds (λ o. Known o.0 o.1) (turn S K C M R B fuel rounds fsm shift s)
      turn-Known =
          turn-keeps S K C M R B Known (join-Traced S K runs M client H node c C)
            (λ fsm es s e a.
              follower_loop-keeps (λ g. Known g s)
                (λ g n. moves g (record g { missed_heartbeats = n }) s refl refl refl (λ j. j))
                (λ g. moves g (record g { state = not_joined }) s refl refl refl (λ j. absurd cc))
                (λ r g.
                  moves g (record g { sync_queue = accept r g.sync_queue }) s refl refl refl
                    (λ j. j))
                fsm es a)
            (λ fsm rounds rs s e a.
              leader_loop-keeps S Known
                (λ g ids u. moves g (record g { followers = ids }) u refl refl refl (λ j. j))
                (λ f v g u k.
                  append-keeps S (Known g) (Traced-StoreKeeps S K runs M client H node c g) f
                    g.s2c_log g.commit_index v u k)
                R B rounds (record { fsm = fsm; acc = [] }) rs s a)

  -- If a node that is not `FOLLOWER`, with a client in any state that a new client can reach, is
  -- `FOLLOWER` after any number of turns of `start` that return, then on the way there its client
  -- sent the follow request of the node and returned a message for it, which carries the
  -- correlation id of the request and no error.
  pub follower_was_answered :
      (o : S2cOptions) (context : Context) (C : Codec LogEntry) (R : Codec StateRequest)
      (B : Codec Batch) (fuel rounds : ℕ) (fsm g : Fsm) (shifts : List Shift) (s t : State)
      → Reach runs M (Client.new o context) (client s)
      → fsm.state ≢ follower
      → turns S K C M R B fuel rounds fsm shifts s ≡ returns (g, t)
      → g.state ≡ follower
      → (a : FollowAnswer S K runs M fsm (client s) (client t)) × (a.message.correlation_id ≡ a.id)
        × (a.message.error ≡ none)
  follower_was_answered o context C R B fuel rounds fsm g shifts s t r u h f =
      let same : IsSame fsm fsm = record {
        node_identity = refl;
        apply_index = refl;
        group = refl;
      } in
      let (q, e, k) =
        Holds-returns (λ x. Known fsm (client s) x.0 x.1) h
          (turns-keeps S K C M R B (Known fsm (client s)) (turn-Known fsm (client s) C R B) fuel
            rounds fsm shifts s (start, same, λ j. absurd (u j))) in
      let a = k f in
      let (own, clean) =
        answers_match runs M o context a.left a.sending.call a.id a.message
          (Reach-trans runs M r (Sending-Reach runs M a.sending)) a.sending.answer in
      (a, own, clean)
