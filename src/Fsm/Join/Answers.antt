-- ===== src/Fsm/Join/Answers.antt =====
-- What a node that `join` leaves as a follower has from its client.
use s2c_rs.Base.{◌≡◌, ◌≢◌, refl, ◌∙◌, subst, Bool, Bytes, ok, Holds-mono, Holds-returns, Holds-all}
use s2c_rs.Codec.{Codec}
use s2c_rs.Proto.{LogEntry, S2cMessage}
use s2c_rs.Store.{ObjectStore}
use s2c_rs.Log.Keeps.{StoreKeeps}
use s2c_rs.Net.Client.{Client}
use s2c_rs.Net.Client.System.{Reach, start}
use s2c_rs.Net.Client.Runs.{Sending, Reach-trans, Sending-Reach, Connecting-Reach, Sending-after}
use s2c_rs.Fsm.{Fsm, follower}
use s2c_rs.Fsm.Leadership.{attempt_leadership}
use s2c_rs.Fsm.Leadership.Keeps.{IsSame, attempt-keeps, attempt_unfollowing}
use s2c_rs.Fsm.Join.{Link, follow_leader, follow_request}
use s2c_rs.Fsm.Join.Client.{HasClient}
use s2c_rs.Fsm.Join.Reads.{LinkHolds, discover-keeps, connect-keeps, follow-keeps}
use s2c_rs.Fsm.Join.Rounds.{JoinKeeps}

module _ (S : ObjectStore) (K : Link S) (runs : Bool → Bool) (M : Codec S2cMessage) where
  -- From `c` on the client sends the node's follow request, and is at `left` where the answer is
  -- returned; `d` comes after this.
  pub record FollowAnswer (node : Fsm) (c d : Client) : Type 0 where
    pub id : Bytes
    pub message : S2cMessage
    pub left : Client
    pub sending : Sending runs M id (M.encode (follow_request S K node id)) c (ok message) left
    pub after : Reach runs M left d

  same_request :
      (fsm g : Fsm) (id : Bytes)
      → IsSame fsm g
      → follow_request S K g id ≡ follow_request S K fsm id
  unfolding follow_request
  same_request fsm g id e = rw (e.node_identity, e.apply_index, e.group) refl

  FollowAnswer-later :
      {node : Fsm} {c d e : Client}
      → Reach runs M d e
      → FollowAnswer node c d
      → FollowAnswer node c e
  FollowAnswer-later r a = record {
    id = a.id;
    message = a.message;
    left = a.left;
    sending = a.sending;
    after = Reach-trans runs M a.after r;
  }

  module _ (client : S.State → Client) (H : HasClient S K runs M client) (node : Fsm)
      (c : Client) where
    open S use {State}

    abbrev pub Traced : Fsm → State → Type 0
    Traced fsm s =
        Reach runs M c (client s)
        × IsSame node fsm
        × (fsm.state ≡ follower → FollowAnswer node c (client s))

    pub Traced-later :
        (fsm : Fsm) (s t : State) → Reach runs M (client s) (client t) → Traced fsm s → Traced fsm t
    Traced-later fsm s t r (q, e, f) = (Reach-trans runs M q r, e, λ k. FollowAnswer-later r (f k))

    pub Traced-StoreKeeps : (fsm : Fsm) → StoreKeeps S (Traced fsm)
    Traced-StoreKeeps fsm = record {
      puts = λ p v s. Traced-later fsm s _ (H.puts p v s);
      lists = λ p s. Traced-later fsm s _ (H.lists p s);
      gets = λ p s. Traced-later fsm s _ (H.gets p s);
      reads = λ h s. Traced-later fsm s _ (H.reads h s);
    }

    -- A call that was answered.
    abbrev Told : Bytes → Bytes → State → Type 0
    Told id payload s = (m : S2cMessage) × Sending runs M id payload c (ok m) (client s)

    Traced-LinkHolds : (fsm : Fsm) → LinkHolds S K (Traced fsm) Told
    Traced-LinkHolds fsm = record {
      connects = λ id s. Traced-later fsm s _ (Connecting-Reach runs M (H.connects id s));
      sends = λ id payload s. Traced-later fsm s _ (Sending-Reach runs M (H.sends id payload s));
      ids = λ s. Traced-later fsm s _ (H.ids s);
      answered = λ id payload s m t e. (
        m,
        Sending-after runs M t.0 (
            subst (λ r. Sending runs M id payload (client s) r (client (K.send id payload s).1)) e
              (H.sends id payload s)),
      );
    }

    Told-FollowAnswer :
        (fsm : Fsm) (s : State)
        → IsSame node fsm
        → ((id : Bytes) × Told id (M.encode (follow_request S K fsm id)) s)
        → FollowAnswer node c (client s)
    Told-FollowAnswer fsm s e (id, (m, x)) = record {
      id = id;
      message = m;
      left = client s;
      sending =
          subst (λ r. Sending runs M id (M.encode r) c (ok m) (client s))
            (same_request node fsm id e) x;
      after = start;
    }

    IsSame-trans : (fsm g : Fsm) → IsSame node fsm → IsSame fsm g → IsSame node g
    IsSame-trans fsm g e f = record {
      node_identity = f.node_identity ∙ e.node_identity;
      apply_index = f.apply_index ∙ e.apply_index;
      group = f.group ∙ e.group;
    }

    -- The node may change in what its follow request does not tell, but not become a follower.
    pub Traced-node :
        (fsm g : Fsm) (s : State)
        → g.node_identity ≡ fsm.node_identity
        → g.apply_index ≡ fsm.apply_index
        → g.group ≡ fsm.group
        → (g.state ≡ follower → fsm.state ≡ follower)
        → Traced fsm s
        → Traced g s
    Traced-node fsm g s n a b f (q, e, k) = (
      q,
      IsSame-trans fsm g e (record { node_identity = n; apply_index = a; group = b }),
      λ j. k (f j),
    )

    pub join-Traced : (C : Codec LogEntry) → JoinKeeps S K C M Traced
    join-Traced C = record {
      discovers = λ fsm fuel rounds s.
          discover-keeps S (Traced fsm) (Traced-StoreKeeps fsm) C fsm fuel rounds s;
      connects =
          λ fsm fuel id s. connect-keeps S K (Traced fsm) _ (Traced-LinkHolds fsm) fsm fuel id s;
      follows = λ fsm fuel s e t.
          Holds-mono (follow_leader S K M fuel fsm s)
            (λ o d. (
              d.0,
              λ k. (
                d.0.0,
                record {
                  node_identity = d.0.1.node_identity;
                  apply_index = d.0.1.apply_index;
                  group = d.0.1.group;
                },
                λ j. Told-FollowAnswer fsm o.1 d.0.1 (d.1 k),
              ),
            ))
            (follow-keeps S K (Traced fsm) _ (Traced-LinkHolds fsm) M fsm fuel s t);
      attempts = λ fsm fuel rounds s e t.
          Holds-all (attempt_leadership S C fuel rounds fsm s) (λ o h.
            let (same, u) =
              Holds-returns (λ x. IsSame fsm x.0 × (x.0.state ≢ follower)) h
                (attempt_unfollowing S (Traced fsm) (Traced-StoreKeeps fsm) C fuel rounds fsm s
                  e) in
            let d =
              Holds-returns (λ x. Traced fsm x.1) h
                (attempt-keeps S (Traced fsm) (Traced-StoreKeeps fsm) C fuel rounds fsm s t) in
            (d.0, IsSame-trans fsm o.0 d.1 same, λ k. absurd (u k)));
    }
