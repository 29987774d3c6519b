-- ===== src/Fsm/Join/Reads.antt =====
-- What `join` does to the store's state before it tries to lead.
use s2c_rs.Base.{
  ℕ, zero, suc, ◌≡◌, inl, inr, Bool-cases, Option, none, some, Option-cases, Bytes, Result, ok, err,
  Result-cases, returns, ◌>>=◌, Holds, Holds-bind, Holds-returns,
}
use s2c_rs.Backoff.{BackoffCounter, can_attempt, await_attempt}
use s2c_rs.Backoff
use s2c_rs.Codec.{Codec}
use s2c_rs.Failure.{StoreError}
use s2c_rs.Proto.{LogEntry, NodeIdentity, S2cMessage}
use s2c_rs.Store.{ObjectStore, StoreLaws, Extends}
use s2c_rs.Log.{S2cLog, get_head, get_at, read_again}
use s2c_rs.Log.Keeps.{StoreKeeps, get_head-keeps, get_at-keeps}
use s2c_rs.Net.Error.{ClientError}
use s2c_rs.Fsm.{Fsm}
use s2c_rs.Fsm.Join.{
  Link, Discovered, parse_leader_state, discover_loop, discover_leader_state, connect_loop, connect,
  follow_request, follow_again, follow_loop, follow_leader,
}

module _ (S : ObjectStore) (P : S.State → Type 0) (keeps : StoreKeeps S P)
    (C : Codec LogEntry) where
  open S use {State}

  -- A reading error ends the discovery or sends it round again.
  again-Holds :
      (t : State) (log : S2cLog) (fuel rounds : ℕ) (b : BackoffCounter) (e : StoreError)
      → P t
      → ((b' : BackoffCounter) → Holds (λ o. P o.1) (discover_loop S C fuel rounds log b' t))
      → Holds
          (λ o. P o.1)
          (elim (read_again b e) as (λ o. Discovered S) [
            | none ↦ returns (err e, t)
            | some b' ↦ discover_loop S C fuel rounds log b' t
          ])
  again-Holds t log fuel rounds b e h rec = elim (Option-cases (read_again b e)) [
    | inl n ↦ rw n h
    | inr (b', n) ↦ rw n (rec b')
  ]

  -- What the discovery makes of the newest entry.
  read-Holds :
      (t : State) (log : S2cLog) (fuel rounds : ℕ) (b : BackoffCounter)
      (r : Result Bytes StoreError)
      → P t
      → ((b' : BackoffCounter) → Holds (λ o. P o.1) (discover_loop S C fuel rounds log b' t))
      → Holds
          (λ o. P o.1)
          (elim r as (λ o. Discovered S) [
            | ok bytes ↦ parse_leader_state C bytes >>= λ l. returns (ok (some l), t)
            | err e ↦ elim (read_again b e) as (λ o. Discovered S) [
              | none ↦ returns (err e, t)
              | some b' ↦ discover_loop S C fuel rounds log b' t
            ]
          ])
  read-Holds t log fuel rounds b (ok bytes) h rec =
      Holds-bind (λ o. P o.1) (parse_leader_state C bytes) _ (λ l e. h)
  read-Holds t log fuel rounds b (err e) h rec = again-Holds t log fuel rounds b e h rec

  -- What it makes of the index that the listing gives.
  head-Holds :
      (t : State) (log : S2cLog) (fuel rounds : ℕ) (b : BackoffCounter)
      (r : Result (Option ℕ) StoreError)
      → P t
      → ((b' : BackoffCounter) (u : State)
          → P u
          → Holds (λ o. P o.1) (discover_loop S C fuel rounds log b' u))
      → Holds
          (λ o. P o.1)
          (elim r as (λ o. Discovered S) [
            | ok index ↦ elim index as (λ o. Discovered S) [
              | none ↦ returns (ok none, t)
              | some i ↦ get_at S rounds log i t >>= λ (re, u). elim re as (λ o. Discovered S) [
                | ok bytes ↦ parse_leader_state C bytes >>= λ l. returns (ok (some l), u)
                | err e ↦ elim (read_again b e) as (λ o. Discovered S) [
                  | none ↦ returns (err e, u)
                  | some b' ↦ discover_loop S C fuel rounds log b' u
                ]
              ]
            ]
            | err e ↦ elim (read_again b e) as (λ o. Discovered S) [
              | none ↦ returns (err e, t)
              | some b' ↦ discover_loop S C fuel rounds log b' t
            ]
          ])
  head-Holds t log fuel rounds b (ok none) h rec = h
  head-Holds t log fuel rounds b (ok (some i)) h rec =
      Holds-bind (λ o. P o.1) (get_at S rounds log i t) _
        (λ o e.
          let read = Holds-returns (λ x. P x.1) e (get_at-keeps S P keeps rounds log i t h) in
          read-Holds o.1 log fuel rounds b o.0 read (λ b'. rec b' o.1 read))
  head-Holds t log fuel rounds b (err e) h rec =
      again-Holds t log fuel rounds b e h (λ b'. rec b' t h)

  discover_loop-keeps :
      (fuel rounds : ℕ) (log : S2cLog) (b : BackoffCounter) (s : State)
      → P s
      → Holds (λ o. P o.1) (discover_loop S C fuel rounds log b s)
  unfolding discover_loop
  discover_loop-keeps zero rounds log b s h = tt
  discover_loop-keeps (suc fuel) rounds log b s h =
      let (found, t) = get_head S log s in
      Holds-bind (λ o. P o.1) found _
        (λ head e.
          head-Holds t log fuel rounds b head (get_head-keeps S P keeps log s h)
            (λ b' u. discover_loop-keeps fuel rounds log b' u))

  pub discover-keeps :
      (fsm : Fsm) (fuel rounds : ℕ) (s : State)
      → P s
      → Holds (λ o. P o.1) (discover_leader_state S C fuel rounds fsm s)
  unfolding discover_leader_state
  discover-keeps fsm fuel rounds s h =
      discover_loop-keeps fuel rounds fsm.s2c_log (Backoff.new fsm.s2c_options.retry) s h

-- The calls of the client keep it, and a payload that is answered gives `Q`.
pub record LinkHolds (S : ObjectStore) (K : Link S) (P : S.State → Type 0)
    (Q : Bytes → Bytes → S.State → Type 0) : Type 0 where
  pub connects : (id : NodeIdentity) (s : S.State) → P s → P (K.connect id s).1
  pub sends : (id payload : Bytes) (s : S.State) → P s → P (K.send id payload s).1
  pub ids : (s : S.State) → P s → P (K.new_id s).1
  pub answered :
      (id payload : Bytes) (s : S.State) (m : S2cMessage)
      → P s
      → (K.send id payload s).0 ≡ ok m
      → Q id payload (K.send id payload s).1

-- The calls of the client on the network store nothing away.
pub record LinkKeeps (S : ObjectStore) (L : StoreLaws S) (K : Link S) : Type 0 where
  pub connect_keeps : (id : NodeIdentity) (s : S.State) → Extends S L s (K.connect id s).1
  pub send_keeps : (id payload : Bytes) (s : S.State) → Extends S L s (K.send id payload s).1
  pub new_id_keeps : (s : S.State) → Extends S L s (K.new_id s).1

pub LinkKeeps-LinkHolds :
    (S : ObjectStore) (L : StoreLaws S) (K : Link S) (s : S.State)
    → LinkKeeps S L K
    → LinkHolds S K (λ t. Extends S L s t) (λ id payload t. Unit)
LinkKeeps-LinkHolds S L K s n = record {
  connects = λ id t h q w z. n.connect_keeps id t q w (h q w z);
  sends = λ id payload t h q w z. n.send_keeps id payload t q w (h q w z);
  ids = λ t h q w z. n.new_id_keeps t q w (h q w z);
  answered = λ id payload t m h e. tt;
}

module _ (S : ObjectStore) (K : Link S) (P : S.State → Type 0)
    (Q : Bytes → Bytes → S.State → Type 0) (n : LinkHolds S K P Q) where
  open S use {State}

  connect_loop-keeps :
      (fuel : ℕ) (id : NodeIdentity) (b : BackoffCounter) (s : State)
      → P s
      → Holds (λ o. P o.1) (connect_loop S K fuel id b s)
  unfolding connect_loop
  connect_loop-keeps zero id b s h = tt
  connect_loop-keeps (suc fuel) id b s h =
      let t = (K.connect id s).1 in
      let now = n.connects id s h in
      elim (Result-cases (K.connect id s).0) [
        | inl (u, e) ↦ rw (e, connect_loop) now
        | inr (x, e) ↦ elim (Bool-cases (can_attempt b)) [
          | inl y ↦ rw (e, y, connect_loop) (connect_loop-keeps fuel id (await_attempt b) t now)
          | inr y ↦ rw (e, y, connect_loop) now
        ]
      ]

  pub connect-keeps :
      (fsm : Fsm) (fuel : ℕ) (id : NodeIdentity) (s : State)
      → P s
      → Holds (λ o. P o.1) (connect S K fuel fsm id s)
  unfolding connect
  connect-keeps fsm fuel id s h = connect_loop-keeps fuel id (Backoff.new fsm.s2c_options.retry) s h

  -- A `follow` that succeeds was answered.
  abbrev pub Followed : Codec S2cMessage → Fsm → Result (Unit {0}) ClientError × State → Type 0
  Followed M fsm o =
      P o.1 × (o.0 ≡ ok tt → (id : Bytes) × Q id (M.encode (follow_request S K fsm id)) o.1)

  follow_loop-keeps :
      (M : Codec S2cMessage) (fuel : ℕ) (fsm : Fsm) (b : BackoffCounter) (s : State)
      → P s
      → Holds (Followed M fsm) (follow_loop S K M fuel fsm b s)
  unfolding follow_loop
  follow_loop-keeps M zero fsm b s h = tt
  follow_loop-keeps M (suc fuel) fsm b s h =
      let (id, t) = K.new_id s in
      let payload = M.encode (follow_request S K fsm id) in
      let u = (K.send id payload t).1 in
      let drawn = n.ids s h in
      let now = n.sends id payload t drawn in
      elim (Result-cases (K.send id payload t).0) [
        | inl (answer, e) ↦
            rw (e, follow_loop) (now, λ _. (id, n.answered id payload t answer drawn e))
        | inr (x, e) ↦ elim (Option-cases (follow_again S K b x)) [
          | inl m ↦ rw (e, m, follow_loop) (now, λ z. cc)
          | inr (b', m) ↦ rw (e, m, follow_loop) (follow_loop-keeps M fuel fsm b' u now)
        ]
      ]

  pub follow-keeps :
      (M : Codec S2cMessage) (fsm : Fsm) (fuel : ℕ) (s : State)
      → P s
      → Holds (Followed M fsm) (follow_leader S K M fuel fsm s)
  unfolding follow_leader
  follow-keeps M fsm fuel s h = follow_loop-keeps M fuel fsm (Backoff.new fsm.s2c_options.retry) s h
