-- ===== src/Fsm/Leadership/Keeps.antt =====
-- Properties of the node and the store's state over an attempt at leadership.
use s2c_rs.Base.{
  ℕ, zero, suc, ◌≡◌, refl, ◌≢◌, ◌⊎◌, inl, inr, some, arith, Bytes, Holds, Holds-returns,
}
use s2c_rs.Backoff.{BackoffCounter, await_attempt}
use s2c_rs.Backoff
use s2c_rs.Codec.{Codec}
use s2c_rs.Config.{to_unlimited}
use s2c_rs.Failure.{StoreError, generic, not_found, already_exists, other}
use s2c_rs.Proto.{LogEntry}
use s2c_rs.Store.{ObjectStore}
use s2c_rs.Log.Keeps.{StoreKeeps, append-keeps}
use s2c_rs.Fsm.{Fsm, not_joined, follower, stopped}
use s2c_rs.Fsm.Leadership.{
  next_index, leadership_entry, won, lost, leadership_loop, attempt_leadership,
}
use s2c_rs.Fsm.Leadership.Safety.{leadership_loop_cases}

-- What a follow request tells of the node.
pub record IsSame (fsm g : Fsm) : Type 0 where
  pub node_identity : g.node_identity ≡ fsm.node_identity
  pub apply_index : g.apply_index ≡ fsm.apply_index
  pub group : g.group ≡ fsm.group

pub lost_cases :
    (fsm g : Fsm) (e : StoreError)
    → lost fsm e ≡ some g
    → (g ≡ fsm) ⊎ (g ≡ record fsm { state = stopped })
unfolding lost
lost_cases fsm g (generic m) h = inr (ground arith)
lost_cases fsm g already_exists h = inl (cc)
lost_cases fsm g not_found h = inr (cc)
lost_cases fsm g other h = inr (cc)

module _ (S : ObjectStore) (P : S.State → Type 0) (keeps : StoreKeeps S P) where
  open S use {State}

  leadership_loop-keeps :
      (fuel rounds : ℕ) (fsm : Fsm) (v : Bytes) (b : BackoffCounter) (s : State)
      → P s
      → Holds (λ o. P o.1) (leadership_loop S fuel rounds fsm v b s)
  leadership_loop-keeps zero rounds fsm v b s h = unfold leadership_loop in tt
  leadership_loop-keeps (suc fuel) rounds fsm v b s h =
      let now = append-keeps S P keeps rounds fsm.s2c_log (next_index fsm) v s h in
      leadership_loop_cases S (Holds (λ o. P o.1)) fuel rounds fsm v b s tt tt
        (λ t e. Holds-returns (λ o. P o.1) e now) (λ x t g e n. Holds-returns (λ o. P o.1) e now)
        (λ x t e n.
          leadership_loop-keeps fuel rounds fsm v (await_attempt b) t
            (Holds-returns (λ o. P o.1) e now))

  pub attempt-keeps :
      (C : Codec LogEntry) (fuel rounds : ℕ) (fsm : Fsm) (s : State)
      → P s
      → Holds (λ o. P o.1) (attempt_leadership S C fuel rounds fsm s)
  unfolding attempt_leadership
  attempt-keeps C fuel rounds fsm s h =
      leadership_loop-keeps fuel rounds fsm (C.encode (leadership_entry fsm))
        (Backoff.new (to_unlimited fsm.s2c_options.retry)) s h

  -- A `NOT_JOINED` node does not come out as a follower, and is who it was.
  leadership_loop_unfollowing :
      (fuel rounds : ℕ) (fsm : Fsm) (v : Bytes) (b : BackoffCounter) (s : State)
      → fsm.state ≡ not_joined
      → Holds
          (λ o. IsSame fsm o.0 × (o.0.state ≢ follower))
          (leadership_loop S fuel rounds fsm v b s)
  unfolding won
  leadership_loop_unfollowing zero rounds fsm v b s n = unfold leadership_loop in tt
  leadership_loop_unfollowing (suc fuel) rounds fsm v b s n =
      leadership_loop_cases S (Holds (λ o. IsSame fsm o.0 × (o.0.state ≢ follower))) fuel rounds fsm
        v b s tt tt
        (λ t e. (record { node_identity = refl; apply_index = refl; group = refl }, λ k. cc))
        (λ x t g e h. elim (lost_cases fsm g x h) [
          | inl q ↦
              rw q (record { node_identity = refl; apply_index = refl; group = refl }, λ k. cc)
          | inr q ↦
              rw q (record { node_identity = refl; apply_index = refl; group = refl }, λ k. cc)
        ])
        (λ x t e h. leadership_loop_unfollowing fuel rounds fsm v (await_attempt b) t n)

  pub attempt_unfollowing :
      (C : Codec LogEntry) (fuel rounds : ℕ) (fsm : Fsm) (s : State)
      → fsm.state ≡ not_joined
      → Holds
          (λ o. IsSame fsm o.0 × (o.0.state ≢ follower))
          (attempt_leadership S C fuel rounds fsm s)
  unfolding attempt_leadership
  attempt_unfollowing C fuel rounds fsm s n =
      leadership_loop_unfollowing fuel rounds fsm (C.encode (leadership_entry fsm))
        (Backoff.new (to_unlimited fsm.s2c_options.retry)) s n
