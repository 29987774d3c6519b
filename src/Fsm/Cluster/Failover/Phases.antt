-- ===== src/Fsm/Cluster/Failover/Phases.antt =====
-- A node before and after a step of a cluster.
use s2c_rs.Base.{
  ℕ, ◌≡◌, refl, subst, ◌∙◌, ◌≢◌, ◌⊎◌, inl, inr, List, true, false, arith, ℕ_discrete, ◌==◌,
}
use s2c_rs.Fsm.{Fsm, leader}
use s2c_rs.Fsm.Leadership.{next_index, won}
use s2c_rs.Fsm.Follower.{Event, follower_loop}
use s2c_rs.Fsm.Follower.Rounds.{follower_loop-keeps}
use s2c_rs.Fsm.Cluster.{Phase, rests, fsm_of, set_node}
use s2c_rs.Fsm.Cluster.Leaders.Members.{Unled}

-- A node that leads does so at the first index, and any other one has no index.
abbrev pub Young : Fsm → Type 0
Young fsm =
    ((fsm.state ≡ leader) × (fsm.commit_index ≡ 1))
    ⊎ ((fsm.state ≢ leader) × (fsm.commit_index ≡ 0))

pub Young-index : (fsm : Fsm) → Young fsm → fsm.state ≡ leader → fsm.commit_index ≡ 1
Young-index fsm (inl (a, b)) e = b
Young-index fsm (inr (a, b)) e = absurd (a e)

pub unled-index : (fsm : Fsm) → Young fsm → fsm.state ≢ leader → fsm.commit_index ≡ 0
unled-index fsm (inl (a, b)) n = absurd (n a)
unled-index fsm (inr (a, b)) n = b

pub won-Young : (fsm : Fsm) → fsm.commit_index ≡ 0 → Young (won fsm)
unfolding won next_index
won-Young fsm e = inl (refl, ground arith)

abbrev pub Fit : Phase → Type 0
Fit p = Young (fsm_of p) × Unled p

-- What was fit is so afterwards, and what led does.
abbrev pub Goes : Phase → Phase → Type 0
Goes p q = Fit p → Fit q × ((fsm_of p).state ≡ leader → (fsm_of q).state ≡ leader)

pub follower_loop-Young :
    (fsm : Fsm) (es : List Event)
    → fsm.state ≢ leader
    → fsm.commit_index ≡ 0
    → let g = (follower_loop fsm es).fsm in (g.state ≢ leader) × (g.commit_index ≡ 0)
follower_loop-Young fsm es n e =
    follower_loop-keeps (λ g. (g.state ≢ leader) × (g.commit_index ≡ 0)) (λ g n h. h)
      (λ g h. (λ k. cc, h.1)) (λ r g h. h) fsm es (n, e)

-- One node of several moves.
pub set_node-Goes :
    (nodes : ℕ → Phase) (k : ℕ) (p : Phase)
    → Goes (nodes k) p
    → (j : ℕ) → Goes (nodes j) (set_node k p nodes j)
set_node-Goes nodes k p h j = elim (ℕ_discrete k j) [
  | yes e ↦ let y : (k == j) ≡ true = ground arith in rw y (subst (λ i. Goes (nodes i) p) e h)
  | no e ↦ let y : (k == j) ≡ false = ground arith in rw y (λ f. (f, λ l. l))
]

pub rests-Goes :
    (fsm g : Fsm) (p q : Phase)
    → p ≡ rests fsm
    → fsm_of q ≡ g
    → Unled q
    → (Young fsm → Young g × (fsm.state ≡ leader → g.state ≡ leader))
    → Goes p q
rests-Goes fsm g p q a b u h f =
    let (y, led) = h (rw a at f.0) in ((rw b y, u), λ e. rw b (led (rw a at e)))

-- A node that leads no more than before, at its index.
pub unled-Goes :
    (fsm g : Fsm)
    → fsm.state ≢ leader
    → g.state ≢ leader
    → g.commit_index ≡ fsm.commit_index
    → Young fsm
    → Young g × (fsm.state ≡ leader → g.state ≡ leader)
unled-Goes fsm g n m e y = (inr (m, e ∙ unled-index fsm y n), λ l. absurd (n l))
