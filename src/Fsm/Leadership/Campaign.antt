-- ===== src/Fsm/Leadership/Campaign.antt =====
-- Any number of attempts by any number of nodes of one group.
use s2c_rs.Base.{
  ℕ, ◌≡◌, sym, subst, ◌≢◌, List, [], ◌∷◌, none, Option-cases, inl, inr, Bytes, returns, All,
}
use s2c_rs.Codec.{Codec}
use s2c_rs.Paths.{KeysResolver}
use s2c_rs.Proto.{LogEntry}
use s2c_rs.Store.{ObjectStore, StoreLaws, Extends}
use s2c_rs.Log.{S2cLog, entry_path}
use s2c_rs.Fsm.{Fsm, leader}
use s2c_rs.Fsm.Leadership.{next_index, attempt_leadership}
use s2c_rs.Fsm.Leadership.Safety
use s2c_rs.Fsm.Leadership.Safety.{Attempted, loses, stops, term_path, attempt_leadership-Ended}

module _ (S : ObjectStore) (L : StoreLaws S) (C : Codec LogEntry) (keys : KeysResolver) where
  open S use {State}

  -- Attempts on logs under the same keys, one after the other, with whatever else keeps the store;
  -- the list holds the indices that were won.
  pub data Campaign : State → List ℕ → Type 0 where
    ends : {s : State} → Campaign s []
    wins :
        {s t : State} {is : List ℕ} (fuel rounds : ℕ) (fsm g : Fsm)
        → fsm.s2c_log.keys ≡ keys
        → fsm.state ≢ leader
        → attempt_leadership S C fuel rounds fsm s ≡ returns (g, t)
        → g.state ≡ leader
        → Campaign t is
        → Campaign s (next_index fsm ∷ is)
    fails :
        {s t : State} {is : List ℕ} (fuel rounds : ℕ) (fsm g : Fsm)
        → attempt_leadership S C fuel rounds fsm s ≡ returns (g, t)
        → g.state ≢ leader
        → Campaign t is
        → Campaign s is
    others : {s t : State} {is : List ℕ} → Extends S L s t → Campaign t is → Campaign s is

  abbrev pub any_log : S2cLog
  any_log = record {
    keys = keys;
    retry = record { max_delay_seconds = 0; base_delay_ms = 0; max_attempts = none };
  }

  abbrev pub IsTaken : ℕ → State → Type 0
  IsTaken i s = L.contents s (entry_path S any_log i) ≢ none

  pub IsTaken-later : (i : ℕ) (s t : State) → Extends S L s t → IsTaken i s → IsTaken i t
  IsTaken-later i s t x h = elim (Option-cases (L.contents s (entry_path S any_log i))) [
    | inl e ↦ absurd (h e)
    | inr (w, e) ↦ λ n. cc (x (entry_path S any_log i) w e)
  ]

  same_entry :
      (fsm : Fsm)
      → fsm.s2c_log.keys ≡ keys
      → term_path S L fsm ≡ entry_path S any_log (next_index fsm)
  unfolding entry_path
  same_entry fsm e = cc

  -- A won index was free, and is taken from then on.
  won_index :
      (fsm g : Fsm) (v : Bytes) (s t : State)
      → fsm.s2c_log.keys ≡ keys
      → fsm.state ≢ leader
      → g.state ≡ leader
      → Attempted S L fsm v s g t
      → (L.contents s (entry_path S any_log (next_index fsm)) ≡ none) × IsTaken (next_index fsm) t
  won_index fsm g v s t k n l (Safety.wins e a c) =
      (rw (same_entry fsm k) at a, λ f. cc (rw (same_entry fsm k) at c))
  won_index fsm g v s t k n l (loses e c) = absurd (n (rw e at l))
  won_index fsm g v s t k n l (stops e) = cc

  taken_not_won :
      (i : ℕ) (s : State) (is : List ℕ) → IsTaken i s → Campaign s is → All (λ j. i ≢ j) is
  taken_not_won i s is h ends = tt
  taken_not_won i s is h (others x c) = taken_not_won i _ is (IsTaken-later i s _ x h) c
  taken_not_won i s is h (fails fuel rounds fsm g a n c) =
      let kept = (attempt_leadership-Ended S L C fuel rounds fsm g s _ a).0 in
      taken_not_won i _ is (IsTaken-later i s _ kept h) c
  taken_not_won i s is h (wins fuel rounds fsm g k n a l c) =
      let (kept, ended) = attempt_leadership-Ended S L C fuel rounds fsm g s _ a in
      let free = (won_index fsm g _ s _ k n l ended).0 in
      (
        λ e. h (subst (λ j. L.contents s (entry_path S any_log j) ≡ none) (sym e) free),
        taken_not_won i _ _ (IsTaken-later i s _ kept h) c,
      )

  abbrev pub Distinct : List ℕ → Type 0
  Distinct [] = Unit
  Distinct (i ∷ is) = All (λ j. i ≢ j) is × Distinct is

  -- Over any number of attempts by any number of nodes whose logs have the same keys, with
  -- anything in between that keeps what is stored, no two attempts of nodes that were not leaders
  -- win the same index.
  pub won_once : (s : State) (is : List ℕ) → Campaign s is → Distinct is
  won_once s is ends = tt
  won_once s is (others x c) = won_once _ is c
  won_once s is (fails fuel rounds fsm g a n c) = won_once _ is c
  won_once s is (wins fuel rounds fsm g k n a l c) =
      let ended = (attempt_leadership-Ended S L C fuel rounds fsm g s _ a).1 in
      let taken = (won_index fsm g _ s _ k n l ended).1 in
      (taken_not_won (next_index fsm) _ _ taken c, won_once _ _ c)
