-- ===== src/Log/Keeps.antt =====
-- Properties of the store's state over the operations of the log.
use s2c_rs.Base.{ℕ, zero, suc, Bytes, Holds}
use s2c_rs.Backoff
use s2c_rs.Backoff.{BackoffCounter, reset}
use s2c_rs.Store.{ObjectStore, StoreLaws, Extends}
use s2c_rs.Log.{S2cLog, append_loop, append, get_head, get_loop, get_at, entry_path}
use s2c_rs.Log.Append.{append_loop_cases}
use s2c_rs.Log.Read.{get_loop_cases}

-- Every call of the store keeps it.
pub record StoreKeeps (S : ObjectStore) (P : S.State → Type 0) : Type 0 where
  pub puts : (p : S.Location) (v : Bytes) (s : S.State) → P s → P (S.put_create p v s).1
  pub lists : (p : S.Location) (s : S.State) → P s → P (S.list p s).1
  pub gets : (p : S.Location) (s : S.State) → P s → P (S.get p s).1
  pub reads : (h : S.Handle) (s : S.State) → P s → P (S.bytes h s).1

pub Extends-StoreKeeps :
    (S : ObjectStore) (L : StoreLaws S) (s : S.State) → StoreKeeps S (λ t. Extends S L s t)
Extends-StoreKeeps S L s = record {
  puts = λ p v t h q w z. L.put_keeps p v t q w (h q w z);
  lists = λ p t h q w z. L.list_keeps p t q w (h q w z);
  gets = λ p t h q w z. L.get_keeps p t q w (h q w z);
  reads = λ b t h q w z. L.bytes_keeps b t q w (h q w z);
}

module _ (S : ObjectStore) (P : S.State → Type 0) (keeps : StoreKeeps S P) where
  open S use {State, Location}

  append_loop-keeps :
      (fuel : ℕ) (p : Location) (v : Bytes) (b : BackoffCounter) (s : State)
      → P s
      → Holds (λ o. P o.1) (append_loop S fuel p v b s)
  append_loop-keeps zero p v b s h = unfold append_loop in tt
  append_loop-keeps (suc fuel) p v b s h =
      let now = keeps.puts p v s h in
      append_loop_cases S (Holds (λ o. P o.1)) fuel p v b s (λ _. now) (λ e _ _. now)
        (λ e b' _ _. append_loop-keeps fuel p v b' (S.put_create p v s).1 now)

  pub append-keeps :
      (fuel : ℕ) (log : S2cLog) (index : ℕ) (v : Bytes) (s : State)
      → P s
      → Holds (λ o. P o.1) (append S fuel log index v s)
  unfolding append
  append-keeps fuel log index v s h =
      append_loop-keeps fuel (entry_path S log index) v (Backoff.new log.retry) s h

  pub get_head-keeps : (log : S2cLog) (s : State) → P s → P (get_head S log s).1
  unfolding get_head
  get_head-keeps log s h = keeps.lists _ s h

  get_loop-keeps :
      (fuel : ℕ) (p : Location) (b : BackoffCounter) (s : State)
      → P s
      → Holds (λ o. P o.1) (get_loop S fuel p b s)
  get_loop-keeps zero p b s h = unfold get_loop in tt
  get_loop-keeps (suc fuel) p b s h =
      let got = keeps.gets p s h in
      get_loop_cases S (Holds (λ o. P o.1)) fuel p b s (λ a v _ _. keeps.reads a (S.get p s).1 got)
        (λ a e _ _.
          let body = keeps.reads a (S.get p s).1 got in
          (λ _. body, λ b' _. get_loop-keeps fuel p b' (S.bytes a (S.get p s).1).1 body))
        (λ e _. (λ _. got, λ b' _. get_loop-keeps fuel p b' (S.get p s).1 got))

  pub get_at-keeps :
      (fuel : ℕ) (log : S2cLog) (index : ℕ) (s : State)
      → P s
      → Holds (λ o. P o.1) (get_at S fuel log index s)
  unfolding get_at
  get_at-keeps fuel log index s h =
      get_loop-keeps fuel (entry_path S log index) (Backoff.new log.retry) s h
