-- ===== src/Examples/Serial.antt =====
-- A plain encoding of the messages that the examples pass through the model.
use s2c_rs.Base.{
  ℕ, zero, suc, ◌≡◌, refl, List, [], ◌∷◌, ◌++◌, append_assoc, append-nil, Option, none, some, Bool,
  true, false, Bytes, Result, ok, err, length,
}
use s2c_rs.Codec.{Codec, CodecLaws}
use s2c_rs.Proto.{
  NodeIdentity, BatchEntry, Batch, FollowerInfo, LeaderState, LogEntry, StateRequest,
  StateRequestType, command, read,
}

-- Written in front of anything, a value is read back.
pub record Serial (A : Type 0) : Type 0 where
  pub put : A → Bytes
  pub get : Bytes → Option (A × Bytes)
  pub get-put : (a : A) (rest : Bytes) → get (put a ++ rest) ≡ some (a, rest)

infixl 5 ◌>>=◌
abbrev pub ◌>>=◌ : {A B : Type 0} → Option A → (A → Option B) → Option B
none >>= f = none
some a >>= f = f a

abbrev pub get_ℕ : Bytes → Option (ℕ × Bytes)
get_ℕ [] = none
get_ℕ (n ∷ rest) = some (n, rest)

abbrev pub number : Serial ℕ
number = record { put = λ n. n ∷ []; get = get_ℕ; get-put = λ a rest. refl }

abbrev pub put_Bool : Bool → Bytes
put_Bool true = 1 ∷ []
put_Bool false = 0 ∷ []

abbrev pub get_Bool : Bytes → Option (Bool × Bytes)
get_Bool [] = none
get_Bool (zero ∷ rest) = some (false, rest)
get_Bool (suc n ∷ rest) = some (true, rest)

pub get-put_Bool : (b : Bool) (rest : Bytes) → get_Bool (put_Bool b ++ rest) ≡ some (b, rest)
get-put_Bool true rest = refl
get-put_Bool false rest = refl

abbrev pub flag : Serial Bool
flag = record { put = put_Bool; get = get_Bool; get-put = get-put_Bool }

module _ {A B : Type 0} (a : Serial A) (b : Serial B) where
  abbrev pub get_pair : Bytes → Option ((A × B) × Bytes)
  get_pair s = a.get s >>= λ (x, t). b.get t >>= λ (y, u). some ((x, y), u)

  pub get-put_pair :
      (p : A × B) (rest : Bytes) → get_pair ((a.put p.0 ++ b.put p.1) ++ rest) ≡ some (p, rest)
  get-put_pair p rest = rw (
    append_assoc (a.put p.0) (b.put p.1) rest,
    a.get-put p.0 (b.put p.1 ++ rest),
    b.get-put p.1 rest,
  )

  abbrev pub pair : Serial (A × B)
  pair = record { put = λ p. a.put p.0 ++ b.put p.1; get = get_pair; get-put = get-put_pair }

-- Along a map with a section.
module _ {A B : Type 0} (a : Serial A) (f : A → B) (g : B → A) (e : (y : B) → f (g y) ≡ y) where
  abbrev pub get_along : Bytes → Option (B × Bytes)
  get_along s = a.get s >>= λ (x, t). some (f x, t)

  pub get-put_along : (y : B) (rest : Bytes) → get_along (a.put (g y) ++ rest) ≡ some (y, rest)
  get-put_along y rest = rw (a.get-put (g y) rest, e y)

  abbrev pub along : Serial B
  along = record { put = λ y. a.put (g y); get = get_along; get-put = get-put_along }

module _ {A : Type 0} (a : Serial A) where
  abbrev pub put_items : List A → Bytes
  put_items [] = []
  put_items (x ∷ xs) = a.put x ++ put_items xs

  abbrev pub get_items : ℕ → Bytes → Option (List A × Bytes)
  get_items zero s = some ([], s)
  get_items (suc n) s = a.get s >>= λ (x, t). get_items n t >>= λ (xs, u). some (x ∷ xs, u)

  pub get-put_items :
      (xs : List A) (rest : Bytes) → get_items (length xs) (put_items xs ++ rest) ≡ some (xs, rest)
  get-put_items [] rest = refl
  get-put_items (x ∷ xs) rest = rw (
    append_assoc (a.put x) (put_items xs) rest,
    a.get-put x (put_items xs ++ rest),
    get-put_items xs rest,
  )

  abbrev pub get_list : Bytes → Option (List A × Bytes)
  get_list [] = none
  get_list (n ∷ s) = get_items n s

  abbrev pub items : Serial (List A)
  items = record { put = λ xs. length xs ∷ put_items xs; get = get_list; get-put = get-put_items }

  abbrev pub put_option : Option A → Bytes
  put_option none = 0 ∷ []
  put_option (some x) = 1 ∷ a.put x

  abbrev pub get_option : Bytes → Option (Option A × Bytes)
  get_option [] = none
  get_option (zero ∷ s) = some (none, s)
  get_option (suc n ∷ s) = a.get s >>= λ (x, t). some (some x, t)

  pub get-put_option :
      (o : Option A) (rest : Bytes) → get_option (put_option o ++ rest) ≡ some (o, rest)
  get-put_option none rest = refl
  get-put_option (some x) rest = rw (a.get-put x rest)

  abbrev pub optional : Serial (Option A)
  optional = record { put = put_option; get = get_option; get-put = get-put_option }

  abbrev pub decode_all : Bytes → Result A Bytes
  decode_all s = elim (a.get s) [ none ↦ err [] | some (x, t) ↦ ok x ]

  abbrev pub codec : Codec A
  codec = record {
    encode = a.put;
    encoded_len = λ x. length (a.put x);
    encode_into = λ x buf. some (buf ++ a.put x);
    decode = decode_all;
  }

  codec_read : (x : A) → decode_all (a.put x) ≡ ok x
  codec_read x =
      let e : a.get (a.put x) ≡ some (x, []) = rw append-nil at (a.get-put x []) in
      rw (e, decode_all)

  pub codec_laws : CodecLaws codec
  codec_laws = record { decode-encode = codec_read; len_exact = λ x. refl; appends = λ x buf. refl }

abbrev pub text : Serial Bytes
text = items number

abbrev pub node : Serial NodeIdentity
node =
    along (pair (pair text text) (pair number text))
      (λ t. record { id = t.0.0; address = t.0.1; port = t.1.0; az = t.1.1 })
      (λ n. ((n.id, n.address), (n.port, n.az))) (λ n. refl)

abbrev pub entry : Serial BatchEntry
entry =
    along (pair text flag) (λ t. record { body = t.0; internal = t.1 }) (λ e. (e.body, e.internal))
      (λ e. refl)

abbrev pub batch : Serial Batch
batch = along (items entry) (λ t. record { entries = t }) (λ b. b.entries) (λ b. refl)

abbrev pub info : Serial FollowerInfo
info =
    along (pair (optional node) number)
      (λ t. record { node_identity = t.0; replicated_apply_index = t.1 })
      (λ f. (f.node_identity, f.replicated_apply_index)) (λ f. refl)

abbrev pub state : Serial LeaderState
state =
    along (pair (pair number number) (pair (optional node) (items info)))
      (λ t. record {
        epoch = t.0.0;
        commit_index = t.0.1;
        node_identity = t.1.0;
        followers = t.1.1;
      })
      (λ l. ((l.epoch, l.commit_index), (l.node_identity, l.followers))) (λ l. refl)

abbrev pub log_entries : Serial LogEntry
log_entries =
    along (pair (optional batch) (optional state)) (λ t. record { batch = t.0; leader_state = t.1 })
      (λ e. (e.batch, e.leader_state)) (λ e. refl)

abbrev pub kind_of : Bool → StateRequestType
kind_of true = read
kind_of false = command

abbrev pub is_read : StateRequestType → Bool
is_read read = true
is_read command = false

pub kind-is_read : (k : StateRequestType) → kind_of (is_read k) ≡ k
kind-is_read read = refl
kind-is_read command = refl

abbrev pub state_requests : Serial StateRequest
state_requests =
    along (pair (pair text (along flag kind_of is_read kind-is_read)) (pair text (pair flag flag)))
      (λ t. record {
        body = t.0.0;
        kind = t.0.1;
        group_id = t.1.0;
        internal = t.1.1.0;
        leader_command = t.1.1.1;
      })
      (λ r. ((r.body, r.kind), (r.group_id, (r.internal, r.leader_command)))) (λ r. refl)
