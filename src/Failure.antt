-- ===== src/Failure.antt =====
-- src/error.rs: which errors of the object store are worth another try. `StoreError` has the
-- variants of `object_store::Error` that this repository tells apart; `other` is any other one.
use s2c_rs.Base.{
  ℕ, ◌+◌, Bool, true, false, ◌&&◌, ◌||◌, [], ◌∷◌, ◌++◌, Bytes, codes, leb, ◌==◌, if◌then◌else◌,
}

pub data StoreError : Type 0 where
  generic : Bytes → StoreError  -- with the message of its source
  not_found already_exists other : StoreError

-- `str::to_lowercase`, as far as `contains` of an ASCII word can tell: the Kelvin sign and the
-- dotted capital I are the only other characters with an ASCII letter in their lower case.
lower : ℕ → Bytes
lower c =
    if leb b'A' c && leb c b'Z'
    then (c + 32) ∷ []
    else if c == 0x212a
    then b'k' ∷ []
    else if c == 0x130
    then b'i' ∷ 0x307 ∷ []
    else c ∷ []

pub to_lowercase : Bytes → Bytes
to_lowercase [] = []
to_lowercase (c ∷ s) = lower c ++ to_lowercase s

pub starts_with : Bytes → Bytes → Bool
starts_with s [] = true
starts_with [] (d ∷ w) = false
starts_with (c ∷ s) (d ∷ w) = c == d && starts_with s w

pub contains : Bytes → Bytes → Bool
contains [] w = starts_with [] w
contains (c ∷ s) w = starts_with (c ∷ s) w || contains s w

unfoldable pub is_transient : StoreError → Bool
unfolding to_lowercase lower contains starts_with
is_transient (generic message) =
    let err_msg = to_lowercase message in
    contains err_msg (codes "slowdown")
    || contains err_msg (codes "503")
    || contains err_msg (codes "timeout")
    || contains err_msg (codes "requesttimeout")
    || contains err_msg (codes "internalerror")
    || contains err_msg (codes "serviceunavailable")
    || contains err_msg (codes "skewed")
is_transient not_found = false
is_transient already_exists = false
is_transient other = false
