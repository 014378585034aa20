-- ===== src/Keyring/Outside.antt =====
-- What the session index stands on: the system keyring, the index file, and encoding/json.
use proton_utils.Base.{
  false, ◌≡◌, Option, some, Bytes, Map, ◌=?◌, list_eq, nat_eq, Result, ok, err, ℕ, if◌then◌else◌,
}

-- `AccountEntry`
pub record AccountEntry : Type 0 where
  pub username : Bytes
  pub sessions : Map Bytes Bytes

-- `SessionIndexData`
abbrev pub Index : Type 0
Index = Map Bytes AccountEntry

pub data SessionError : Type 0 where
  key_not_found bad_json : SessionError
  failed : ℕ → SessionError

-- encoding/json, at the index and at credentials of type `C`.
pub record Codec (C : Type 0) : Type 1 where
  pub Text : Type 0
  pub Secret : Type 0
  pub marshal_index : Index → Text
  pub unmarshal_index : Text → Option Index
  pub marshal : C → Result SessionError Secret
  pub unmarshal : Secret → Option C
  pub unmarshal_index-marshal_index : (idx : Index) → unmarshal_index (marshal_index idx) ≡ some idx
  pub unmarshal-marshal : (c : C) (s : Secret) → marshal c ≡ ok s → unmarshal s ≡ some c

-- `Keyring` at the one service name that is used. A call that fails changes nothing.
pub record Keyring (Secret : Type 0) : Type 1 where
  pub State : Type 0
  pub get : State → Bytes → Result SessionError Secret
  pub set : State → Bytes → Secret → Result SessionError State
  pub delete : State → Bytes → Result SessionError State
  pub get-set :
      (s t : State) (id j : Bytes) (v : Secret)
      → set s id v ≡ ok t
      → get t j ≡ (if id =? j then ok v else get s j)
  pub get-delete :
      (s t : State) (id : Bytes) → delete s id ≡ ok t → (e : SessionError) × (get t id ≡ err e)
  pub get-delete_other :
      (s t : State) (id j : Bytes) → delete s id ≡ ok t → (id =? j) ≡ false → get t j ≡ get s j

-- The index file: `none` is a file that does not exist. A write that fails may leave anything.
pub record Disk (Text : Type 0) : Type 1 where
  pub State : Type 0
  pub read : State → Result SessionError (Option Text)
  pub make_directory : State → State × Result SessionError (Unit {0})
  pub write : State → Text → State × Result SessionError (Unit {0})
  pub read-write : (s : State) (t : Text) → (write s t).1 ≡ ok tt → read (write s t).0 ≡ ok (some t)
