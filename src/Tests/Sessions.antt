-- ===== src/Tests/Sessions.antt =====
-- Stored sessions, over a keyring that is a map and a file that holds the index as it is.
use proton_utils.Base.{
  ◌≡◌, refl, sym, ap, ◌∙◌, Option, none, some, [], ◌∷◌, Bytes, codes, Map, lookup, insert, delete,
  size, list_beq, list_eq, nat_eq, Result, ok, err, ◌=?◌, false, if◌then◌else◌, Bool-cases, inl,
  inr, lookup-insert, lookup-delete,
}
use proton_utils.Keyring.Outside.{
  AccountEntry, Index, SessionError, key_not_found, Codec, Keyring, Disk,
}
use proton_utils.Keyring.Index.{
  SessionIndex, World, read_index, write_index, remove_session, account_of, id_of, with_session,
  persist, save, save_to, load, delete_session, delete_from, delete_found, delete_each,
  delete_account, delete_all_sessions,
}
use proton_utils.Keyring.Saving.{refl_key, session_id}
use proton_utils.Keyring.Loading.{load-save, load-save_other}
use proton_utils.Keyring.Removal.{Without, delete_session-delete_session, load_stale}
use proton_utils.Keyring.Sweep.{delete_all_sessions-session_id}

program : Unit {0}
unfolding list_beq lookup insert delete size read_index write_index remove_session account_of id_of
    with_session persist save save_to delete_session delete_from delete_found delete_each
    delete_account delete_all_sessions
program = tt

same_text : (c s : Bytes) → ◌≡◌ {A = Result SessionError Bytes} (ok c) (ok s) → some s ≡ some c
same_text c s h = cc h

abbrev as_it_is : Codec Bytes
as_it_is = record {
  Text = Index;
  Secret = Bytes;
  marshal_index = λ idx. idx;
  unmarshal_index = λ idx. some idx;
  marshal = λ c. ok c;
  unmarshal = λ s. some s;
  unmarshal_index-marshal_index = λ idx. refl;
  unmarshal-marshal = same_text;
}

abbrev in_map : Option Bytes → Result SessionError Bytes
in_map none = err key_not_found
in_map (some v) = ok v

in_map-insert :
    (s t : Map Bytes Bytes) (id j v : Bytes)
    → ◌≡◌ {A = Result SessionError (Map Bytes Bytes)} (ok (insert id v s)) (ok t)
    → in_map (lookup j t) ≡ (if id =? j then ok v else in_map (lookup j s))
in_map-insert s t id j v h =
    let e : insert id v s ≡ t = cc h in
    ap (λ m. in_map (lookup j m)) (sym e)
    ∙ ap in_map (lookup-insert id j v s)
    ∙ elim (Bool-cases (id =? j)) [ inl same ↦ rw same refl | inr apart ↦ rw apart refl ]

lookup_deleted : (id : Bytes) (s : Map Bytes Bytes) → lookup id (delete id s) ≡ none
lookup_deleted id s = lookup-delete id id s ∙ rw (refl_key id) refl

in_map-delete :
    (s t : Map Bytes Bytes) (id : Bytes)
    → ◌≡◌ {A = Result SessionError (Map Bytes Bytes)} (ok (delete id s)) (ok t)
    → (e : SessionError) × (in_map (lookup id t) ≡ err e)
in_map-delete s t id h =
    let e : delete id s ≡ t = cc h in
    (key_not_found, ap (λ m. in_map (lookup id m)) (sym e) ∙ ap in_map (lookup_deleted id s))

in_map-delete_other :
    (s t : Map Bytes Bytes) (id j : Bytes)
    → ◌≡◌ {A = Result SessionError (Map Bytes Bytes)} (ok (delete id s)) (ok t)
    → (id =? j) ≡ false
    → in_map (lookup j t) ≡ in_map (lookup j s)
in_map-delete_other s t id j h apart =
    let e : delete id s ≡ t = cc h in
    ap (λ m. in_map (lookup j m)) (sym e) ∙ ap in_map (lookup-delete id j s ∙ rw apart refl)

abbrev map_keyring : Keyring Bytes
map_keyring = record {
  State = Map Bytes Bytes;
  get = λ s id. in_map (lookup id s);
  set = λ s id v. ok (insert id v s);
  delete = λ s id. ok (delete id s);
  get-set = in_map-insert;
  get-delete = in_map-delete;
  get-delete_other = in_map-delete_other;
}

abbrev one_file : Disk Index
one_file = record {
  State = Option Index;
  read = λ s. ok s;
  make_directory = λ s. (s, ok tt);
  write = λ s idx. (some idx, ok tt);
  read-write = λ s idx h. refl;
}

abbrev Home : Type 0
Home = World as_it_is map_keyring one_file

abbrev drive : SessionIndex
drive = record { account = codes "me"; service = codes "drive" }

abbrev lumo : SessionIndex
lumo = record { account = codes "me"; service = codes "lumo" }

abbrev my_index : Index
my_index =
    (codes "me", record { username = codes "me"; sessions = (codes "lumo", 2 ∷ []) ∷ [] }) ∷ []

-- one session for lumo
abbrev before : Home
before = record { secrets = (2 ∷ [], codes "token") ∷ []; files = some my_index }

abbrev both : AccountEntry
both = record {
  username = codes "me";
  sessions = (codes "lumo", 2 ∷ []) ∷ (codes "drive", 3 ∷ []) ∷ [];
}

abbrev after : Home
after = record {
  secrets = (2 ∷ [], codes "token") ∷ (3 ∷ [], codes "key") ∷ [];
  files = some ((codes "me", both) ∷ []);
}

saves : save as_it_is map_keyring one_file drive (codes "key") (3 ∷ []) before ≡ (after, ok tt)
unfolding program
saves = refl

load-save_example : load as_it_is map_keyring one_file drive after ≡ (after, ok (codes "key"))
load-save_example =
    load-save as_it_is map_keyring one_file drive (codes "key") (3 ∷ []) before after saves

load-save_other_example :
    (load as_it_is map_keyring one_file lumo after).1
    ≡ (load as_it_is map_keyring one_file lumo before).1
unfolding program
load-save_other_example =
    load-save_other as_it_is map_keyring one_file drive lumo (codes "key") (3 ∷ []) before after
      my_index (2 ∷ []) (codes "token") saves refl refl refl refl refl

abbrev no_lumo : Home
no_lumo = record { secrets = []; files = some [] }

delete_session-delete_session_example :
    Without as_it_is map_keyring one_file lumo my_index no_lumo
    × ((e : SessionError) × (in_map (lookup (2 ∷ []) no_lumo.secrets) ≡ err e))
    × (delete_session as_it_is map_keyring one_file lumo no_lumo ≡ (no_lumo, ok tt))
unfolding program
delete_session-delete_session_example =
    delete_session-delete_session as_it_is map_keyring one_file lumo before no_lumo my_index
      (2 ∷ []) refl refl refl

-- the secret is no longer in the keyring
abbrev orphaned : Home
orphaned = record before { secrets = [] }

load_stale_example :
    ((load as_it_is map_keyring one_file lumo orphaned).1 ≡ err key_not_found)
    × ((load as_it_is map_keyring one_file lumo orphaned).0.secrets ≡ [])
    × Without as_it_is map_keyring one_file lumo my_index
        (load as_it_is map_keyring one_file lumo orphaned).0
unfolding program
load_stale_example =
    load_stale as_it_is map_keyring one_file lumo orphaned my_index
      (record { username = codes "me"; sessions = (codes "lumo", 2 ∷ []) ∷ [] }) (2 ∷ [])
      key_not_found refl refl refl refl refl

delete_all_sessions-session_id_example :
    (idx : Index) × (read_index as_it_is map_keyring one_file no_lumo ≡ ok idx)
    × (session_id lumo idx ≡ none)
unfolding program
delete_all_sessions-session_id_example =
    delete_all_sessions-session_id as_it_is map_keyring one_file drive lumo after no_lumo
      ((codes "me", both) ∷ []) both refl refl refl
