-- ===== src/Keyring/Index.antt =====
-- `SessionIndex`, internal/keyring/session_index.go. What changes is the keyring and the file.
use proton_utils.Base.{
  ◌==◌, Option, none, some, List, [], ◌∷◌, ◌++◌, Bytes, codes, Map, lookup, insert, delete, has,
  size, list_eq, nat_eq, Result, ok, err, ◌>>=◌, if◌then◌else◌,
}
use proton_utils.Keyring.Outside.{
  AccountEntry, Index, SessionError, key_not_found, bad_json, Codec, Keyring, Disk,
}

-- The account and the service context of a `SessionIndex`.
pub record SessionIndex : Type 0 where
  pub account : Bytes
  pub service : Bytes

-- `Switch`
unfoldable pub switch : Bytes → SessionIndex → SessionIndex
switch account si = record si { account = account }

abbrev pub wildcard : Bytes
wildcard = codes "*"

-- The service that an account's session is taken from, and its ID.
unfoldable pub resolve : Bytes → Map Bytes Bytes → Option (Bytes × Bytes)
resolve service sessions = elim (lookup service sessions) [
  | some id ↦ some (service, id)
  | none ↦ elim (lookup wildcard sessions) [ none ↦ none | some id ↦ some (wildcard, id) ]
]

-- A session is taken out, and its account when it was the last one.
unfoldable pub remove_session : Bytes → Bytes → AccountEntry → Index → Index
remove_session account service acct idx =
    let sessions = delete service acct.sessions in
    if size sessions == 0
    then delete account idx
    else insert account (record acct { sessions = sessions }) idx

-- The account's entry, or a new one; the session's ID, or the new one; the entry with it.
unfoldable pub account_of : SessionIndex → Index → AccountEntry
account_of si idx = elim (lookup si.account idx) [
  | none ↦ record { username = si.account; sessions = [] }
  | some acct ↦ acct
]

unfoldable pub id_of : SessionIndex → AccountEntry → Bytes → Bytes
id_of si acct new = elim (lookup si.service acct.sessions) [ none ↦ new | some id ↦ id ]

unfoldable pub with_session : SessionIndex → AccountEntry → Bytes → AccountEntry
with_session si acct new =
    if has si.service acct.sessions
    then acct
    else record acct { sessions = insert si.service new acct.sessions }

abbrev pub names : Index → List Bytes
names [] = []
names ((account, _) ∷ idx) = account ∷ names idx

abbrev pub errors_of : Result SessionError (Unit {0}) → List SessionError
errors_of (ok _) = []
errors_of (err e) = e ∷ []

module _ {C : Type 0} (codec : Codec C) (kr : Keyring codec.Secret) (disk : Disk codec.Text) where
  pub record World : Type 0 where
    pub secrets : kr.State
    pub files : disk.State

  abbrev pub parsed : Option codec.Text → Result SessionError Index
  parsed none = ok []
  parsed (some text) = elim (codec.unmarshal_index text) [ none ↦ err bad_json | some idx ↦ ok idx ]

  -- `readIndex`
  unfoldable pub read_index : World → Result SessionError Index
  read_index w = disk.read w.files >>= parsed

  -- `writeIndex`
  unfoldable pub write_index : Index → World → World × Result SessionError (Unit {0})
  write_index idx w =
      let done = disk.write w.files (codec.marshal_index idx) in
      (record w { files = done.0 }, done.1)

  abbrev pub decoded : codec.Secret → Result SessionError C
  decoded secret = elim (codec.unmarshal secret) [ none ↦ err bad_json | some c ↦ ok c ]

  -- `Load` once the session is resolved: any failure of the keyring takes the entry for a stale one
  unfoldable pub load_resolved :
      SessionIndex → AccountEntry → Index → Bytes × Bytes → World → World × Result SessionError C
  unfolding remove_session write_index
  load_resolved si acct idx (service, id) w = elim (kr.get w.secrets id) [
    | ok secret ↦ (w, decoded secret)
    | err _ ↦ ((write_index (remove_session si.account service acct idx) w).0, err key_not_found)
  ]

  unfoldable pub load_from : SessionIndex → Index → World → World × Result SessionError C
  unfolding load_resolved resolve
  load_from si idx w = elim (lookup si.account idx) [
    | none ↦ (w, err key_not_found)
    | some acct ↦ elim (resolve si.service acct.sessions) [
      | none ↦ (w, err key_not_found)
      | some found ↦ load_resolved si acct idx found w
    ]
  ]

  -- `Load`
  unfoldable pub load : SessionIndex → World → World × Result SessionError C
  unfolding load_from
  load si w = elim (read_index w) [ err e ↦ (w, err e) | ok idx ↦ load_from si idx w ]

  -- the directory is made, and the index written
  unfoldable pub persist : Index → World → World × Result SessionError (Unit {0})
  unfolding write_index
  persist idx w =
      let (files, made) = disk.make_directory w.files in
      elim made [
        | err e ↦ (record w { files = files }, err e)
        | ok _ ↦ write_index idx (record w { files = files })
      ]

  -- `Save` with the index read
  unfoldable pub save_to :
      SessionIndex → C → Bytes → Index → World → World × Result SessionError (Unit {0})
  unfolding persist account_of id_of with_session
  save_to si c new idx w =
      let acct = account_of si idx in
      elim (codec.marshal c) [
        | err e ↦ (w, err e)
        | ok secret ↦ elim (kr.set w.secrets (id_of si acct new) secret) [
          | err e ↦ (w, err e)
          | ok secrets ↦
              persist (insert si.account (with_session si acct new) idx)
                (record w { secrets = secrets })
        ]
      ]

  -- `Save`; `new` is what `uuid.New` gives
  unfoldable pub save : SessionIndex → C → Bytes → World → World × Result SessionError (Unit {0})
  unfolding save_to
  save si c new w = elim (read_index w) [ err e ↦ (w, err e) | ok idx ↦ save_to si c new idx w ]

  -- `List`
  unfoldable pub list : World → Result SessionError (List Bytes)
  list w = read_index w >>= λ idx. ok (names idx)

  -- `Delete` of a session that is there
  unfoldable pub delete_found :
      SessionIndex → AccountEntry → Index → Bytes → World → World × Result SessionError (Unit {0})
  unfolding remove_session write_index
  delete_found si acct idx id w = elim (kr.delete w.secrets id) [
    | err e ↦ (w, err e)
    | ok secrets ↦
        write_index (remove_session si.account si.service acct idx) (record w { secrets = secrets })
  ]

  unfoldable pub delete_from : SessionIndex → Index → World → World × Result SessionError (Unit {0})
  unfolding delete_found
  delete_from si idx w = elim (lookup si.account idx) [
    | none ↦ (w, ok tt)
    | some acct ↦ elim (lookup si.service acct.sessions) [
      | none ↦ (w, ok tt)
      | some id ↦ delete_found si acct idx id w
    ]
  ]

  -- `Delete`
  unfoldable pub delete_session : SessionIndex → World → World × Result SessionError (Unit {0})
  unfolding delete_from
  delete_session si w = elim (read_index w) [ err e ↦ (w, err e) | ok idx ↦ delete_from si idx w ]

  -- the sweep of `DeleteAllSessions`: the errors are gathered
  unfoldable pub delete_each : Map Bytes Bytes → kr.State → kr.State × List SessionError
  delete_each [] s = (s, [])
  delete_each ((_, id) ∷ sessions) s = elim (kr.delete s id) [
    | ok t ↦ delete_each sessions t
    | err e ↦ let rest = delete_each sessions s in (rest.0, e ∷ rest.1)
  ]

  unfoldable pub delete_account : Bytes → AccountEntry → Index → World → World × List SessionError
  unfolding delete_each write_index
  delete_account account acct idx w =
      let swept = delete_each acct.sessions w.secrets in
      let done = write_index (delete account idx) (record w { secrets = swept.0 }) in
      (done.0, swept.1 ++ errors_of done.1)

  -- `DeleteAllSessions`; no error is no error to join
  unfoldable pub delete_all_sessions : SessionIndex → World → World × List SessionError
  unfolding delete_account
  delete_all_sessions si w = elim (read_index w) [
    | err e ↦ (w, e ∷ [])
    | ok idx ↦ elim (lookup si.account idx) [
      | none ↦ (w, [])
      | some acct ↦ delete_account si.account acct idx w
    ]
  ]
