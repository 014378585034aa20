-- ===== src/Keyring/Saving.antt =====
-- What a `Save` that succeeds stores, and the sessions that the index has then.
use proton_utils.Base.{
  Bool, true, ◌≡◌, refl, sym, ap, ◌∙◌, Option, none, some, [], Bytes, lookup, insert, has, list_eq,
  nat_eq, ok, ◌>>=◌, if◌then◌else◌, ◌=?◌, ◌&&◌, Result-cases, Option-cases, Bool-cases, inl, inr,
  lookup-insert,
}
use proton_utils.Keyring.Outside.{AccountEntry, Index, Codec, Keyring, Disk}
use proton_utils.Keyring.Index.{
  SessionIndex, World, read_index, write_index, persist, save_to, save, account_of, id_of,
  with_session, parsed,
}

pub refl_key : (k : Bytes) → (k =? k) ≡ true
refl_key k = (list_eq.beq_iff k k).1 refl

with_session-none :
    (si : SessionIndex) (acct : AccountEntry) (new : Bytes)
    → lookup si.service acct.sessions ≡ none
    → (with_session si acct new ≡ record acct { sessions = insert si.service new acct.sessions })
      × (id_of si acct new ≡ new)
unfolding with_session id_of
with_session-none si acct new e = (rw (with_session, has, e) refl, rw (id_of, e) refl)

with_session-some :
    (si : SessionIndex) (acct : AccountEntry) (new id : Bytes)
    → lookup si.service acct.sessions ≡ some id
    → (with_session si acct new ≡ acct) × (id_of si acct new ≡ id)
unfolding with_session id_of
with_session-some si acct new id e = (rw (with_session, has, e) refl, rw (id_of, e) refl)

-- Each service's session in the account's entry after a `Save`.
pub lookup-with_session :
    (si : SessionIndex) (acct : AccountEntry) (new service : Bytes)
    → lookup service (with_session si acct new).sessions
      ≡ (if si.service =? service then some (id_of si acct new) else lookup service acct.sessions)
lookup-with_session si acct new service = elim (Option-cases (lookup si.service acct.sessions)) [
  | inl absent ↦
      let (e, same) = with_session-none si acct new absent in
      rw (e, same) (lookup-insert si.service service new acct.sessions)
  | inr (id, there) ↦
      let (e, same) = with_session-some si acct new id there in
      rw (e, same)
        (elim (Bool-cases (si.service =? service)) [
          | inl here ↦ rw here (
              ap (λ k. lookup k acct.sessions) (sym ((list_eq.beq_iff si.service service).0 here))
              ∙ there)
          | inr other ↦ rw other refl
        ])
]

-- The ID that the index has for the very service.
abbrev pub session_id : SessionIndex → Index → Option Bytes
session_id si idx = elim (lookup si.account idx) [
  | none ↦ none
  | some acct ↦ lookup si.service acct.sessions
]

abbrev pub is_same : SessionIndex → SessionIndex → Bool
is_same si other = si.account =? other.account && si.service =? other.service

account_of-some :
    (si : SessionIndex) (idx : Index) (acct : AccountEntry)
    → lookup si.account idx ≡ some acct
    → account_of si idx ≡ acct
unfolding account_of
account_of-some si idx acct e = rw (account_of, e) refl

account_of-none :
    (si : SessionIndex) (idx : Index)
    → lookup si.account idx ≡ none
    → (account_of si idx).sessions ≡ []
unfolding account_of
account_of-none si idx e = rw (account_of, e) refl

session_id-account :
    (si other : SessionIndex) (idx : Index)
    → (si.account =? other.account) ≡ true
    → lookup other.service (account_of si idx).sessions ≡ session_id other idx
unfolding lookup
session_id-account si other idx same =
    let e = (list_eq.beq_iff si.account other.account).0 same in
    elim (Option-cases (lookup si.account idx)) [
      | inl absent ↦
          ap (lookup other.service) (account_of-none si idx absent)
          ∙ sym (rw (session_id, ap (λ k. lookup k idx) (sym e) ∙ absent) refl)
      | inr (acct, there) ↦
          ap (λ (a : AccountEntry). lookup other.service a.sessions)
            (account_of-some si idx acct there)
          ∙ sym (rw (session_id, ap (λ k. lookup k idx) (sym e) ∙ there) refl)
    ]

pub session_id-there :
    (other : SessionIndex) (idx : Index) (o : Option AccountEntry)
    → lookup other.account idx ≡ o
    → session_id other idx ≡ elim o [ none ↦ none | some acct ↦ lookup other.service acct.sessions ]
session_id-there other idx o e = rw (session_id, e) refl

-- The sessions of the index that a `Save` writes.
pub session_id-save :
    (si other : SessionIndex) (idx : Index) (new : Bytes)
    → session_id other (insert si.account (with_session si (account_of si idx) new) idx)
      ≡ (if is_same si other then some (id_of si (account_of si idx) new) else session_id other idx)
session_id-save si other idx new =
    let acct = account_of si idx in
    let after = insert si.account (with_session si acct new) idx in
    let found = lookup-insert si.account other.account (with_session si acct new) idx in
    elim (Bool-cases (si.account =? other.account)) [
      | inl same ↦
          session_id-there other after (some (with_session si acct new)) (found ∙ rw same refl)
          ∙ lookup-with_session si acct new other.service
          ∙ rw (is_same, same, session_id-account si other idx same) refl
      | inr apart ↦
          session_id-there other after (lookup other.account idx) (found ∙ rw apart refl)
          ∙ rw (is_same, apart) refl
    ]

module _ {C : Type 0} (codec : Codec C) (kr : Keyring codec.Secret) (disk : Disk codec.Text) where
  -- The file that a write left can be read, and has the index.
  pub write_index-ok :
      (idx : Index) (w w' : World codec kr disk)
      → write_index codec kr disk idx w ≡ (w', ok tt)
      → (w'.secrets ≡ w.secrets) × (read_index codec kr disk w' ≡ ok idx)
  unfolding write_index read_index
  write_index-ok idx w w' h =
      let written : (disk.write w.files (codec.marshal_index idx)).1 ≡ ok tt = ap (λ x. x.1) h in
      (
        ap (λ x. x.0.secrets) (sym h),
        ap (λ x. disk.read x.0.files >>= parsed codec kr disk) (sym h)
            ∙ ap (λ x. x >>= parsed codec kr disk)
                (disk.read-write w.files (codec.marshal_index idx) written)
            ∙ rw (parsed, codec.unmarshal_index-marshal_index idx) refl,
      )

  -- What a `Save` that succeeds has done.
  pub record Saved (si : SessionIndex) (c : C) (new : Bytes) (w w' : World codec kr disk)
      : Type 0 where
    pub idx : Index
    pub secret : codec.Secret
    pub before : read_index codec kr disk w ≡ ok idx
    pub marshals : codec.marshal c ≡ ok secret
    pub stored : kr.set w.secrets (id_of si (account_of si idx) new) secret ≡ ok w'.secrets
    pub after :
        read_index codec kr disk w'
        ≡ ok (insert si.account (with_session si (account_of si idx) new) idx)

  persist-ok :
      (idx : Index) (w w' : World codec kr disk)
      → persist codec kr disk idx w ≡ (w', ok tt)
      → (w'.secrets ≡ w.secrets) × (read_index codec kr disk w' ≡ ok idx)
  unfolding persist
  persist-ok idx w w' h = elim (Result-cases (disk.make_directory w.files).1) [
    | inr (e, bad) ↦ absurd (cc (rw (persist, bad) at h))
    | inl (u, made) ↦
        write_index-ok idx (record w { files = (disk.make_directory w.files).0 }) w'
          (rw (persist, made) at h)
  ]

  save_to-ok :
      (si : SessionIndex) (c : C) (new : Bytes) (idx : Index) (w w' : World codec kr disk)
      → save_to codec kr disk si c new idx w ≡ (w', ok tt)
      → (secret : codec.Secret) × (codec.marshal c ≡ ok secret)
        × (kr.set w.secrets (id_of si (account_of si idx) new) secret ≡ ok w'.secrets)
        × (read_index codec kr disk w'
            ≡ ok (insert si.account (with_session si (account_of si idx) new) idx))
  unfolding save_to
  save_to-ok si c new idx w w' h = elim (Result-cases (codec.marshal c)) [
    | inr (e, bad) ↦ absurd (cc (rw (save_to, bad) at h))
    | inl (secret, good) ↦
        elim (Result-cases (kr.set w.secrets (id_of si (account_of si idx) new) secret)) [
          | inr (e, bad) ↦ absurd (cc (rw (save_to, good, bad) at h))
          | inl (s, stored) ↦
              let (same, read) =
                persist-ok (insert si.account (with_session si (account_of si idx) new) idx)
                  (record w { secrets = s }) w' (rw (save_to, good, stored) at h) in
              (secret, good, stored ∙ ap ok (sym same), read)
        ]
  ]

  -- A `Save` that succeeds has stored the secret under the session's ID and written the index.
  pub save-Saved :
      (si : SessionIndex) (c : C) (new : Bytes) (w w' : World codec kr disk)
      → save codec kr disk si c new w ≡ (w', ok tt)
      → Saved si c new w w'
  unfolding save
  save-Saved si c new w w' h = elim (Result-cases (read_index codec kr disk w)) [
    | inr (e, bad) ↦ absurd (cc (rw (save, bad) at h))
    | inl (idx, good) ↦
        let (secret, m, s, r) = save_to-ok si c new idx w w' (rw (save, good) at h) in
        record { idx = idx; secret = secret; before = good; marshals = m; stored = s; after = r }
  ]
