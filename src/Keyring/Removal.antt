-- ===== src/Keyring/Removal.antt =====
-- What `Delete` leaves, and what `Load` does to an entry it takes for stale.
use proton_utils.Base.{
  ◌≡◌, refl, sym, ap, ◌∙◌, ◌==◌, none, some, [], ◌∷◌, Bytes, Map, lookup, delete, size, list_eq,
  nat_eq, ok, err, ◌=?◌, Result-cases, Option-cases, Bool-cases, inl, inr, lookup-insert,
  lookup-delete, arith, if◌then◌else◌, ==_iff,
}
use proton_utils.Keyring.Outside.{
  AccountEntry, Index, SessionError, key_not_found, Codec, Keyring, Disk,
}
use proton_utils.Keyring.Index.{
  SessionIndex, World, read_index, write_index, remove_session, load, load_from, load_resolved,
  resolve, delete_found, delete_from, delete_session,
}
use proton_utils.Keyring.Saving.{session_id, is_same, refl_key, write_index-ok, session_id-there}

size-eq-zero : {V : Type 0} (m : Map Bytes V) → size m ≡ 0 → m ≡ []
unfolding size
size-eq-zero [] h = refl
size-eq-zero (e ∷ m) h = absurd (ground arith)

-- what the account's entry becomes
remove_session-account :
    (si other : SessionIndex) (idx : Index) (acct : AccountEntry)
    → session_id other (remove_session si.account si.service acct idx) ≡ (
        if si.account =? other.account
        then lookup other.service (delete si.service acct.sessions)
        else session_id other idx)
unfolding remove_session
remove_session-account si other idx acct =
    let rest = delete si.service acct.sessions in
    let found = lookup-delete si.account other.account idx in
    let found' = lookup-insert si.account other.account (record acct { sessions = rest }) idx in
    elim (Bool-cases (size rest == 0)) [
      | inl last ↦
          let gone : rest ≡ [] = size-eq-zero rest ((==_iff (size rest) 0).0 last) in
          rw (remove_session, last)
            (elim (Bool-cases (si.account =? other.account)) [
              | inl same ↦
                  session_id-there other (delete si.account idx) none (found ∙ rw same refl)
                  ∙ rw same (sym (ap (lookup other.service) gone ∙ unfold lookup in refl))
              | inr apart ↦
                  session_id-there other (delete si.account idx) (lookup other.account idx)
                    (found ∙ rw apart refl)
                  ∙ rw apart refl
            ])
      | inr more ↦
          rw (remove_session, more)
            (elim (Bool-cases (si.account =? other.account)) [
              | inl same ↦
                  session_id-there other _ (some (record acct { sessions = rest }))
                    (found' ∙ rw same refl)
                  ∙ rw same refl
              | inr apart ↦
                  session_id-there other _ (lookup other.account idx) (found' ∙ rw apart refl)
                  ∙ rw apart refl
            ])
    ]

-- The sessions of the index once one is taken out: that one is gone, and the others stay.
session_id-remove_session :
    (si other : SessionIndex) (idx : Index) (acct : AccountEntry)
    → lookup si.account idx ≡ some acct
    → session_id other (remove_session si.account si.service acct idx)
      ≡ (if is_same si other then none else session_id other idx)
session_id-remove_session si other idx acct there =
    remove_session-account si other idx acct ∙ elim (Bool-cases (si.account =? other.account)) [
      | inr apart ↦ rw (is_same, apart) refl
      | inl same ↦
          let e = (list_eq.beq_iff si.account other.account).0 same in
          let held : session_id other idx ≡ lookup other.service acct.sessions =
            session_id-there other idx (some acct) (ap (λ k. lookup k idx) (sym e) ∙ there) in
          rw (is_same, same)
            (lookup-delete si.service other.service acct.sessions
              ∙ ap (λ o. if si.service =? other.service then none else o) (sym held))
    ]

module _ {C : Type 0} (codec : Codec C) (kr : Keyring codec.Secret) (disk : Disk codec.Text) where
  -- The index that can be read has lost the session, and no other.
  pub record Without (si : SessionIndex) (idx : Index) (w : World codec kr disk) : Type 0 where
    pub index : Index
    pub readable : read_index codec kr disk w ≡ ok index
    pub left :
        (other : SessionIndex)
        → session_id other index ≡ (if is_same si other then none else session_id other idx)

  delete_session_absent :
      (si : SessionIndex) (w : World codec kr disk) (idx : Index)
      → read_index codec kr disk w ≡ ok idx
      → session_id si idx ≡ none
      → delete_session codec kr disk si w ≡ (w, ok tt)
  unfolding delete_session delete_from
  delete_session_absent si w idx r h = elim (Option-cases (lookup si.account idx)) [
    | inl absent ↦ rw (delete_session, r, delete_from, absent) refl
    | inr (acct, there) ↦
        let e : lookup si.service acct.sessions ≡ none = rw (session_id, there) at h in
        rw (delete_session, r, delete_from, there, e) refl
  ]

  -- A `Delete` of a session that is there, and that succeeds.
  delete_session_there :
      (si : SessionIndex) (w w' : World codec kr disk) (idx : Index) (id : Bytes)
      → delete_session codec kr disk si w ≡ (w', ok tt)
      → read_index codec kr disk w ≡ ok idx
      → session_id si idx ≡ some id
      → (kr.delete w.secrets id ≡ ok w'.secrets) × Without si idx w'
  unfolding delete_session delete_from delete_found
  delete_session_there si w w' idx id h r i = elim (Option-cases (lookup si.account idx)) [
    | inl absent ↦ absurd (cc (rw (session_id, absent) at i))
    | inr (acct, there) ↦
        let e : lookup si.service acct.sessions ≡ some id = rw (session_id, there) at i in
        elim (Result-cases (kr.delete w.secrets id)) [
          | inr (x, bad) ↦
              absurd (cc (rw (delete_session, r, delete_from, there, e, delete_found, bad) at h))
          | inl (s, gone) ↦
              let (same, read) =
                write_index-ok codec kr disk (remove_session si.account si.service acct idx)
                  (record w { secrets = s }) w'
                  (rw (delete_session, r, delete_from, there, e, delete_found, gone) at h) in
              (
                gone ∙ ap ok (sym same),
                record {
                  index = remove_session si.account si.service acct idx;
                  readable = read;
                  left = λ other. session_id-remove_session si other idx acct there;
                },
              )
        ]
  ]

  -- After a `Delete` that succeeds the index has lost that session and no other, the keyring no
  -- longer has its secret, and another `Delete` changes nothing and succeeds.
  pub delete_session-delete_session :
      (si : SessionIndex) (w w' : World codec kr disk) (idx : Index) (id : Bytes)
      → delete_session codec kr disk si w ≡ (w', ok tt)
      → read_index codec kr disk w ≡ ok idx
      → session_id si idx ≡ some id
      → Without si idx w'
        × ((e : SessionError) × (kr.get w'.secrets id ≡ err e))
        × (delete_session codec kr disk si w' ≡ (w', ok tt))
  delete_session-delete_session si w w' idx id h r i =
      let (gone, without) = delete_session_there si w w' idx id h r i in
      let none_left : session_id si without.index ≡ none =
        without.left si ∙ rw (is_same, refl_key si.account, refl_key si.service) refl in
      (
        without,
        kr.get-delete w.secrets w'.secrets id gone,
        delete_session_absent si w' without.index without.readable none_left,
      )

  -- `Load` takes any failure of the keyring for a stale entry. If the keyring then fails for the
  -- session's ID, `Load` reports a missing key and, if the file can be written, the index loses
  -- the session and no other; the keyring stays as it is.
  pub load_stale :
      (si : SessionIndex) (w : World codec kr disk) (idx : Index) (acct : AccountEntry) (id : Bytes)
      (e : SessionError)
      → read_index codec kr disk w ≡ ok idx
      → lookup si.account idx ≡ some acct
      → lookup si.service acct.sessions ≡ some id
      → kr.get w.secrets id ≡ err e
      → (disk.write w.files (codec.marshal_index (remove_session si.account si.service acct idx))).1
        ≡ ok tt
      → ((load codec kr disk si w).1 ≡ err key_not_found)
        × ((load codec kr disk si w).0.secrets ≡ w.secrets)
        × Without si idx (load codec kr disk si w).0
  unfolding load load_from load_resolved resolve write_index
  load_stale si w idx acct id e r a i k written =
      let idx' = remove_session si.account si.service acct idx in
      let w' = (write_index codec kr disk idx' w).0 in
      let run : load codec kr disk si w ≡ (w', err key_not_found) =
        rw (load, r, load_from, a, resolve, i, load_resolved, k) refl in
      let (same, read) = write_index-ok codec kr disk idx' w w' (λ j. (w', written j)) in
      (
        ap (λ x. x.1) run,
        ap (λ x. x.0.secrets) run ∙ same,
        record {
          index = idx';
          readable = ap (λ x. read_index codec kr disk x.0) run ∙ read;
          left = λ other. session_id-remove_session si other idx acct a;
        },
      )
