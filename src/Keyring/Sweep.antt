-- ===== src/Keyring/Sweep.antt =====
-- What `DeleteAllSessions` leaves.
use proton_utils.Base.{
  ◌≡◌, refl, sym, ap, ◌∙◌, none, some, List, [], ◌∷◌, ◌++◌, Bytes, Map, lookup, delete, list_eq,
  nat_eq, Result, ok, err, ◌=?◌, Result-cases, Bool-cases, inl, inr, lookup-delete, if◌then◌else◌,
}
use proton_utils.Keyring.Outside.{AccountEntry, Index, SessionError, Codec, Keyring, Disk}
use proton_utils.Keyring.Index.{
  SessionIndex, World, read_index, write_index, delete_each, delete_account, delete_all_sessions,
  errors_of,
}
use proton_utils.Keyring.Saving.{session_id, write_index-ok, session_id-there}

module _ {C : Type 0} (codec : Codec C) (kr : Keyring codec.Secret) (disk : Disk codec.Text) where
  -- The sweep deletes the secrets one by one; what is gone stays gone.
  delete_each-kept :
      (sessions : Map Bytes Bytes) (s t : kr.State) (id : Bytes) (e : SessionError)
      → delete_each codec kr disk sessions s ≡ (t, [])
      → kr.get s id ≡ err e
      → (x : SessionError) × (kr.get t id ≡ err x)
  unfolding delete_each
  delete_each-kept [] s t id e h g = (e, cc (ap (λ x. x.0) h, g))
  delete_each-kept ((service, j) ∷ sessions) s t id e h g = elim (Result-cases (kr.delete s j)) [
    | inr (x, bad) ↦ absurd (cc (ap (λ y. y.1) (rw (delete_each, bad) at h)))
    | inl (s', gone) ↦
        let rest = rw (delete_each, gone) at h in
        elim (Bool-cases (j =? id)) [
          | inl same ↦
              let (x, g') = kr.get-delete s s' j gone in
              delete_each-kept sessions s' t id x rest
                (ap (kr.get s') (sym ((list_eq.beq_iff j id).0 same)) ∙ g')
          | inr apart ↦
              delete_each-kept sessions s' t id e rest
                (kr.get-delete_other s s' j id gone apart ∙ g)
        ]
  ]

  delete_each-gone :
      (sessions : Map Bytes Bytes) (s t : kr.State) (service id : Bytes)
      → delete_each codec kr disk sessions s ≡ (t, [])
      → lookup service sessions ≡ some id
      → (x : SessionError) × (kr.get t id ≡ err x)
  unfolding delete_each lookup
  delete_each-gone [] s t service id h l = absurd (cc)
  delete_each-gone ((name, j) ∷ sessions) s t service id h l = elim (Result-cases (kr.delete s j)) [
    | inr (x, bad) ↦ absurd (cc (ap (λ y. y.1) (rw (delete_each, bad) at h)))
    | inl (s', gone) ↦
        let rest = rw (delete_each, gone) at h in
        elim (Bool-cases (name =? service)) [
          | inl here ↦
              let same : j ≡ id = cc (rw here at l) in
              let (x, g) = kr.get-delete s s' j gone in
              delete_each-kept sessions s' t id x rest (ap (kr.get s') (sym same) ∙ g)
          | inr later ↦ delete_each-gone sessions s' t service id rest (rw later at l)
        ]
  ]

  swept :
      (xs : List SessionError) (r : Result SessionError (Unit {0}))
      → xs ++ errors_of r ≡ []
      → (xs ≡ []) × (r ≡ ok tt)
  swept [] (ok u) h = (refl, refl)
  swept [] (err e) h = absurd (cc h)
  swept (x ∷ xs) r h = absurd (cc h)

  -- A sweep without errors: every secret was deleted, and the index without the account written.
  record Swept (account : Bytes) (idx : Index) (acct : AccountEntry) (w w' : World codec kr disk)
      : Type 0 where
    gone : delete_each codec kr disk acct.sessions w.secrets ≡ (w'.secrets, [])
    reads : read_index codec kr disk w' ≡ ok (delete account idx)

  delete_all_sessions-Swept :
      (si : SessionIndex) (w w' : World codec kr disk) (idx : Index) (acct : AccountEntry)
      → delete_all_sessions codec kr disk si w ≡ (w', [])
      → read_index codec kr disk w ≡ ok idx
      → lookup si.account idx ≡ some acct
      → Swept si.account idx acct w w'
  unfolding delete_all_sessions delete_account
  delete_all_sessions-Swept si w w' idx acct h r a =
      let run : delete_account codec kr disk si.account acct idx w ≡ (w', []) =
        rw (delete_all_sessions, r, a) at h in
      let s = delete_each codec kr disk acct.sessions w.secrets in
      let done = write_index codec kr disk (delete si.account idx) (record w { secrets = s.0 }) in
      let (no_errors, written) = swept s.1 done.1 (ap (λ x. x.1) run) in
      let (same, read) =
        write_index-ok codec kr disk (delete si.account idx) (record w { secrets = s.0 }) w'
          (λ j. ((run j).0, written j)) in
      record { gone = λ j. (sym same j, no_errors j); reads = read }

  -- After a `DeleteAllSessions` without errors the index has lost every session of the account,
  -- and no other.
  pub delete_all_sessions-session_id :
      (si other : SessionIndex) (w w' : World codec kr disk) (idx : Index) (acct : AccountEntry)
      → delete_all_sessions codec kr disk si w ≡ (w', [])
      → read_index codec kr disk w ≡ ok idx
      → lookup si.account idx ≡ some acct
      → (idx' : Index) × (read_index codec kr disk w' ≡ ok idx')
        × (session_id other idx'
            ≡ (if si.account =? other.account then none else session_id other idx))
  delete_all_sessions-session_id si other w w' idx acct h r a =
      let found = lookup-delete si.account other.account idx in
      let lost = delete_all_sessions-Swept si w w' idx acct h r a in
      (
        delete si.account idx,
        lost.reads,
        elim (Bool-cases (si.account =? other.account)) [
          | inl same ↦
              session_id-there other (delete si.account idx) none (found ∙ rw same refl)
              ∙ rw same refl
          | inr apart ↦
              session_id-there other (delete si.account idx) (lookup other.account idx)
                (found ∙ rw apart refl)
              ∙ rw apart refl
        ],
      )

  -- After it the keyring no longer has the secret of any session that the account had.
  pub get-delete_all_sessions :
      (si : SessionIndex) (w w' : World codec kr disk) (idx : Index) (acct : AccountEntry)
      (service id : Bytes)
      → delete_all_sessions codec kr disk si w ≡ (w', [])
      → read_index codec kr disk w ≡ ok idx
      → lookup si.account idx ≡ some acct
      → lookup service acct.sessions ≡ some id
      → (e : SessionError) × (kr.get w'.secrets id ≡ err e)
  get-delete_all_sessions si w w' idx acct service id h r a l =
      delete_each-gone acct.sessions w.secrets w'.secrets service id
        (delete_all_sessions-Swept si w w' idx acct h r a).gone l
