-- ===== src/Keyring/Loading.antt =====
-- What `Load` returns, after a `Save` too.
use proton_utils.Base.{
  false, ◌≡◌, refl, sym, ap, ◌∙◌, some, Bytes, lookup, insert, list_eq, nat_eq, ok, ◌=?◌,
  Option-cases, inl, inr,
}
use proton_utils.Keyring.Outside.{Index, Codec, Keyring, Disk}
use proton_utils.Keyring.Index.{
  SessionIndex, World, read_index, save, account_of, id_of, with_session, load, load_from,
  load_resolved, resolve, decoded,
}
use proton_utils.Keyring.Saving.{refl_key, session_id, is_same, session_id-save, save-Saved}

module _ {C : Type 0} (codec : Codec C) (kr : Keyring codec.Secret) (disk : Disk codec.Text) where
  -- `Load` of a session that the index has for the very service.
  pub load-found :
      (si : SessionIndex) (w : World codec kr disk) (idx : Index) (id : Bytes)
      (secret : codec.Secret)
      → read_index codec kr disk w ≡ ok idx
      → session_id si idx ≡ some id
      → kr.get w.secrets id ≡ ok secret
      → load codec kr disk si w ≡ (w, decoded codec kr disk secret)
  unfolding load load_from load_resolved resolve
  load-found si w idx id secret r i k = elim (Option-cases (lookup si.account idx)) [
    | inl absent ↦ absurd (cc (rw (session_id, absent) at i))
    | inr (acct, there) ↦
        let e : lookup si.service acct.sessions ≡ some id = rw (session_id, there) at i in
        rw (load, r, load_from, there, resolve, e, load_resolved, k) refl
  ]

  -- After a `Save` that succeeds, `Load` of the same session returns what was saved.
  pub load-save :
      (si : SessionIndex) (c : C) (new : Bytes) (w w' : World codec kr disk)
      → save codec kr disk si c new w ≡ (w', ok tt)
      → load codec kr disk si w' ≡ (w', ok c)
  load-save si c new w w' h =
      let s = save-Saved codec kr disk si c new w w' h in
      let id = id_of si (account_of si s.idx) new in
      let after = insert si.account (with_session si (account_of si s.idx) new) s.idx in
      load-found si w' after id s.secret s.after
        (session_id-save si si s.idx new
          ∙ rw (is_same, refl_key si.account, refl_key si.service) refl)
        (kr.get-set w.secrets w'.secrets id id s.secret s.stored ∙ rw (refl_key id) refl)
      ∙ rw (decoded, codec.unmarshal-marshal c s.secret s.marshals) refl

  -- A `Save` that succeeds leaves the other sessions as they were: `Load` of one that the index has
  -- for its very service, under an ID other than that of the session saved, and whose secret the
  -- keyring has, returns what it returned before.
  pub load-save_other :
      (si other : SessionIndex) (c : C) (new : Bytes) (w w' : World codec kr disk) (idx : Index)
      (id : Bytes) (secret : codec.Secret)
      → save codec kr disk si c new w ≡ (w', ok tt)
      → read_index codec kr disk w ≡ ok idx
      → session_id other idx ≡ some id
      → is_same si other ≡ false
      → (id_of si (account_of si idx) new =? id) ≡ false
      → kr.get w.secrets id ≡ ok secret
      → (load codec kr disk other w').1 ≡ (load codec kr disk other w).1
  load-save_other si other c new w w' idx id secret h r i differs apart k =
      let s = save-Saved codec kr disk si c new w w' h in
      let saved_id = id_of si (account_of si s.idx) new in
      let after = insert si.account (with_session si (account_of si s.idx) new) s.idx in
      let same : idx ≡ s.idx = cc (sym r ∙ s.before) in
      let there : session_id other after ≡ some id =
        session_id-save si other s.idx new ∙ rw differs (ap (session_id other) (sym same) ∙ i) in
      let apart' : (saved_id =? id) ≡ false =
        ap (λ x. id_of si (account_of si x) new =? id) (sym same) ∙ apart in
      let kept : kr.get w'.secrets id ≡ ok secret =
        kr.get-set w.secrets w'.secrets saved_id id s.secret s.stored ∙ rw apart' k in
      ap (λ x. x.1) (load-found other w' after id secret s.after there kept)
      ∙ ap (λ x. x.1) (sym (load-found other w idx id secret r i k))
