-- ===== src/Drive/Fd/Completion.antt =====
-- The uploads in flight complete in any order: the tokens and the first error, as folds.
use proton_utils.Base.{
  ℕ, suc, ◌+◌, ◌≡◌, refl, ap, ◌∙◌, false, Option, none, some, List, [], ◌∷◌, ◌++◌, length,
  Bool-cases, inl, inr, if◌then◌else◌, Bytes, Map, lookup, insert, size, has, IsNodup,
  lookup-insert, size-insert, nat_eq, ◌==◌, Result, ok, err, Result-cases, arith,
}
use proton_utils.Drive.Fd.State.{FdError, Upload, UploadedBlock}

-- Any one of the uploads in flight completes next.
pub data Completes : List Upload → List Upload → Type 0 where
  done : Completes [] []
  next :
      (before after : List Upload) (u : Upload) {inflight order : List Upload}
      → inflight ≡ before ++ (u ∷ after)
      → Completes (before ++ after) order
      → Completes inflight (u ∷ order)

lookup_middle :
    (before after : List Upload) (u : Upload) (j : ℕ)
    → IsNodup (before ++ (u ∷ after))
    → lookup j (before ++ (u ∷ after)) ≡ (if u.0 == j then some u.1 else lookup j (before ++ after))
unfolding lookup
lookup_middle [] after u j h = refl
lookup_middle (x ∷ before) after u j h =
    ground (arith, lookup_middle before after u j, lookup_middle before after u x.0)

IsNodup-middle :
    (before after : List Upload) (u : Upload)
    → IsNodup (before ++ (u ∷ after))
    → IsNodup (before ++ after) × (has u.0 (before ++ after) ≡ false)
unfolding lookup
IsNodup-middle [] after u h = (h.1, h.0)
IsNodup-middle (x ∷ before) after u h =
    ground (arith, IsNodup-middle before after u, lookup_middle before after u x.0)

length_middle :
    (before after : List Upload) (u : Upload)
    → length (before ++ (u ∷ after)) ≡ suc (length (before ++ after))
length_middle [] after u = refl
length_middle (x ∷ before) after u = ap suc (length_middle before after u)

-- The order has the uploads in flight, each once.
pub record SameUploads (us order : List Upload) : Type 0 where
  pub nodup : IsNodup order
  pub found : (j : ℕ) → lookup j order ≡ lookup j us
  pub count : length order ≡ length us

pub Completes-SameUploads :
    {us order : List Upload} → Completes us order → IsNodup us → SameUploads us order
unfolding lookup
Completes-SameUploads done h = record { nodup = tt; found = λ j. refl; count = refl }
Completes-SameUploads (next before after u {inflight} {order} e rest) h =
    let h' : IsNodup (before ++ (u ∷ after)) = rw e at h in
    let (n, fresh) = IsNodup-middle before after u h' in
    let ih = Completes-SameUploads rest n in
    record {
      nodup = (ground (arith, ih.found u.0), ih.nodup);
      found = λ j. rw e (ground (arith, ih.found j, lookup_middle before after u j h'));
      count = rw e (omega (arith, ih.count, length_middle before after u));
    }

unfoldable pub token_of :
    Upload → Result FdError UploadedBlock → Map ℕ UploadedBlock → Map ℕ UploadedBlock
token_of u (ok ub) m = insert u.0 ub m
token_of u (err e) m = m

unfoldable pub error_of : Result FdError UploadedBlock → Option FdError → Option FdError
error_of (ok ub) e = e
error_of (err x) e = elim e [ none ↦ some x | some e' ↦ some e' ]

module _ (out : Upload → Result FdError UploadedBlock) where
  unfoldable pub fold_tokens : List Upload → Map ℕ UploadedBlock → Map ℕ UploadedBlock
  fold_tokens [] m = m
  fold_tokens (u ∷ order) m = fold_tokens order (token_of u (out u) m)

  unfoldable pub fold_err : List Upload → Option FdError → Option FdError
  fold_err [] e = e
  fold_err (u ∷ order) e = fold_err order (error_of (out u) e)

  -- Each upload of the list succeeds.
  abbrev pub AllOk : List Upload → Type 0
  AllOk us =
      (j : ℕ) (block : Bytes)
      → lookup j us ≡ some block
      → (ub : UploadedBlock) × (out (j, block) ≡ ok ub)

  AllOk-tail :
      (u : Upload) (order : List Upload) → IsNodup (u ∷ order) → AllOk (u ∷ order) → AllOk order
  unfolding lookup
  AllOk-tail u order n h j block e = h j block (ground arith)

  AllOk-head :
      (u : Upload) (order : List Upload)
      → AllOk (u ∷ order)
      → (ub : UploadedBlock) × (out u ≡ ok ub)
  unfolding lookup
  AllOk-head u order h = h u.0 u.1 (ground arith)

  -- a number that is not uploaded keeps its entry
  lookup-fold_tokens_absent :
      (order : List Upload) (m : Map ℕ UploadedBlock) (j : ℕ)
      → IsNodup order
      → AllOk order
      → lookup j order ≡ none
      → lookup j (fold_tokens order m) ≡ lookup j m
  unfolding fold_tokens lookup token_of
  lookup-fold_tokens_absent [] m j n h e = refl
  lookup-fold_tokens_absent (u ∷ order) m j n h e =
      let (ub, good) = AllOk-head u order h in
      rw good (
        lookup-fold_tokens_absent order (insert u.0 ub m) j n.1 (AllOk-tail u order n h)
          (ground arith)
        ∙ (lookup-insert u.0 j ub m ∙ ground arith))

  -- a number that is uploaded has its result
  pub lookup-fold_tokens_found :
      (order : List Upload) (m : Map ℕ UploadedBlock) (j : ℕ) (block : Bytes) (ub : UploadedBlock)
      → IsNodup order
      → AllOk order
      → lookup j order ≡ some block
      → out (j, block) ≡ ok ub
      → lookup j (fold_tokens order m) ≡ some ub
  unfolding fold_tokens lookup token_of
  lookup-fold_tokens_found [] m j block ub n h e good = cc
  lookup-fold_tokens_found (u ∷ order) m j block ub n h e good = elim (Bool-cases (u.0 == j)) [
    | inl here ↦
        let at : u ≡ (j, block) = ground arith in
        rw (ap out at ∙ good) (
          lookup-fold_tokens_absent order (insert u.0 ub m) j n.1 (AllOk-tail u order n h)
            (ground arith)
          ∙ (lookup-insert u.0 j ub m ∙ rw here))
    | inr later ↦
        let (vb, fine) = AllOk-head u order h in
        rw fine (
          lookup-fold_tokens_found order (insert u.0 vb m) j block ub n.1 (AllOk-tail u order n h)
            (ground arith) good)
  ]

  size-insert_fresh :
      (k : ℕ) (ub : UploadedBlock) (m : Map ℕ UploadedBlock)
      → lookup k m ≡ none
      → size (insert k ub m) ≡ suc (size m)
  size-insert_fresh k ub m h = ground (arith, size-insert k ub m)

  insert_apart :
      (u : Upload) (order : List Upload) (ub : UploadedBlock) (m : Map ℕ UploadedBlock)
      → IsNodup (u ∷ order)
      → ((j : ℕ) (block : Bytes) → lookup j (u ∷ order) ≡ some block → lookup j m ≡ none)
      → (j : ℕ) (block : Bytes) → lookup j order ≡ some block
      → lookup j (insert u.0 ub m) ≡ none
  unfolding lookup
  insert_apart u order ub m n d j block e = ground (arith, lookup-insert u.0 j ub m, d j block)

  pub size-fold_tokens :
      (order : List Upload) (m : Map ℕ UploadedBlock)
      → IsNodup order
      → AllOk order
      → ((j : ℕ) (block : Bytes) → lookup j order ≡ some block → lookup j m ≡ none)
      → size (fold_tokens order m) ≡ length order + size m
  unfolding fold_tokens lookup token_of
  size-fold_tokens [] m n h d = omega arith
  size-fold_tokens (u ∷ order) m n h d =
      let (ub, good) = AllOk-head u order h in
      let grown = size-insert_fresh u.0 ub m (d u.0 u.1 (ground arith)) in
      rw good (
        size-fold_tokens order (insert u.0 ub m) n.1 (AllOk-tail u order n h)
          (insert_apart u order ub m n d)
        ∙ omega (arith, grown))

  pub fold_err-AllOk :
      (order : List Upload) (e : Option FdError)
      → IsNodup order
      → AllOk order
      → fold_err order e ≡ e
  unfolding fold_err error_of
  fold_err-AllOk [] e n h = refl
  fold_err-AllOk (u ∷ order) e n h =
      let (ub, good) = AllOk-head u order h in
      rw good (fold_err-AllOk order e n.1 (AllOk-tail u order n h))

  -- some upload of the list fails
  abbrev pub Fails : List Upload → FdError → Type 0
  Fails us e = (j : ℕ) × (block : Bytes) × (lookup j us ≡ some block) × (out (j, block) ≡ err e)

  fold_err_kept : (order : List Upload) (e : FdError) → fold_err order (some e) ≡ some e
  unfolding fold_err error_of
  fold_err_kept [] e = refl
  fold_err_kept (u ∷ order) e = elim (Result-cases (out u)) [
    | inl (ub, good) ↦ rw good (fold_err_kept order e)
    | inr (x, bad) ↦ rw bad (fold_err_kept order e)
  ]

  pub fold_err-Fails :
      (order : List Upload) {e : FdError}
      → Fails order e
      → (x : FdError) × (fold_err order none ≡ some x)
  unfolding fold_err error_of lookup
  fold_err-Fails [] (j, block, here, bad) = absurd (cc)
  fold_err-Fails (u ∷ order) (j, block, here, bad) = elim (Result-cases (out u)) [
    | inr (x, failed) ↦ (x, rw failed (fold_err_kept order x))
    | inl (ub, good) ↦ elim (Bool-cases (u.0 == j)) [
      | inl same ↦ let at : u ≡ (j, block) = ground arith in absurd (cc (ap out at))
      | inr apart ↦
          let (x, p) = fold_err-Fails order (j, block, ground arith, bad) in (x, rw good p)
    ]
  ]
