-- ===== src/Drive/Fd/Manifests.antt =====
-- The manifest that a commit sends, from the uploads in order.
use proton_utils.Base.{
  ℕ, suc, ◌+◌, ◌<◌, ◌≡◌, refl, sym, ap, ◌∙◌, none, some, List, [], ◌∷◌, ◌++◌, append-nil,
  append_assoc, length, length-append, Bytes, Map, lookup, IsNodup, nat_eq, Result, ok, ◌>>=◌,
  >>=-eq-ok, inl, inr, true, Bool-cases, ◌==◌, arith,
}
use proton_utils.Drive.Fd.State.{Fd, FdError, Upload, UploadedBlock, Remote}
use proton_utils.Drive.Fd.Commit.{Manifest, no_blocks, add_block, gather, encrypt_and_upload_block}
use proton_utils.Drive.Fd.Stream.{contents}
use proton_utils.Drive.Fd.Completion.{AllOk}
use proton_utils.Drive.Fd.Waits.{outcome}

abbrev pub IsNumbered : ℕ → List Upload → Type 0
IsNumbered i [] = Unit
IsNumbered i (u ∷ us) = (u.0 ≡ i) × IsNumbered (suc i) us

lookup_below : (i j : ℕ) (us : List Upload) → IsNumbered i us → j < i → lookup j us ≡ none
unfolding lookup
lookup_below i j [] h l = refl
lookup_below i j (u ∷ us) h l = ground (arith, lookup_below (suc i) j us)

pub IsNumbered-IsNodup : (i : ℕ) (us : List Upload) → IsNumbered i us → IsNodup us
IsNumbered-IsNodup i [] h = tt
IsNumbered-IsNodup i (u ∷ us) h =
    (ground (arith, lookup_below (suc i) u.0 us), IsNumbered-IsNodup (suc i) us h.1)

-- The uploads one after the other, in the order of their numbers.
unfoldable pub upload_each :
    (Upload → Result FdError UploadedBlock) → List Upload → Result FdError (List UploadedBlock)
upload_each out [] = ok []
upload_each out (u ∷ us) = do ub ← out u; ubs ← upload_each out us; ok (ub ∷ ubs)

abbrev pub numbered_tokens : ℕ → List UploadedBlock → List (ℕ × Bytes)
numbered_tokens i [] = []
numbered_tokens i (ub ∷ ubs) = (i + 1, ub.token) ∷ numbered_tokens (suc i) ubs

abbrev pub raw_sizes : List UploadedBlock → List ℕ
raw_sizes [] = []
raw_sizes (ub ∷ ubs) = ub.raw_size ∷ raw_sizes ubs

abbrev pub hashes : List UploadedBlock → Bytes
hashes [] = []
hashes (ub ∷ ubs) = ub.enc_hash ++ hashes ubs

abbrev pub sum : List ℕ → ℕ
sum [] = 0
sum (n ∷ ns) = n + sum ns

-- The manifest of these blocks: 1-based numbers, sizes, joined hashes, and the total.
abbrev pub manifest_of : List UploadedBlock → Manifest
manifest_of ubs = record {
  block_tokens = numbered_tokens 0 ubs;
  block_sizes = raw_sizes ubs;
  manifest_data = hashes ubs;
  total_size = sum (raw_sizes ubs);
}

abbrev Holds : Map ℕ UploadedBlock → ℕ → List UploadedBlock → Type 0
Holds tokens i [] = Unit
Holds tokens i (ub ∷ ubs) = (lookup i tokens ≡ some ub) × Holds tokens (suc i) ubs

manifest_path :
    {bt bt' : List (ℕ × Bytes)} {bs bs' : List ℕ} {d d' : Bytes} {t t' : ℕ}
    → bt ≡ bt'
    → bs ≡ bs'
    → d ≡ d'
    → t ≡ t'
    → ◌≡◌ {A = Result FdError Manifest}
        (ok (record { block_tokens = bt; block_sizes = bs; manifest_data = d; total_size = t }))
        (ok (record { block_tokens = bt'; block_sizes = bs'; manifest_data = d'; total_size = t' }))
manifest_path p q r s = λ i.
    ok (record { block_tokens = p i; block_sizes = q i; manifest_data = r i; total_size = s i })

gather-Holds :
    (tokens : Map ℕ UploadedBlock) (i : ℕ) (ubs : List UploadedBlock) (m : Manifest)
    → Holds tokens i ubs
    → gather (length ubs) i tokens m
      ≡ ok (record {
        block_tokens = m.block_tokens ++ numbered_tokens i ubs;
        block_sizes = m.block_sizes ++ raw_sizes ubs;
        manifest_data = m.manifest_data ++ hashes ubs;
        total_size = m.total_size + sum (raw_sizes ubs);
      })
unfolding gather add_block
gather-Holds tokens i [] m h =
    manifest_path (sym (append-nil _)) (sym (append-nil _)) (sym (append-nil _)) (omega arith)
gather-Holds tokens i (ub ∷ ubs) m h =
    rw (h.0, gather)
      (gather-Holds tokens (suc i) ubs (add_block i ub m) h.1
        ∙ manifest_path {t = m.total_size + ub.raw_size + sum (raw_sizes ubs)}
            {t' = m.total_size + (ub.raw_size + sum (raw_sizes ubs))}
            (append_assoc m.block_tokens ((i + 1, ub.token) ∷ []) (numbered_tokens (suc i) ubs))
            (append_assoc m.block_sizes (ub.raw_size ∷ []) (raw_sizes ubs))
            (append_assoc m.manifest_data ub.enc_hash (hashes ubs)) (omega arith))

upload_each-cons :
    (out : Upload → Result FdError UploadedBlock) (u : Upload) (us : List Upload)
    {ubs : List UploadedBlock}
    → upload_each out (u ∷ us) ≡ ok ubs
    → (ub : UploadedBlock) × (rest : List UploadedBlock) × (out u ≡ ok ub)
      × (upload_each out us ≡ ok rest)
      × (ubs ≡ ub ∷ rest)
unfolding upload_each
upload_each-cons out u us e =
    let (ub, good, later) = >>=-eq-ok (out u) (λ x. upload_each out us >>= λ xs. ok (x ∷ xs)) e in
    let (rest, goods, last) = >>=-eq-ok (upload_each out us) (λ xs. ok (ub ∷ xs)) later in
    (ub, rest, good, goods, cc last)

upload_each-nil :
    (out : Upload → Result FdError UploadedBlock) (ubs : List UploadedBlock)
    → upload_each out [] ≡ ok ubs
    → ubs ≡ []
unfolding upload_each
upload_each-nil out ubs e = cc e

pub upload_each-AllOk :
    (out : Upload → Result FdError UploadedBlock) (us : List Upload) {ubs : List UploadedBlock}
    → upload_each out us ≡ ok ubs
    → AllOk out us
unfolding lookup
upload_each-AllOk out [] e j block h = absurd (cc)
upload_each-AllOk out (u ∷ us) e j block h =
    let (ub, rest, good, goods, _) = upload_each-cons out u us e in
    elim (Bool-cases (u.0 == j)) [
      | inl here ↦ (ub, ap out (same_pair here) ∙ good)
      | inr later ↦ upload_each-AllOk out us goods j block (ground arith)
    ]
  where
    same_pair : (u.0 == j) ≡ true → (j, block) ≡ u
    same_pair here = ground arith

abbrev Found : (Upload → Result FdError UploadedBlock) → Map ℕ UploadedBlock → List Upload → Type 0
Found out tokens us =
    (j : ℕ) (block : Bytes) (ub : UploadedBlock)
    → lookup j us ≡ some block
    → out (j, block) ≡ ok ub
    → lookup j tokens ≡ some ub

Found-tail :
    (out : Upload → Result FdError UploadedBlock) (tokens : Map ℕ UploadedBlock) (i : ℕ)
    (u : Upload) (us : List Upload)
    → IsNumbered i (u ∷ us)
    → Found out tokens (u ∷ us)
    → Found out tokens us
unfolding lookup
Found-tail out tokens i u us n h j block ub e good =
    h j block ub (ground (arith, lookup_below (suc i) j us n.1)) good

Found-head :
    (out : Upload → Result FdError UploadedBlock) (tokens : Map ℕ UploadedBlock) (u : Upload)
    (us : List Upload) (ub : UploadedBlock)
    → Found out tokens (u ∷ us)
    → out u ≡ ok ub
    → lookup u.0 tokens ≡ some ub
unfolding lookup
Found-head out tokens u us ub h good = h u.0 u.1 ub (ground arith) good

-- The results of the uploads stand under the numbers.
upload_each-Holds :
    (out : Upload → Result FdError UploadedBlock) (tokens : Map ℕ UploadedBlock) (i : ℕ)
    (us : List Upload) {ubs : List UploadedBlock}
    → IsNumbered i us
    → Found out tokens us
    → upload_each out us ≡ ok ubs
    → Holds tokens i ubs × (length ubs ≡ length us)
upload_each-Holds out tokens i [] {ubs} n h e = rw (upload_each-nil out ubs e) (tt, refl)
upload_each-Holds out tokens i (u ∷ us) n h e =
    let (ub, rest, good, goods, is) = upload_each-cons out u us e in
    let (held, count) =
      upload_each-Holds out tokens (suc i) us n.1 (Found-tail out tokens i u us n h) goods in
    rw is ((rw (← n.0) (Found-head out tokens u us ub h good), held), ap suc count)

-- `gather` over the entries of numbered uploads that all succeed is their manifest.
pub gather-upload_each :
    (out : Upload → Result FdError UploadedBlock) (tokens : Map ℕ UploadedBlock) (us : List Upload)
    {ubs : List UploadedBlock}
    → IsNumbered 0 us
    → Found out tokens us
    → upload_each out us ≡ ok ubs
    → gather (length us) 0 tokens no_blocks ≡ ok (manifest_of ubs)
gather-upload_each out tokens us {ubs} n h e =
    let (held, count) = upload_each-Holds out tokens 0 us n h e in
    ap (λ k. gather k 0 tokens no_blocks) (sym count)
    ∙ gather-Holds tokens 0 ubs no_blocks held
    ∙ manifest_path {t = 0 + sum (raw_sizes ubs)} {t' = sum (raw_sizes ubs)} refl refl refl
        (omega arith)

outcome-raw_size :
    (r : Remote) (fd : Fd) (u : Upload) (ub : UploadedBlock)
    → outcome r fd u ≡ ok ub
    → ub.raw_size ≡ length u.1
unfolding encrypt_and_upload_block
outcome-raw_size r fd u ub e = ground arith

-- The sizes add up to the number of bytes written.
pub sum-raw_sizes :
    (r : Remote) (fd : Fd) (us : List Upload) {ubs : List UploadedBlock}
    → upload_each (outcome r fd) us ≡ ok ubs
    → sum (raw_sizes ubs) ≡ length (contents us)
sum-raw_sizes r fd [] {ubs} e = rw (upload_each-nil (outcome r fd) ubs e)
sum-raw_sizes r fd (u ∷ us) e =
    let (ub, rest, good, goods, is) = upload_each-cons (outcome r fd) u us e in
    rw is (
      omega (
        arith,
        outcome-raw_size r fd u ub good,
        sum-raw_sizes r fd us goods,
        length-append u.1 (contents us),
      ))
