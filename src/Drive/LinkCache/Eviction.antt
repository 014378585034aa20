-- ===== src/Drive/LinkCache/Eviction.antt =====
-- What an eviction pass leaves of the link cache.
use proton_utils.Base.{
  ℕ, zero, suc, ◌-◌, ◌≤◌, leb, leb→le, ◌≡◌, refl, ap, ◌∙◌, Bool, true, false, not, ◌&&◌, ◌||◌,
  Bool-cases, inl, inr, none, List, [], ◌∷◌, length, take, drop, length-take, length-drop, All,
  Bytes, ◌=?◌, list_eq, list_beq_iff, nat_eq, if◌then◌else◌, arith,
}
use proton_utils.Drive.LinkCache.{
  Store, erased, Fetcher, LinkCache, Aged, is_block, scan, insert_aged, oldest_first, evict,
  run_eviction, erase_key,
}

module _ (st : Store) (fe : Fetcher) where
  abbrev pub A : Type 0
  A = Aged st fe

  -- Whether a key is one of those scanned.
  pub is_among : Bytes → List A → Bool
  is_among j [] = false
  is_among j (e ∷ es) = e.key =? j || is_among j es

  abbrev pub IsOlder : A → List A → Type 0
  IsOlder a = All (λ b. a.mtime ≤ b.mtime)

  abbrev IsOrdered : List A → Type 0
  IsOrdered [] = Unit
  IsOrdered (a ∷ es) = IsOlder a es × IsOrdered es

  IsOlder-trans : (a b : A) (es : List A) → a.mtime ≤ b.mtime → IsOlder b es → IsOlder a es
  IsOlder-trans a b [] h k = tt
  IsOlder-trans a b (e ∷ es) h k = (omega (arith, k.0), IsOlder-trans a b es h k.1)

  IsOlder-insert_aged :
      (a e : A) (es : List A)
      → a.mtime ≤ e.mtime
      → IsOlder a es
      → IsOlder a (insert_aged st fe e es)
  unfolding insert_aged
  IsOlder-insert_aged a e [] h k = (h, tt)
  IsOlder-insert_aged a e (x ∷ xs) h k = ground (arith, IsOlder-insert_aged a e xs)

  insert_aged-IsOrdered : (e : A) (es : List A) → IsOrdered es → IsOrdered (insert_aged st fe e es)
  unfolding insert_aged
  insert_aged-IsOrdered e [] h = (tt, tt)
  insert_aged-IsOrdered e (x ∷ xs) h =
      ground (arith, insert_aged-IsOrdered e xs, IsOlder-insert_aged x e xs, IsOlder-trans e x xs)

  oldest_first-IsOrdered : (es : List A) → IsOrdered (oldest_first st fe es)
  unfolding oldest_first
  oldest_first-IsOrdered [] = tt
  oldest_first-IsOrdered (e ∷ es) =
      insert_aged-IsOrdered e (oldest_first st fe es) (oldest_first-IsOrdered es)

  length-insert_aged : (e : A) (es : List A) → length (insert_aged st fe e es) ≡ suc (length es)
  unfolding insert_aged
  length-insert_aged e [] = refl
  length-insert_aged e (x ∷ xs) = ground (arith, length-insert_aged e xs)

  length-oldest_first : (es : List A) → length (oldest_first st fe es) ≡ length es
  unfolding oldest_first
  length-oldest_first [] = refl
  length-oldest_first (e ∷ es) =
      omega (arith, length-insert_aged e (oldest_first st fe es), length-oldest_first es)

  is_among-insert_aged :
      (j : Bytes) (e : A) (es : List A)
      → is_among j (insert_aged st fe e es) ≡ (e.key =? j || is_among j es)
  unfolding insert_aged is_among
  is_among-insert_aged j e [] = refl
  is_among-insert_aged j e (x ∷ xs) = ground (arith, is_among-insert_aged j e xs)

  is_among-oldest_first :
      (j : Bytes) (es : List A) → is_among j (oldest_first st fe es) ≡ is_among j es
  unfolding oldest_first is_among
  is_among-oldest_first j [] = refl
  is_among-oldest_first j (e ∷ es) =
      is_among-insert_aged j e (oldest_first st fe es)
      ∙ ap (λ b. e.key =? j || b) (is_among-oldest_first j es)

  IsOlder-drop : (n : ℕ) (a : A) (es : List A) → IsOlder a es → IsOlder a (drop n es)
  IsOlder-drop zero a es h = h
  IsOlder-drop (suc n) a [] h = tt
  IsOlder-drop (suc n) a (e ∷ es) h = IsOlder-drop n a es h.1

  -- An entry of the front is no younger than one of the rest.
  front-IsOlder :
      (n : ℕ) (es : List A) → IsOrdered es → All (λ a. IsOlder a (drop n es)) (take n es)
  front-IsOlder zero es h = tt
  front-IsOlder (suc n) [] h = tt
  front-IsOlder (suc n) (e ∷ es) h = (IsOlder-drop n e es h.0, front-IsOlder n es h.1)

  -- No block is scanned.
  is_among-scan :
      (j : Bytes) (keys : List Bytes) (c : LinkCache st fe)
      → is_block j ≡ true
      → is_among j (scan st fe keys c) ≡ false
  unfolding scan is_among
  is_among-scan j [] c h = refl
  is_among-scan j (key ∷ keys) c h = elim (Bool-cases (key =? j)) [
    | inl e ↦
        let same = (list_beq_iff key j).0 e in
        let block = ap is_block same ∙ h in ground (arith, is_among-scan j keys c)
    | inr e ↦ ground (arith, is_among-scan j keys c)
  ]

  is_among-take :
      (j : Bytes) (n : ℕ) (es : List A) → is_among j es ≡ false → is_among j (take n es) ≡ false
  unfolding is_among
  is_among-take j zero es h = refl
  is_among-take j (suc n) [] h = refl
  is_among-take j (suc n) (e ∷ es) h = ground (arith, is_among-take j n es)

  -- The entries that a pass erases, those beyond the target, and those that it leaves.
  pub evicted : ℕ → LinkCache st fe → List A
  evicted limit c =
      let entries = scan st fe (st.keys c.disk) c in
      take (length entries - limit) (oldest_first st fe entries)

  pub retained : ℕ → LinkCache st fe → List A
  retained limit c =
      let entries = scan st fe (st.keys c.disk) c in
      drop (length entries - limit) (oldest_first st fe entries)

  is_among-few : (j : Bytes) (n : ℕ) (es : List A) → n ≡ 0 → is_among j (take n es) ≡ false
  unfolding is_among
  is_among-few j zero es h = refl
  is_among-few j (suc n) es h = absurd (omega arith)

  evicted-IsOlder :
      (limit : ℕ) (c : LinkCache st fe) → All (λ a. IsOlder a (retained limit c)) (evicted limit c)
  unfolding evicted retained
  evicted-IsOlder limit c =
      let entries = scan st fe (st.keys c.disk) c in
      front-IsOlder _ (oldest_first st fe entries) (oldest_first-IsOrdered entries)

  module _ (erases : (s : st.State) (k : Bytes) → (st.erase s k).1 ≡ erased) where
    read-evict :
        (j : Bytes) (es : List A) (n : ℕ) (c : LinkCache st fe)
        → st.read (evict st fe es n c).0.disk j ≡ (if is_among j es then none else st.read c.disk j)
    unfolding evict erase_key is_among
    read-evict j [] n c = refl
    read-evict j (e ∷ es) n c =
        read-evict j es _ (erase_key st fe e.key c)
        ∙ ground (arith, st.read-erase c.disk e.key j (erases c.disk e.key))

    evict-remaining :
        (es : List A) (n : ℕ) (c : LinkCache st fe) → (evict st fe es n c).1 ≡ n - length es
    unfolding evict
    evict-remaining [] n c = omega arith
    evict-remaining (e ∷ es) n c =
        evict-remaining es _ (erase_key st fe e.key c) ∙ ground (arith, erases c.disk e.key)

    cache_count-run_eviction :
        (limit : ℕ) (c : LinkCache st fe)
        → ((run_eviction st fe limit c).cache_count ≡ length (retained limit c))
          × (length (retained limit c) ≤ limit)
    unfolding run_eviction retained
    cache_count-run_eviction limit c =
        let entries = scan st fe (st.keys c.disk) c in
        let sorted = oldest_first st fe entries in
        let over = length entries - limit in
        let left = length-drop over sorted in
        let all = length-oldest_first entries in
        (
          ground (
            arith,
            evict-remaining (take over sorted) (length entries) c,
            length-take over sorted,
            left,
            all,
          ),
          omega (arith, left, all),
        )

    read-run_eviction :
        (j : Bytes) (limit : ℕ) (c : LinkCache st fe)
        → st.read (run_eviction st fe limit c).disk j
          ≡ (if is_among j (evicted limit c) then none else st.read c.disk j)
    unfolding run_eviction evicted
    read-run_eviction j limit c =
        let entries = scan st fe (st.keys c.disk) c in
        let sorted = oldest_first st fe entries in
        let over = length entries - limit in
        elim (Bool-cases (leb (length entries) limit)) [
          | inl few ↦
              rw (few, run_eviction)
                (rw (is_among-few j over sorted (omega (arith, leb→le _ _ few))) refl)
          | inr many ↦ rw (many, run_eviction) (read-evict j (take over sorted) (length entries) c)
        ]

    is_among-evicted :
        (j : Bytes) (limit : ℕ) (c : LinkCache st fe)
        → is_block j ≡ true
        → is_among j (evicted limit c) ≡ false
    unfolding evicted
    is_among-evicted j limit c h =
        let entries = scan st fe (st.keys c.disk) c in
        is_among-take j _ (oldest_first st fe entries)
          (is_among-oldest_first j entries ∙ is_among-scan j (st.keys c.disk) c h)

    -- An eviction pass whose erasures succeed leaves at most as many as its limit of the entries that it
    -- scans and counts them anew. None that it erases was written after one that it leaves; an erased
    -- key reads as a miss, and any other key, a block's in particular, reads as before.
    pub run_eviction-IsOldest :
        (j : Bytes) (limit : ℕ) (c : LinkCache st fe)
        → ((run_eviction st fe limit c).cache_count ≡ length (retained limit c))
          × (length (retained limit c) ≤ limit)
          × All (λ a. IsOlder a (retained limit c)) (evicted limit c)
          × (st.read (run_eviction st fe limit c).disk j ≡ (
              if not (is_block j) && is_among j (evicted limit c) then none else st.read c.disk j))
    run_eviction-IsOldest j limit c =
        let (count, within) = cache_count-run_eviction limit c in
        (
          count,
          within,
          evicted-IsOlder limit c,
          ground (arith, read-run_eviction j limit c, is_among-evicted j limit c),
        )
