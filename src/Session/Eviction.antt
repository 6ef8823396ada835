-- ===== src/Session/Eviction.antt =====
-- The eviction of expired routes changes no answer of the cache.
use plano.Prelude.{
  ℕ, ◌≤◌, true, false, not, none, some, List, [], ◌∷◌, any, String, str_eq, eq_iff, ◌≡◌, refl, sym,
  ap, ◌∙◌, arith, Bool-cases, inl, inr, if◌then◌else◌,
}
use plano.Session.{
  Entry, LruCache, is_fresh, fresh_route, session_get, expired_keys, pop_all, evict_expired,
}

-- What the cache relies on: a removal removes its key alone, and the entries that are walked are those
-- that a look-up finds.
pub data AreFound {S : Type 0} (lru : LruCache S) (store : S) : List (String × Entry) → Type 0 where
  nothing : AreFound lru store []
  found :
      {key : String} {e : Entry} {entries : List (String × Entry)}
      → (lru.get store key).0 ≡ some e
      → AreFound lru store entries
      → AreFound lru store ((key, e) ∷ entries)

pub record IsLru {S : Type 0} (lru : LruCache S) : Type 0 where
  pub get-pop :
      (store : S) (key other : String)
      → (lru.get (lru.pop store key) other).0
        ≡ (if str_eq key other then none else (lru.get store other).0)
  pub iter-found : (store : S) → AreFound lru store (lru.iter store)

stays_expired :
    (now later : ℕ) (e : Entry) → now ≤ later → is_fresh now e ≡ false → is_fresh later e ≡ false
unfolding is_fresh
stays_expired now later e le h = ground arith

expired_answer :
    (now later : ℕ) (e : Entry)
    → now ≤ later
    → not (is_fresh now e) ≡ true
    → fresh_route later (some e) ≡ none
expired_answer now later e le h = rw (stays_expired now later e le (ground arith)) refl

module _ {S : Type 0} (lru : LruCache S) where
  get-pop_all :
      IsLru lru
      → (keys : List String) (store : S) (key : String)
      → (lru.get (pop_all lru keys store) key).0
        ≡ (if any (λ k. str_eq k key) keys then none else (lru.get store key).0)
  unfolding pop_all
  get-pop_all is [] store key = refl
  get-pop_all is (k ∷ keys) store key =
      get-pop_all is keys (lru.pop store k) key ∙ elim (Bool-cases (any (λ k. str_eq k key) keys)) [
        | inl gone ↦ elim (Bool-cases (str_eq k key)) [
          | inl same ↦ rw (gone, same) refl
          | inr other ↦ rw (gone, other) refl
        ]
        | inr kept ↦ elim (Bool-cases (str_eq k key)) [
          | inl same ↦ rw kept (is.get-pop store k key ∙ rw same refl)
          | inr other ↦ rw kept (is.get-pop store k key ∙ rw other refl)
        ]
      ]

  -- A key that is evicted has no answer from then on.
  expired_keys-none :
      {now later : ℕ} {store : S} {entries : List (String × Entry)} (key : String)
      → now ≤ later
      → AreFound lru store entries
      → any (λ k. str_eq k key) (expired_keys lru now entries) ≡ true
      → fresh_route later ((lru.get store key).0) ≡ none
  unfolding expired_keys
  expired_keys-none key le nothing = λ h. ground arith
  expired_keys-none {now} {later} {store} key le
        (found {key = k} {e = e} {entries = entries} is rest) =
      elim (Bool-cases (not (is_fresh now e))) [
        | inl expired ↦ elim (Bool-cases (str_eq k key)) [
          | inl same ↦ λ h.
              ap (λ k'. fresh_route later ((lru.get store k').0)) (sym ((eq_iff k key).0 same))
              ∙ ap (fresh_route later) is
              ∙ expired_answer now later e le expired
          | inr other ↦ rw (expired, other) (expired_keys-none key le rest)
        ]
        | inr fresh ↦ rw fresh (expired_keys-none key le rest)
      ]

  -- Whenever expired routes are evicted, every later look-up answers what it would have answered
  -- without the eviction.
  pub session_get-evict_expired :
      IsLru lru
      → (now later : ℕ) (key : String) (store : S) → now ≤ later
      → (session_get lru later key (evict_expired lru now store)).0
        ≡ (session_get lru later key store).0
  unfolding session_get evict_expired
  session_get-evict_expired is now later key store le =
      let keys = expired_keys lru now (lru.iter store) in
      ap (fresh_route later) (get-pop_all is keys store key)
      ∙ elim (Bool-cases (any (λ k. str_eq k key) keys)) [
        | inl gone ↦ rw gone (sym (expired_keys-none key le (is.iter-found store) gone))
        | inr kept ↦ rw kept refl
      ]
