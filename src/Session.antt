-- ===== src/Session.antt =====
-- The cache of routing decisions: crates/brightstaff/src/session_cache. The crate lru is a parameter.
pub mod Eviction
mod Examples
use plano.Prelude.{ℕ, ltb, ◌-◌, Bool, not, Option, none, some, List, [], ◌∷◌, String, if◌then◌else◌}

pub record CachedRoute : Type 0 where
  pub model_name : String
  pub route_name : Option String

-- A stored value: the route, the time of the insertion, and how long it is kept.
pub record Entry : Type 0 where
  pub route : CachedRoute
  pub inserted_at : ℕ
  pub ttl : ℕ

-- The methods of `LruCache` that are called. A look-up changes the order of use.
pub record LruCache (S : Type 0) : Type 0 where
  pub get : S → String → Option Entry × S
  pub put : S → String → Entry → S
  pub pop : S → String → S
  pub iter : S → List (String × Entry)

-- `inserted_at.elapsed() < ttl`, at a time
unfoldable pub is_fresh : ℕ → Entry → Bool
is_fresh now e = ltb (now - e.inserted_at) e.ttl

-- What `get` answers for what the store has.
abbrev pub fresh_route : ℕ → Option Entry → Option CachedRoute
fresh_route now none = none
fresh_route now (some e) = if is_fresh now e then some e.route else none

module _ {S : Type 0} (lru : LruCache S) where
  unfoldable pub session_get : ℕ → String → S → Option CachedRoute × S
  session_get now key store = let found = lru.get store key in (fresh_route now found.0, found.1)

  unfoldable pub session_put : ℕ → String → CachedRoute → ℕ → S → S
  session_put now key route ttl store =
      lru.put store key (record { route = route; inserted_at = now; ttl = ttl })

  unfoldable pub session_remove : String → S → S
  session_remove key store = lru.pop store key

  unfoldable pub expired_keys : ℕ → List (String × Entry) → List String
  expired_keys now [] = []
  expired_keys now ((key, e) ∷ entries) =
      let rest = expired_keys now entries in if not (is_fresh now e) then key ∷ rest else rest

  unfoldable pub pop_all : List String → S → S
  pop_all [] store = store
  pop_all (key ∷ keys) store = pop_all keys (lru.pop store key)

  unfoldable pub evict_expired : ℕ → S → S
  evict_expired now store = pop_all (expired_keys now (lru.iter store)) store
