-- ===== src/Session/Examples.antt =====
-- The eviction at a concrete cache, kept as an association list.
use plano.Prelude.{
  Option, none, some, List, [], ◌∷◌, String, str_eq, ◌≡◌, refl, arith, get, remove, insert,
  get-remove, get-remove_other, string_key, Bool-cases, inl, inr, eq_iff, ap, sym, ◌∙◌,
  if◌then◌else◌,
}
use plano.Session.{CachedRoute, Entry, LruCache, session_get, session_put, evict_expired}
use plano.Session.Eviction.{AreFound, nothing, found, IsLru, session_get-evict_expired}

abbrev Store : Type 0
Store = List (String × Entry)

abbrev with_entry : String → Option Entry → Store → Store
with_entry key none rest = rest
with_entry key (some e) rest = (key, e) ∷ rest

abbrev walked : Store → Store → Store
walked store [] = []
walked store ((key, e) ∷ rest) = with_entry key (get store key) (walked store rest)

abbrev cache : LruCache Store
cache = record {
  get = λ store key. (get store key, store);
  put = insert;
  pop = remove;
  iter = λ store. walked store store;
}

with_entry-AreFound :
    (store : Store) (key : String) (o : Option Entry) (rest : Store)
    → get store key ≡ o
    → AreFound cache store rest
    → AreFound cache store (with_entry key o rest)
with_entry-AreFound store key none rest is f = f
with_entry-AreFound store key (some e) rest is f = found is f

walked-AreFound : (store rest : Store) → AreFound cache store (walked store rest)
walked-AreFound store [] = nothing
walked-AreFound store ((key, e) ∷ rest) =
    with_entry-AreFound store key (get store key) (walked store rest) refl
      (walked-AreFound store rest)

get-remove_at :
    (store : Store) (key other : String)
    → get (remove store key) other ≡ (if str_eq key other then none else get store other)
get-remove_at store key other = elim (Bool-cases (str_eq key other)) [
  | inl same ↦
      rw same (
        ap (λ k. get (remove store key) k) (sym ((eq_iff key other).0 same)) ∙ get-remove store key)
  | inr apart ↦ rw apart (get-remove_other store key other apart)
]

cache-IsLru : IsLru cache
cache-IsLru = record { get-pop = get-remove_at; iter-found = λ store. walked-AreFound store store }

abbrev coding : CachedRoute
coding = record { model_name = "openai/gpt-4o"; route_name = some "coding" }

-- A route that is kept for ten seconds, and one that is kept for a minute.
abbrev two_routes : Store
two_routes = session_put cache 5 "b" coding 60 (session_put cache 0 "a" coding 10 [])

session_get-evict_expired_example :
    (session_get cache 30 "b" (evict_expired cache 20 two_routes)).0
    ≡ (session_get cache 30 "b" two_routes).0
session_get-evict_expired_example =
    session_get-evict_expired cache cache-IsLru 20 30 "b" two_routes (omega arith)
