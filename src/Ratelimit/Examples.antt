-- ===== src/Ratelimit/Examples.antt =====
-- The theorems at a concrete configuration, with a limiter that is its quota and what it has left
-- for all keys together, and never gets any back.
use mathlib.Core.Option
use plano.Prelude.{
  ℕ, ◌-◌, leb, none, some, List, [], ◌∷◌, ◌≡◌, refl, String, if◌then◌else◌, get, insert, string_key,
}
use plano.Ratelimit.{
  ConfigHeader, Header, Ratelimit, Governor, Outcome, minute, allowed, not_yet, exceeded_limit,
  header_key, Datastore, get_quota, new, new_from, add_limit, check_limit, find_limit,
}
use plano.Ratelimit.Selectors.{configured, limiter_at, fresh, new-first_wins}
use plano.Ratelimit.Checks.{applicable, verdict, check_limit-verdict}

abbrev spend : ℕ → ℕ → Outcome × ℕ
spend left tokens = if leb tokens left then (allowed, left - tokens) else (not_yet, left)

abbrev bucket : Governor
bucket = record {
  Quota = ℕ;
  Limiter = ℕ;
  per_second = λ n. n;
  per_minute = λ n. n;
  per_hour = λ n. n;
  keyed = λ n. n;
  check_key_n = λ now left key tokens. spend left tokens;
}

abbrev limit_of : String → ConfigHeader → ℕ → Ratelimit
limit_of model selector tokens = record {
  model = model;
  selector = selector;
  limit = record { tokens = tokens; unit = minute };
}

abbrev for_user : ConfigHeader
for_user = record { key = "user"; value = some "ann" }

abbrev for_users : ConfigHeader
for_users = record { key = "user"; value = none }

abbrev configs : List Ratelimit
configs = limit_of "m" for_users 10 ∷ limit_of "m" for_user 50 ∷ limit_of "m" for_user 70 ∷ []

abbrev started : Datastore bucket
started = ("m", (for_users, 10) ∷ (for_user, 50) ∷ []) ∷ []

abbrev ann : Header
ann = record { key = "user"; value = "ann" }

abbrev bob : Header
bob = record { key = "user"; value = "bob" }

starts : new bucket configs ≡ some started
unfolding new new_from add_limit get_quota get insert Option.bind
starts = refl

bob_exceeds : (check_limit bucket 0 started "m" bob 11).0 ≡ some (exceeded_limit "m" bob 11)
unfolding check_limit find_limit get insert
bob_exceeds = refl

new-first_wins_example :
    limiter_at bucket started "m" for_user
    ≡ Option.bind (configured configs "m" for_user) (fresh bucket)
new-first_wins_example = new-first_wins bucket configs started "m" for_user starts

check_limit-verdict_example :
    (check_limit bucket 0 started "m" ann 60).0
    ≡ verdict bucket 0 "m" ann 60 (applicable configs "m" ann)
check_limit-verdict_example = check_limit-verdict bucket configs started 0 "m" ann 60 starts
