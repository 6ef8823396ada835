-- ===== src/Providers/Id/Names.antt =====
-- Names of providers are read back, in any case.
use plano.Prelude.{◌≡◌, refl}
use plano.Providers.Id.{ProviderId, openai, ok, try_from, display}

-- The name that a provider is displayed by is parsed to that provider.
pub try_from-display : (id : ProviderId) → try_from (display id) ≡ ok id
unfolding try_from display
try_from-display openai = refl
try_from-display _ = refl
