-- ===== src/Providers/Id.antt =====
-- The providers and their names: crates/hermesllm/src/providers/id.rs.
pub mod Names
use Prim.Native.Char.{code}
use mathlib.Core.List.{filter_map}
use plano.Prelude.{
  ℕ, ◌+◌, leb, ◌==◌, Bool, true, false, ◌&&◌, Option, none, some, List, [], ◌∷◌, map, String,
  if◌then◌else◌, split_once_slash,
}

pub data ProviderId : Type 0 where
  openai xiaomi mistral deepseek groq gemini anthropic github plano_id azure_openai xai together_ai
        ollama moonshotai zhipu qwen amazon_bedrock chatgpt digitalocean vercel openrouter astraflow
        astraflow_cn :
      ProviderId

-- `Result<ProviderId, String>`
pub data Parsed : Type 0 where
  ok : ProviderId → Parsed
  unknown_provider : String → Parsed

-- `char::to_lowercase`, for the characters whose lower case is one ASCII character: the capitals
-- and the Kelvin sign. No other character can make a name below, and is left alone.
unfoldable pub to_lowercase : ℕ → ℕ
to_lowercase c = if leb b'A' c && leb c b'Z' then c + 32 else if c == 0x212a then b'k' else c

abbrev pub codes : String → List ℕ
codes String.[] = []
codes (String.◌∷◌ c s) = code c ∷ codes s

abbrev pub codes_eq : List ℕ → List ℕ → Bool
codes_eq [] [] = true
codes_eq (a ∷ xs) (b ∷ ys) = (a == b) && codes_eq xs ys
codes_eq _ _ = false

-- The arms of `match value.to_lowercase().as_str()`.
abbrev pub arms : List (String × ProviderId)
arms =
    ("openai", openai)
    ∷ ("xiaomi", xiaomi)
    ∷ ("mistral", mistral)
    ∷ ("deepseek", deepseek)
    ∷ ("groq", groq)
    ∷ ("gemini", gemini)
    ∷ ("google", gemini)
    ∷ ("anthropic", anthropic)
    ∷ ("github", github)
    ∷ ("plano", plano_id)
    ∷ ("azure_openai", azure_openai)
    ∷ ("xai", xai)
    ∷ ("together_ai", together_ai)
    ∷ ("together", together_ai)
    ∷ ("ollama", ollama)
    ∷ ("moonshotai", moonshotai)
    ∷ ("zhipu", zhipu)
    ∷ ("qwen", qwen)
    ∷ ("amazon_bedrock", amazon_bedrock)
    ∷ ("amazon", amazon_bedrock)
    ∷ ("chatgpt", chatgpt)
    ∷ ("digitalocean", digitalocean)
    ∷ ("do", digitalocean)
    ∷ ("do_ai", digitalocean)
    ∷ ("vercel", vercel)
    ∷ ("openrouter", openrouter)
    ∷ ("astraflow", astraflow)
    ∷ ("astraflow_cn", astraflow_cn)
    ∷ []

unfoldable pub find_arm : List ℕ → List (String × ProviderId) → Option ProviderId
find_arm value [] = none
find_arm value ((name, id) ∷ rest) =
    if codes_eq value (codes name) then some id else find_arm value rest

-- `TryFrom<&str> for ProviderId`
unfoldable pub try_from : String → Parsed
unfolding to_lowercase find_arm
try_from value = elim (find_arm (map to_lowercase (codes value)) arms) [
  | none ↦ unknown_provider value
  | some id ↦ ok id
]

-- `Display for ProviderId`
unfoldable pub display : ProviderId → String
display openai = "OpenAI"
display xiaomi = "xiaomi"
display mistral = "Mistral"
display deepseek = "Deepseek"
display groq = "Groq"
display gemini = "Gemini"
display anthropic = "Anthropic"
display github = "GitHub"
display plano_id = "Plano"
display azure_openai = "azure_openai"
display xai = "xai"
display together_ai = "together_ai"
display ollama = "ollama"
display moonshotai = "moonshotai"
display zhipu = "zhipu"
display qwen = "qwen"
display amazon_bedrock = "amazon_bedrock"
display chatgpt = "chatgpt"
display digitalocean = "digitalocean"
display vercel = "vercel"
display openrouter = "openrouter"
display astraflow = "astraflow"
display astraflow_cn = "astraflow_cn"

-- The key of a provider in provider_models.yaml.
unfoldable pub provider_key : ProviderId → Option String
provider_key amazon_bedrock = some "amazon"
provider_key azure_openai = some "openai"
provider_key together_ai = some "together"
provider_key gemini = some "google"
provider_key openai = some "openai"
provider_key xiaomi = some "xiaomi"
provider_key anthropic = some "anthropic"
provider_key mistral = some "mistralai"
provider_key deepseek = some "deepseek"
provider_key groq = some "groq"
provider_key xai = some "x-ai"
provider_key moonshotai = some "moonshotai"
provider_key zhipu = some "z-ai"
provider_key qwen = some "qwen"
provider_key chatgpt = some "chatgpt"
provider_key digitalocean = some "digitalocean"
provider_key _ = none

-- The model's name behind the first slash.
abbrev pub model_name : String → Option String
model_name model = elim (split_once_slash model) [ none ↦ none | some (p, name) ↦ some name ]

-- `models`, where `registry` is the map read from provider_models.yaml.
unfoldable pub models : (String → Option (List String)) → ProviderId → List String
models registry id = elim (provider_key id) [
  | none ↦ []
  | some key ↦ elim (registry key) [ none ↦ [] | some names ↦ filter_map model_name names ]
]
