-- ===== src/Providers/Endpoint/Family/Paths.antt =====
-- How `build_endpoint` joins its parts.
use package.text.Mathlib.TextLemmas
use plano.Prelude.{
  String, ◌<>◌, ◌≡◌, ◌∙◌, refl, sym, ap, is_empty, trim_start_slashes, if◌then◌else◌, inl, inr,
  Bool-cases, ◌==◌,
}
use Prim.Native.Char.{Char, code}
use plano.Providers.Endpoint.{Target, prefix_for, joined, build_endpoint}

-- What stands before the suffix.
abbrev pub lead : String → String
lead prefix = if is_empty prefix then "/" else "/" <> (prefix <> "/")

pub joined-lead : (prefix suffix : String) → joined prefix suffix ≡ lead prefix <> suffix
joined-lead prefix suffix = elim (Bool-cases (is_empty prefix)) [
  | inl empty ↦ rw empty
  | inr full ↦ rw full (simp TextLemmas.append_assoc)
]

pub build_endpoint-lead :
    (t : Target) (provider_prefix suffix : String)
    → build_endpoint t provider_prefix suffix
      ≡ lead (prefix_for t provider_prefix) <> trim_start_slashes suffix
unfolding build_endpoint
build_endpoint-lead t provider_prefix suffix =
    joined-lead (prefix_for t provider_prefix) (trim_start_slashes suffix)

slash-append : (path : String) → "/" <> path ≡ String.◌∷◌ "/" path
slash-append path =
    TextLemmas.cons-append "/" String.[] path
    ∙ ap (λ s. String.◌∷◌ "/" s) (TextLemmas.nil-append path)

pub trim-slash : (path : String) → trim_start_slashes ("/" <> path) ≡ trim_start_slashes path
unfolding trim_start_slashes
trim-slash path = rw (slash-append path)

trim-cons :
    (c : Char) (s : String)
    → trim_start_slashes (String.◌∷◌ c s)
      ≡ (if code c == b'/' then trim_start_slashes s else String.◌∷◌ c s)
unfolding trim_start_slashes
trim-cons c s = refl

-- Slashes at the front of a model's name do not reach a path behind it that starts with none.
pub trim_model :
    (model path : String)
    → trim_start_slashes path ≡ path
    → (front : String) × (trim_start_slashes (model <> ("/" <> path)) ≡ front <> path)
trim_model String.[] path h = (
  "",
  ap trim_start_slashes (TextLemmas.nil-append ("/" <> path))
      ∙ trim-slash path
      ∙ h
      ∙ sym (TextLemmas.nil-append path),
)
trim_model (String.◌∷◌ c model) path h =
    let (front, e) = trim_model model path h in
    let step =
      ap trim_start_slashes (TextLemmas.cons-append c model ("/" <> path))
      ∙ trim-cons c (model <> ("/" <> path)) in
    elim (Bool-cases (code c == b'/')) [
      | inl slash ↦ (front, step ∙ (rw slash e))
      | inr other ↦ (
        String.◌∷◌ c model <> "/",
        step
            ∙ (rw other (
                sym (TextLemmas.cons-append c model ("/" <> path))
                ∙ sym (TextLemmas.append_assoc (String.◌∷◌ c model) "/" path))),
      )
    ]

pub trim-model_path : (s : String) → trim_start_slashes ("/model/" <> s) ≡ "model/" <> s
trim-model_path s =
    ap trim_start_slashes (TextLemmas.append_assoc "/" "model/" s)
    ∙ trim-slash ("model/" <> s)
    ∙ ap trim_start_slashes (TextLemmas.cons-append "m" "odel/" s)
    ∙ trim-cons "m" ("odel/" <> s)
    ∙ sym (TextLemmas.cons-append "m" "odel/" s)
