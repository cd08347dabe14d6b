-- ===== src/Compile/Settings/Laws.antt =====
-- What the projected settings hold.
use morph_api.Prelude.{
  String, ◌≡◌, ◌⊎◌, inl, inr, refl, ◌∙◌, true, false, All, Bool-cases, Option, none, some, List, [],
  ◌∷◌, ◌==◌, if◌then◌else◌, arith,
}
use morph_api.Prelude.Text.{trim_space}
use morph_api.Prelude.Membership.{mem}
use morph_api.Json.{Value, bool, num, str, Fields, lookup}
use morph_api.Json.Laws.{lookup-insert, or_else}
use morph_api.Patch.Values.{get}
use morph_api.Compile.Read.{
  Floats, get_str, get_bool, get_float, atoi, put_parsed, put_whole, put_optional_int,
}
use morph_api.Compile.Settings.{
  put_present, llm_fields, http_fields, decision_fields, llm_settings_body, http_settings_body,
  decision_settings_body,
}

abbrev pub llm_keys : List String
llm_keys =
    "provider" ∷ "url" ∷ "model" ∷ "access_token" ∷ "temperature" ∷ "max_tokens"
    ∷ "request_timeout_s" ∷ "max_retries" ∷ []

abbrev pub http_keys : List String
http_keys =
    "base_url" ∷ "auth_type" ∷ "username" ∷ "password" ∷ "token" ∷ "header_name" ∷ "timeout_seconds"
    ∷ "insecure_skip_verify" ∷ "max_retries" ∷ "headers" ∷ []

abbrev pub decision_keys : List String
decision_keys =
    "provider" ∷ "access_token" ∷ "model" ∷ "url" ∷ "timeout_seconds" ∷ "max_retries" ∷ []

abbrev pub parsed : Option String → Option Value
parsed none = none
parsed (some n) = some (num n)

pub lookup-put_present :
    (j k : String) (o : Option Value) (out : Fields)
    → lookup j (put_present out k o) ≡ (if k == j then or_else o (lookup j out) else lookup j out)
lookup-put_present j k none out = ground arith
lookup-put_present j k (some v) out = lookup-insert k j v out

module _ (floats : Floats) where
  -- the whole number that a profile's value carries: a number cut off, or a text that spells one
  abbrev pub whole : Value → Option Value
  whole (num n) = some (num (floats.truncate n))
  whole (str s) = parsed (atoi (trim_space s))
  whole _ = none

  lookup-put_parsed :
      (j k : String) (o : Option String) (out : Fields)
      → lookup j (put_parsed floats out k o)
        ≡ (if k == j then or_else (parsed o) (lookup j out) else lookup j out)
  lookup-put_parsed j k none out = ground arith
  lookup-put_parsed j k (some n) out = lookup-insert k j (num n) out

  lookup-put_whole :
      (j k : String) (v : Value) (out : Fields)
      → lookup j (put_whole floats out k v)
        ≡ (if k == j then or_else (whole v) (lookup j out) else lookup j out)
  lookup-put_whole j k (num n) out = lookup-insert k j (num (floats.truncate n)) out
  lookup-put_whole j k (str s) out = lookup-put_parsed j k (atoi (trim_space s)) out
  lookup-put_whole j k _ out = ground arith

  pub lookup-put_optional_int :
      (j k : String) (out profile : Fields)
      → lookup j (put_optional_int floats out profile k)
        ≡ (if k == j then or_else (whole (get k profile)) (lookup j out) else lookup j out)
  unfolding put_optional_int
  lookup-put_optional_int j k out profile = lookup-put_whole j k (get k profile) out

  or_else-none : {A : Type 0} (o : Option A) → or_else o none ≡ o
  or_else-none none = refl
  or_else-none (some a) = refl

  -- each of the keys has the text that the profile has there
  abbrev pub Texts : Fields → Fields → List String → Type 0
  Texts profile body ks = All (λ k. lookup k body ≡ some (str (get_str profile k))) ks

  -- each of the keys has the whole number that the profile has there, if it has one, and is else absent
  abbrev pub Optional : Fields → Fields → List String → Type 0
  Optional profile body ks = All (λ k. lookup k body ≡ whole (get k profile)) ks

  -- no key but these
  abbrev pub Only : Fields → List String → Type 0
  Only body ks = (j : String) → (mem j ks ≡ true) ⊎ (lookup j body ≡ none)

  -- a number that the profile need not have is a zero then, and is cut off to a whole one
  abbrev pub Cut : Fields → Fields → String → Type 0
  Cut profile body k = lookup k body ≡ some (num (floats.truncate (get_float floats profile k)))

  lookup-skip :
      (j k : String) (out profile : Fields)
      → (k == j) ≡ false
      → lookup j (put_optional_int floats out profile k) ≡ lookup j out
  lookup-skip j k out profile e = lookup-put_optional_int j k out profile ∙ rw e refl

  lookup-llm :
      (profile : Fields) (k : String)
      → ("max_retries" == k) ≡ false
      → ("request_timeout_s" == k) ≡ false
      → lookup k (llm_settings_body floats profile) ≡ lookup k (llm_fields floats profile)
  unfolding llm_settings_body
  lookup-llm profile k e f =
      lookup-skip k "max_retries" _ profile e
      ∙ lookup-skip k "request_timeout_s" (llm_fields floats profile) profile f

  lookup-http :
      (profile : Fields) (k : String)
      → ("max_retries" == k) ≡ false
      → ("headers" == k) ≡ false
      → lookup k (http_settings_body floats profile) ≡ lookup k (http_fields floats profile)
  unfolding http_settings_body
  lookup-http profile k e f =
      lookup-put_present k "headers" (lookup "headers" profile) _
      ∙ rw f (lookup-skip k "max_retries" (http_fields floats profile) profile e)

  lookup-decision :
      (profile : Fields) (k : String)
      → ("max_retries" == k) ≡ false
      → lookup k (decision_settings_body floats profile) ≡ lookup k (decision_fields floats profile)
  unfolding decision_settings_body
  lookup-decision profile k e =
      lookup-skip k "max_retries" (decision_fields floats profile) profile e

  abbrev pub LlmContract : Fields → Fields → Type 0
  LlmContract profile body =
      Texts profile body ("provider" ∷ "url" ∷ "model" ∷ "access_token" ∷ [])
      × (lookup "temperature" body ≡ some (num (get_float floats profile "temperature")))
      × Cut profile body "max_tokens"
      × Optional profile body ("request_timeout_s" ∷ "max_retries" ∷ [])
      × Only body llm_keys

  abbrev pub HttpContract : Fields → Fields → Type 0
  HttpContract profile body =
      Texts profile body
        ("base_url" ∷ "auth_type" ∷ "username" ∷ "password" ∷ "token" ∷ "header_name" ∷ [])
      × Cut profile body "timeout_seconds"
      × (lookup "insecure_skip_verify" body ≡ some (bool (get_bool profile "insecure_skip_verify")))
      × (lookup "headers" body ≡ lookup "headers" profile)
      × Optional profile body ("max_retries" ∷ [])
      × Only body http_keys

  abbrev pub DecisionContract : Fields → Fields → Type 0
  DecisionContract profile body =
      Texts profile body ("provider" ∷ "access_token" ∷ "model" ∷ "url" ∷ [])
      × Cut profile body "timeout_seconds"
      × Optional profile body ("max_retries" ∷ [])
      × Only body decision_keys

  llm-contract : (profile : Fields) → LlmContract profile (llm_settings_body floats profile)
  unfolding llm_settings_body mem lookup
  llm-contract profile = (
    (
      lookup-llm profile "provider" refl refl,
      (
        lookup-llm profile "url" refl refl,
        (lookup-llm profile "model" refl refl, (lookup-llm profile "access_token" refl refl, tt)),
      ),
    ),
    lookup-llm profile "temperature" refl refl,
    lookup-llm profile "max_tokens" refl refl,
    (
      lookup-put_optional_int "request_timeout_s" "max_retries" _ profile
          ∙ lookup-put_optional_int "request_timeout_s" "request_timeout_s"
              (llm_fields floats profile) profile
          ∙ or_else-none _,
      (
        lookup-put_optional_int "max_retries" "max_retries" _ profile
            ∙ rw
                (lookup-put_optional_int "max_retries" "request_timeout_s"
                  (llm_fields floats profile) profile)
                (or_else-none _),
        tt,
      ),
    ),
    λ j. elim (Bool-cases (mem j llm_keys)) [
      | inl e ↦ inl e
      | inr h ↦ inr (
          ground (
            arith,
            h,
            lookup-put_optional_int j "max_retries"
                (put_optional_int floats (llm_fields floats profile) profile "request_timeout_s")
                profile,
            lookup-put_optional_int j "request_timeout_s" (llm_fields floats profile) profile,
          ))
    ],
  )

  http-contract : (profile : Fields) → HttpContract profile (http_settings_body floats profile)
  unfolding http_settings_body mem lookup
  http-contract profile = (
    (
      lookup-http profile "base_url" refl refl,
      (
        lookup-http profile "auth_type" refl refl,
        (
          lookup-http profile "username" refl refl,
          (
            lookup-http profile "password" refl refl,
            (
              lookup-http profile "token" refl refl,
              (lookup-http profile "header_name" refl refl, tt),
            ),
          ),
        ),
      ),
    ),
    lookup-http profile "timeout_seconds" refl refl,
    lookup-http profile "insecure_skip_verify" refl refl,
    lookup-put_present "headers" "headers" (lookup "headers" profile) _
        ∙ rw (lookup-put_optional_int "headers" "max_retries" (http_fields floats profile) profile)
            (or_else-none _),
    (
      lookup-put_present "max_retries" "headers" (lookup "headers" profile) _
          ∙ lookup-put_optional_int "max_retries" "max_retries" (http_fields floats profile) profile
          ∙ or_else-none _,
      tt,
    ),
    λ j. elim (Bool-cases (mem j http_keys)) [
      | inl e ↦ inl e
      | inr h ↦ inr (
          ground (
            arith,
            h,
            lookup-put_present j "headers" (lookup "headers" profile)
                (put_optional_int floats (http_fields floats profile) profile "max_retries"),
            lookup-put_optional_int j "max_retries" (http_fields floats profile) profile,
          ))
    ],
  )

  decision-contract :
      (profile : Fields) → DecisionContract profile (decision_settings_body floats profile)
  unfolding decision_settings_body mem lookup
  decision-contract profile = (
    (
      lookup-decision profile "provider" refl,
      (
        lookup-decision profile "access_token" refl,
        (lookup-decision profile "model" refl, (lookup-decision profile "url" refl, tt)),
      ),
    ),
    lookup-decision profile "timeout_seconds" refl,
    (
      lookup-put_optional_int "max_retries" "max_retries" (decision_fields floats profile) profile
          ∙ or_else-none _,
      tt,
    ),
    λ j. elim (Bool-cases (mem j decision_keys)) [
      | inl e ↦ inl e
      | inr h ↦ inr (
          ground (
            arith,
            h,
            lookup-put_optional_int j "max_retries" (decision_fields floats profile) profile,
          ))
    ],
  )

  -- A projection carries every field of its contract and no other: each text under its own name, the
  -- temperature as the profile's number, the limit of tokens and the timeout as that number cut off, the
  -- flag, and the headers when there are some. An optional number is there exactly when the profile
  -- carries a whole number: one that is absent stays absent, and a zero stays a zero.
  pub settings-contract :
      (profile : Fields)
      → LlmContract profile (llm_settings_body floats profile)
        × HttpContract profile (http_settings_body floats profile)
        × DecisionContract profile (decision_settings_body floats profile)
  settings-contract profile =
      (llm-contract profile, http-contract profile, decision-contract profile)
