-- ===== src/Preferences/Laws.antt =====
-- What the normal form of a flow's preferences keeps.
use morph_api.Prelude.{
  String, true, Option, none, some, ◌==◌, if◌then◌else◌, ◌≡◌, refl, ◌↔◌, arith, eq_iff, inl, inr,
  Bool-cases,
}
use morph_api.Prelude.Text.{trim_space}
use morph_api.Prelude.Text.Laws.{trim_space_idem}
use morph_api.Preferences.{
  EntryForm, FlowPreferences, has_form, entry_or_nil, target_path, prefill_or_default,
  normalize_entry, normalize, is_unset, is_schema, entry_target_default, prefill_live,
  prefill_default, is_filled,
}

default-trimmed : trim_space "" ≡ ""
unfolding trim_space
default-trimmed = refl

normalize_entry_idem : (e : EntryForm) → normalize_entry (normalize_entry e) ≡ normalize_entry e
unfolding normalize_entry
normalize_entry_idem e = ground (
  arith,
  trim_space_idem e.title,
  trim_space_idem e.description,
  trim_space_idem e.target,
  default-trimmed,
  eq_iff e.prefill prefill_live,
  eq_iff (trim_space e.target) entry_target_default,
)

keeps-schema : (e : EntryForm) → (normalize_entry e).schema ≡ e.schema
unfolding normalize_entry
keeps-schema e = refl

normalize-some_idem :
    (o : Option EntryForm)
    → normalize (normalize (some (record { entry = o }))) ≡ normalize (some (record { entry = o }))
unfolding normalize has_form
normalize-some_idem none = refl
normalize-some_idem (some e) = ground (arith, normalize_entry_idem e, keeps-schema e)

-- Normalising preferences twice is normalising them once.
pub normalize_idem : (p : Option FlowPreferences) → normalize (normalize p) ≡ normalize p
unfolding normalize
normalize_idem none = refl
normalize_idem (some p) = normalize-some_idem p.entry

abbrev defaulted : String → String
defaulted t = if t == "" then entry_target_default else t

target_kept :
    (t : String)
    → trim_space t ≡ t
    → defaulted (trim_space (if t == entry_target_default then "" else t)) ≡ defaulted t
target_kept t h = elim (Bool-cases (t == entry_target_default)) [
  | inl e ↦
      let same : t ≡ entry_target_default = ground (arith, eq_iff t entry_target_default) in
      rw (e, default-trimmed, same) refl
  | inr e ↦ rw (e, h) refl
]

normalize_entry-target :
    (e : EntryForm) → target_path (some (normalize_entry e)) ≡ target_path (some e)
unfolding target_path normalize_entry
normalize_entry-target e = target_kept (trim_space e.target) (trim_space_idem e.target)

prefill_kept :
    (m : String)
    → (if (if m == prefill_live then m else "") == prefill_live
        then prefill_live
        else prefill_default)
      ≡ (if m == prefill_live then prefill_live else prefill_default)
prefill_kept m = elim (Bool-cases (m == prefill_live)) [
  | inl e ↦ rw (e, e) refl
  | inr e ↦ rw e refl
]

normalize_entry-prefill :
    (e : EntryForm) → prefill_or_default (some (normalize_entry e)) ≡ prefill_or_default (some e)
unfolding prefill_or_default normalize_entry
normalize_entry-prefill e = prefill_kept e.prefill

-- Both launch alike.
abbrev pub LaunchAlike : Option EntryForm → Option EntryForm → Type 0
LaunchAlike n e =
    (has_form n ≡ has_form e)
    × (target_path n ≡ target_path e)
    × (prefill_or_default n ≡ prefill_or_default e)
    × (is_schema n ≡ is_schema e)

normalize_entry-alike : (e : EntryForm) → LaunchAlike (some (normalize_entry e)) (some e)
unfolding has_form is_schema normalize_entry
normalize_entry-alike e = (refl, normalize_entry-target e, normalize_entry-prefill e, refl)

launch_some :
    (o : Option EntryForm)
    → let p : Option FlowPreferences = some (record { entry = o }) in
      LaunchAlike (entry_or_nil (normalize p)) (entry_or_nil p)
      × ((is_unset (normalize p) ≡ true) ↔ (entry_or_nil p ≡ none))
unfolding entry_or_nil normalize is_unset has_form
launch_some none = ((refl, refl, refl, refl), (λ h. refl, λ h. refl))
launch_some (some e) = elim (Bool-cases (is_filled e.schema)) [
  | inl f ↦
      let g : is_filled (normalize_entry e).schema ≡ true = rw (keeps-schema e) f in
      rw (f, g) (normalize_entry-alike e, ground arith)
  | inr f ↦ rw f ((refl, refl, refl, refl), (λ h. refl, λ h. refl))
]

-- The normal form launches as the preferences do: it has an entry form exactly when they have one,
-- with the same target and prefill mode, and written as a JSON Schema when theirs is; it is stored as
-- unset exactly when they have no entry form.
pub normalize-launch :
    (p : Option FlowPreferences)
    → LaunchAlike (entry_or_nil (normalize p)) (entry_or_nil p)
      × ((is_unset (normalize p) ≡ true) ↔ (entry_or_nil p ≡ none))
unfolding normalize is_unset entry_or_nil
normalize-launch none = ((refl, refl, refl, refl), (λ h. refl, λ h. refl))
normalize-launch (some p) = launch_some p.entry
