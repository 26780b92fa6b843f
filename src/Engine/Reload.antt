-- ===== src/Engine/Reload.antt =====
-- Which rules scan an event after a reload.
use aigis_zero.Engine.Category.{category}
use aigis_zero.Engine.Metrics.{EngineMetrics}
use aigis_zero.Engine.Mitre.{MitreTaxonomy, MitreTechnique}
use aigis_zero.Engine.Models.{TelemetryEvent, Alert}
use aigis_zero.Engine.Rules.{
  EngineError, Yara, RuleDir, RulesDirectory, compile_directory, insert_rules, compile_entries,
  compile_all, TaxonomyFile, swapped, reloaded_mitre, reload,
}
use aigis_zero.Engine.Scanner.{
  EngineRegistry, ScanFailure, Fresh, scan_with, evaluate, extract_scannable_buffer,
}
use aigis_zero.Engine.Transform.{Rule, Casts}
use aigis_zero.Json.{Bytes, Codec}
use aigis_zero.Prelude.{
  String, Bool, true, false, not, ◌&&◌, List, [], ◌∷◌, Option, none, some, or_else, Result, ok, err,
  ◌≡◌, refl, ap, sym, ◌∙◌, arith, if◌then◌else◌, str_eq, eq_iff, lookup, is_ok, ◌||◌, Bool-cases,
  Result-cases, inl, inr, ◌>>=◌,
}

lookup-insert_rules {ℓ} :
    {V : Type ℓ} (c k : String) (v : V) (m : List (String × V))
    → lookup c (insert_rules k v m) ≡ (if str_eq k c then some v else lookup c m)
unfolding lookup insert_rules
lookup-insert_rules c k v [] = refl
lookup-insert_rules c k v ((j, w) ∷ m) =
    ground (arith, eq_iff j k, eq_iff j c, eq_iff k c, lookup-insert_rules c k v m)

abbrev pub ok_of {ℓ κ} : {E : Type κ} {A : Type ℓ} → Result E A → Option A
ok_of (ok a) = some a
ok_of (err e) = none

ok_injective {ℓ} : {A : Type ℓ} (a b : A) → ◌≡◌ {A = Result EngineError A} (ok a) (ok b) → a ≡ b
ok_injective a b h = ground arith

module _ {Compiler Rules : Type 0} (yara : Yara Compiler Rules) where
  -- The rules of a directory, if it is the one of the category.
  abbrev pub entry_rules : String → Result String RuleDir → Option Rules
  entry_rules c (err e) = none
  entry_rules c (ok d) =
      if (d.is_dir && not (str_eq d.file_name "mitre")) && str_eq d.file_name c
      then ok_of (compile_directory yara d.files)
      else none

  -- The rules of the last directory of the category.
  abbrev pub rules_for : String → List (Result String RuleDir) → Option Rules
  rules_for c [] = none
  rules_for c (e ∷ entries) = or_else (rules_for c entries) (entry_rules c e)

  module _ (d : RuleDir) (entries : List (Result String RuleDir))
      (sets : List (String × Rules)) where
    abbrev holds_rules : Bool
    holds_rules = d.is_dir && not (str_eq d.file_name "mitre")

    abbrev compiled : Result EngineError Rules → Result EngineError (List (String × Rules))
    compiled r = r >>= (λ rules. compile_entries yara entries (insert_rules d.file_name rules sets))

    entries_skip :
        holds_rules ≡ false
        → compile_entries yara (ok d ∷ entries) sets ≡ compile_entries yara entries sets
    unfolding compile_entries
    entries_skip e =
        ap
          (λ b.
            if b
            then compiled (compile_directory yara d.files)
            else compile_entries yara entries sets)
          e

    entries_compiled :
        holds_rules ≡ true
        → compile_entries yara (ok d ∷ entries) sets ≡ compiled (compile_directory yara d.files)
    unfolding compile_entries
    entries_compiled e =
        ap
          (λ b.
            if b
            then compiled (compile_directory yara d.files)
            else compile_entries yara entries sets)
          e

  abbrev found : Bool → Option Rules → Option Rules
  found b rules = if b then rules else none

  or_else-found :
      (a : Option Rules) (b : Bool) (rules : Rules) (rest : Option Rules)
      → or_else a (if b then some rules else rest) ≡ or_else (or_else a (found b (some rules))) rest
  or_else-found none true rules rest = refl
  or_else-found none false rules rest = refl
  or_else-found (some a) b rules rest = refl

  or_else-none : (a rest : Option Rules) → or_else a rest ≡ or_else (or_else a none) rest
  or_else-none none rest = refl
  or_else-none (some a) rest = refl

  -- The map of a directory that compiles.
  compile_entries-rules_for :
      (c : String) (entries : List (Result String RuleDir)) (sets out : List (String × Rules))
      → compile_entries yara entries sets ≡ ok out
      → lookup c out ≡ or_else (rules_for c entries) (lookup c sets)
  unfolding compile_entries
  compile_entries-rules_for c [] sets out h = ap (lookup c) (ok_injective out sets (sym h))
  compile_entries-rules_for c (err e ∷ entries) sets out h = cc
  compile_entries-rules_for c (ok d ∷ entries) sets out h =
      elim (Bool-cases (holds_rules d entries sets)) [
        | inr e ↦
            let later =
              compile_entries-rules_for c entries sets out
                (sym (entries_skip d entries sets e) ∙ h) in
            let none_here : entry_rules c (ok d) ≡ none =
              ap (λ b. found (b && str_eq d.file_name c) (ok_of (compile_directory yara d.files)))
                e in
            later
            ∙ or_else-none (rules_for c entries) (lookup c sets)
            ∙ ap (λ o. or_else (or_else (rules_for c entries) o) (lookup c sets)) (sym none_here)
        | inl e ↦ elim (Result-cases (compile_directory yara d.files)) [
          | inr (m, f) ↦
              let failed = ap (compiled d entries sets) f in
              let h' = sym failed ∙ sym (entries_compiled d entries sets e) ∙ h in cc
          | inl (rules, f) ↦
              let h' =
                sym (ap (compiled d entries sets) f)
                ∙ sym (entries_compiled d entries sets e)
                ∙ h in
              let later =
                compile_entries-rules_for c entries (insert_rules d.file_name rules sets) out h' in
              let here : entry_rules c (ok d) ≡ found (str_eq d.file_name c) (some rules) =
                ap (λ b. found (b && str_eq d.file_name c) (ok_of (compile_directory yara d.files)))
                  e
                ∙ ap (λ r. found (str_eq d.file_name c) (ok_of r)) f in
              later
              ∙ ap (or_else (rules_for c entries)) (lookup-insert_rules c d.file_name rules sets)
              ∙ or_else-found (rules_for c entries) (str_eq d.file_name c) rules (lookup c sets)
              ∙ ap (λ o. or_else (or_else (rules_for c entries) o) (lookup c sets)) (sym here)
        ]
      ]

-- The entries of the directory of rules, where it can be read.
abbrev pub entries_of : RulesDirectory → List (Result String RuleDir)
entries_of none = []
entries_of (some (err e)) = []
entries_of (some (ok entries)) = entries

module _ {Compiler Rules : Type 0} (yara : Yara Compiler Rules) where
  or_else_nothing : (o : Option Rules) → or_else o none ≡ o
  or_else_nothing none = refl
  or_else_nothing (some a) = refl

  compile_all-rules_for :
      (c : String) (dir : RulesDirectory) (out : List (String × Rules))
      → compile_all yara dir ≡ ok out
      → lookup c out ≡ rules_for yara c (entries_of dir)
  unfolding compile_all lookup
  compile_all-rules_for c none out h = ap (lookup c) (ok_injective out [] (sym h))
  compile_all-rules_for c (some (err e)) out h = cc
  compile_all-rules_for c (some (ok entries)) out h =
      compile_entries-rules_for yara c entries [] out h ∙ or_else_nothing (rules_for yara c entries)

module _ {Compiler Rules : Type 0} (yara : Yara Compiler Rules) where
  -- Whether an entry of the directory of rules is no obstacle: one that cannot be read is, and so is
  -- a directory of rules that does not compile; all else is passed over.
  abbrev pub entry_compiles : Result String RuleDir → Bool
  entry_compiles (err e) = false
  entry_compiles (ok d) =
      (not d.is_dir || str_eq d.file_name "mitre") || is_ok (compile_directory yara d.files)

  -- Whether a reload takes the directory of rules: it is missing, or it can be read, and so can each
  -- of its entries.
  abbrev pub all_compile : List (Result String RuleDir) → Bool
  all_compile [] = true
  all_compile (e ∷ entries) = entry_compiles e && all_compile entries

  abbrev pub directory_compiles : RulesDirectory → Bool
  directory_compiles none = true
  directory_compiles (some (err e)) = false
  directory_compiles (some (ok entries)) = all_compile entries

  compile_entries-all_compile :
      (entries : List (Result String RuleDir)) (sets : List (String × Rules))
      → is_ok (compile_entries yara entries sets) ≡ all_compile entries
  unfolding compile_entries
  compile_entries-all_compile [] sets = refl
  compile_entries-all_compile (err e ∷ entries) sets = refl
  compile_entries-all_compile (ok d ∷ entries) sets =
      elim (Bool-cases (d.is_dir && not (str_eq d.file_name "mitre"))) [
        | inr e ↦
            let passed : (not d.is_dir || str_eq d.file_name "mitre") ≡ true = ground arith in
            rw (e, passed) (compile_entries-all_compile entries sets)
        | inl e ↦
            let taken : (not d.is_dir || str_eq d.file_name "mitre") ≡ false = ground arith in
            elim (Result-cases (compile_directory yara d.files)) [
              | inr (m, f) ↦ rw (e, taken, f) refl
              | inl (rules, f) ↦
                  rw (e, taken, f)
                    (compile_entries-all_compile entries (insert_rules d.file_name rules sets))
            ]
      ]

  compile_all-directory_compiles :
      (dir : RulesDirectory) → is_ok (compile_all yara dir) ≡ directory_compiles dir
  unfolding compile_all
  compile_all-directory_compiles none = refl
  compile_all-directory_compiles (some (err e)) = refl
  compile_all-directory_compiles (some (ok entries)) = compile_entries-all_compile entries []

module _ {Rules : Type 0} (scan : Rules → Bytes → Result String (List Rule)) (codec : Codec)
    (casts : Casts) (fresh : Fresh) where
  -- What an event gives with the rules of its category, if there are some.
  abbrev pub scanned :
      EngineRegistry Rules → TelemetryEvent → Option Rules → Result ScanFailure (List Alert)
  scanned current event none = ok []
  scanned current event (some rules) =
      scan_with scan codec casts fresh current event rules (extract_scannable_buffer codec event)

  evaluate-scanned :
      (current : EngineRegistry Rules) (event : TelemetryEvent) (found : Option Rules)
      → lookup (category event) current.rule_sets ≡ found
      → evaluate scan codec casts fresh current event ≡ scanned current event found
  unfolding evaluate
  evaluate-scanned current event none h = rw (h, evaluate) refl
  evaluate-scanned current event (some rules) h = rw (h, evaluate) refl

  module _ {Compiler : Type 0} (yara : Yara Compiler Rules)
      (from_str : String → Result String (List (String × MitreTechnique))) where
    -- What a reload makes of the evaluation of an event.
    abbrev pub served :
        EngineRegistry Rules
        → EngineRegistry Rules
        → RulesDirectory
        → TelemetryEvent
        → Bool
        → Result ScanFailure (List Alert)
    served current after dir event false = evaluate scan codec casts fresh current event
    served current after dir event true =
        scanned after event (rules_for yara (category event) (entries_of dir))

    served_by :
        (mitre : MitreTaxonomy) (dir : RulesDirectory) (current : EngineRegistry Rules)
        (metrics : EngineMetrics) (event : TelemetryEvent)
        (compiled : Result EngineError (List (String × Rules)))
        → compile_all yara dir ≡ compiled
        → evaluate scan codec casts fresh
            (swapped from_str yara mitre compiled current metrics).0
            event
          ≡ served current
              (swapped from_str yara mitre compiled current metrics).0
              dir
              event
              (is_ok compiled)
    served_by mitre dir current metrics event (err e) h = refl
    served_by mitre dir current metrics event (ok sets) h =
        evaluate-scanned (record { rule_sets = sets; mitre = mitre }) event
          (rules_for yara (category event) (entries_of dir))
          (compile_all-rules_for yara (category event) dir sets h)

    -- After a reload an event is scanned, if the directory of rules is missing or can be read with
    -- all its entries, and each of its directories but "mitre" compiles, with the rules of the last
    -- of these that is named like the event's category, and with none if there is no such directory;
    -- and if one entry fails, as before the reload.
    pub evaluate-reload :
        (path : String) (file : TaxonomyFile) (dir : RulesDirectory)
        (current : EngineRegistry Rules) (metrics : EngineMetrics) (event : TelemetryEvent)
        → let after = (reload from_str yara path file dir current metrics).0 in
          evaluate scan codec casts fresh after event
          ≡ served current after dir event (directory_compiles yara dir)
    unfolding reload
    evaluate-reload path file dir current metrics event =
        let after = (reload from_str yara path file dir current metrics).0 in
        served_by (reloaded_mitre from_str path file) dir current metrics event
          (compile_all yara dir) refl
        ∙ ap (served current after dir event) (compile_all-directory_compiles yara dir)
