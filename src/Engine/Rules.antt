-- ===== src/Engine/Rules.antt =====
-- The rule sets of the rule engine: rule-engine/src/engine/compiler.rs and registry.rs, the loading
-- of the taxonomy (mitre/taxonomy.rs), and the start and the reload of main.rs. YARA-X's compiler,
-- the parser of the taxonomy and what the file system answers are parameters or arguments.
use Prim.Native.String
use aigis_zero.Engine.Metrics.{EngineMetrics, inc_rule_reloads, inc_rule_reload_failures}
use aigis_zero.Engine.Mitre.{MitreTaxonomy, MitreTechnique}
use aigis_zero.Engine.Scanner.{EngineRegistry}
use aigis_zero.Prelude.{
  ℕ, String, Bool, false, not, ◌&&◌, ◌||◌, List, [], ◌∷◌, Option, none, some, Result, ok, err,
  map_err, if◌then◌else◌, str_eq, ◌>>=◌,
}

-- `AppError`
pub data EngineError : Type 0 where
  rule_compilation : String → ℕ → String → EngineError
  scan_failure : String → String → EngineError
  mitre_taxonomy_load event_deserialization database_pool database_query : String → EngineError
  kafka_produce kafka_consume config serialization io : String → EngineError

-- `yara_x::Compiler`, over its states and its compiled rules.
pub record Yara (Compiler Rules : Type 0) : Type 0 where
  pub new : Compiler
  pub add_source : String → Compiler → Result String Compiler
  pub build : Compiler → Rules

-- An entry of a directory of rules, with its content.
pub record RuleFile : Type 0 where
  pub path : String
  pub is_file : Bool
  pub extension : Option String
  pub content : Result String String

-- What reading a directory gives: an error at once, or entries that may be errors.
abbrev pub ReadDir : Type 0 → Type 0
ReadDir E = Result String (List (Result String E))

-- An entry of the directory of all rules, with what reading it as a directory gives.
pub record RuleDir : Type 0 where
  pub file_name : String
  pub is_dir : Bool
  pub files : ReadDir RuleFile

-- The directory of all rules, if it is there.
abbrev pub RulesDirectory : Type 0
RulesDirectory = Option (ReadDir RuleDir)

abbrev pub is_rule_extension : Option String → Bool
is_rule_extension none = false
is_rule_extension (some ext) = str_eq ext "yar" || str_eq ext "yara"

module _ {Compiler Rules : Type 0} (yara : Yara Compiler Rules) where
  abbrev pub add_content : String → Result String String → Compiler → Result EngineError Compiler
  add_content path (err e) c = err (io e)
  add_content path (ok source) c =
      map_err (λ (e : String). rule_compilation path 0 e) (yara.add_source source c)

  -- The loop over the entries of one directory.
  unfoldable pub add_files : List (Result String RuleFile) → Compiler → Result EngineError Compiler
  add_files [] c = ok c
  add_files (err e ∷ files) c = err (io e)
  add_files (ok f ∷ files) c =
      if f.is_file && is_rule_extension f.extension
      then add_content f.path f.content c >>= add_files files
      else add_files files c

  abbrev pub built : Result EngineError Compiler → Result EngineError Rules
  built (err e) = err e
  built (ok c) = ok (yara.build c)

  -- `TypedRuleCompiler::compile_directory`
  abbrev pub compile_directory : ReadDir RuleFile → Result EngineError Rules
  compile_directory (err e) = err (io e)
  compile_directory (ok files) = built (add_files files yara.new)

  -- `TypedRuleCompiler::compile_source`
  abbrev pub compile_source : String → String → Result EngineError Rules
  compile_source name source =
      built (map_err (λ (e : String). rule_compilation name 0 e) (yara.add_source source yara.new))

-- `HashMap::insert`
unfoldable pub insert_rules {ℓ} : {V : Type ℓ} → String → V → List (String × V) → List (String × V)
insert_rules k v [] = (k, v) ∷ []
insert_rules k v ((j, w) ∷ m) =
    let rest = insert_rules k v m in if str_eq j k then (j, v) ∷ m else (j, w) ∷ rest

module _ {Compiler Rules : Type 0} (yara : Yara Compiler Rules) where
  -- The loop over the directories, with the map so far.
  unfoldable pub compile_entries :
      List (Result String RuleDir)
      → List (String × Rules)
      → Result EngineError (List (String × Rules))
  compile_entries [] sets = ok sets
  compile_entries (err e ∷ entries) sets = err (io e)
  compile_entries (ok d ∷ entries) sets =
      if d.is_dir && not (str_eq d.file_name "mitre")
      then compile_directory yara d.files
        >>= (λ rules. compile_entries entries (insert_rules d.file_name rules sets))
      else compile_entries entries sets

  -- `TypedRuleCompiler::compile_all`
  unfoldable pub compile_all : RulesDirectory → Result EngineError (List (String × Rules))
  compile_all none = ok []
  compile_all (some (err e)) = err (io e)
  compile_all (some (ok entries)) = compile_entries entries []

-- The taxonomy's file: missing, or what reading it gives.
abbrev pub TaxonomyFile : Type 0
TaxonomyFile = Option (Result String String)

module _ (from_str : String → Result String (List (String × MitreTechnique))) where
  abbrev pub load_from_json : String → Result String MitreTaxonomy
  load_from_json json = elim (from_str json) [
    | ok techniques ↦ ok (record { techniques = techniques })
    | err e ↦ err e
  ]

  -- `MitreTaxonomy::load_from_file`, for the text of the path.
  abbrev pub load_from_file : String → Result String String → Result EngineError MitreTaxonomy
  load_from_file path (err e) =
      err (
        mitre_taxonomy_load (String.◌++◌ "Failed to read " (String.◌++◌ path (String.◌++◌ ": " e))))
  load_from_file path (ok json) =
      map_err (λ (e : String). mitre_taxonomy_load (String.◌++◌ "Failed to parse JSON: " e))
        (load_from_json json)

  -- The taxonomy at the start: none where there is no file.
  abbrev pub initial_mitre : String → TaxonomyFile → Result EngineError MitreTaxonomy
  initial_mitre path none = ok (record { techniques = [] })
  initial_mitre path (some content) = load_from_file path content

  abbrev pub or_default : Result EngineError MitreTaxonomy → MitreTaxonomy
  or_default (ok mitre) = mitre
  or_default (err e) = record { techniques = [] }

  -- The taxonomy at a reload, which no error stops.
  abbrev pub reloaded_mitre : String → TaxonomyFile → MitreTaxonomy
  reloaded_mitre path file = or_default (initial_mitre path file)

  module _ {Compiler Rules : Type 0} (yara : Yara Compiler Rules) where
    -- The registry of the start.
    unfoldable pub start :
        String → TaxonomyFile → RulesDirectory → Result EngineError (EngineRegistry Rules)
    start path file dir = do
      mitre ← initial_mitre path file
      rule_sets ← compile_all yara dir
      ok (record { rule_sets = rule_sets; mitre = mitre })

    abbrev pub swapped :
        MitreTaxonomy
        → Result EngineError (List (String × Rules))
        → EngineRegistry Rules
        → EngineMetrics
        → EngineRegistry Rules × EngineMetrics
    swapped mitre (ok rule_sets) current metrics =
        (record { rule_sets = rule_sets; mitre = mitre }, inc_rule_reloads metrics)
    swapped mitre (err e) current metrics = (current, inc_rule_reload_failures metrics)

    -- A SIGHUP: the registry and the counters after it.
    unfoldable pub reload :
        String
        → TaxonomyFile
        → RulesDirectory
        → EngineRegistry Rules
        → EngineMetrics
        → EngineRegistry Rules × EngineMetrics
    reload path file dir current metrics =
        swapped (reloaded_mitre path file) (compile_all yara dir) current metrics
