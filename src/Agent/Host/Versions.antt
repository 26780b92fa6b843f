-- ===== src/Agent/Host/Versions.antt =====
-- Which line of os-release gives the version.
use Prim.Native.String
use aigis_zero.Agent.Host.{
  Release, split_at_equals, unquote, set, assign, read_line, read_lines, os_name_of, nothing_read,
  get_os_version, opened,
}
use aigis_zero.Prelude.{
  String, ◌||◌, List, [], ◌∷◌, map, Option, none, some, ok, or_else, unwrap_or, is_some, ◌≡◌, refl,
  ap, ◌∙◌, if◌then◌else◌, str_eq, eq_iff, strip_prefix, trim, Bool-cases, inl, inr,
}

-- The value that a line gives to a key, if it does.
abbrev pub value_for : String → Option (String × String) → Option String
value_for key none = none
value_for key (some (k, v)) = if str_eq (trim k) key then some (unquote (trim v)) else none

abbrev pub line_value : String → String → Option String
line_value key line =
    if is_some (strip_prefix "#" (trim line)) || str_eq (trim line) ""
    then none
    else value_for key (split_at_equals (trim line))

-- The value that the last line for a key gives to it.
abbrev pub last_value : String → List String → Option String
last_value key [] = none
last_value key (l ∷ ls) = or_else (last_value key ls) (line_value key l)

-- The three values of a release.
abbrev pub with_values : Option String → Option String → Option String → Release → Release
with_values name version pretty r = record {
  name = or_else name r.name;
  version = or_else version r.version;
  pretty_name = or_else pretty r.pretty_name;
}

-- A value where the keys agree.
abbrev here : String → String → String → Option String
here key wanted val = if str_eq key wanted then some val else none

set_values :
    (key val : String) (r : Release)
    → set key val r
      ≡ with_values (here key "NAME" val) (here key "VERSION" val) (here key "PRETTY_NAME" val) r
set_values key val r = elim (Bool-cases (str_eq key "PRETTY_NAME")) [
  | inl e ↦ rw ((eq_iff key "PRETTY_NAME").0 e) refl
  | inr e ↦ elim (Bool-cases (str_eq key "NAME")) [
    | inl f ↦ rw ((eq_iff key "NAME").0 f) refl
    | inr f ↦ elim (Bool-cases (str_eq key "VERSION")) [
      | inl g ↦ rw ((eq_iff key "VERSION").0 g) refl
      | inr g ↦ rw (e, f, g) refl
    ]
  ]
]

assign_values :
    (o : Option (String × String)) (r : Release)
    → assign o r
      ≡ with_values (value_for "NAME" o) (value_for "VERSION" o) (value_for "PRETTY_NAME" o) r
assign_values none r = refl
assign_values (some (k, v)) r = set_values (trim k) (unquote (trim v)) r

read_line_values :
    (l : String) (r : Release)
    → read_line l r
      ≡ with_values (line_value "NAME" l) (line_value "VERSION" l) (line_value "PRETTY_NAME" l) r
unfolding read_line
read_line_values l r =
    elim (Bool-cases (is_some (strip_prefix "#" (trim l)) || str_eq (trim l) "")) [
      | inl e ↦ rw e refl
      | inr e ↦ rw e (assign_values (split_at_equals (trim l)) r)
    ]

or_else_assoc {ℓ} :
    {A : Type ℓ} (a b c : Option A) → or_else a (or_else b c) ≡ or_else (or_else a b) c
or_else_assoc none b c = refl
or_else_assoc (some a) b c = refl

read_lines_values :
    (ls : List String) (r : Release)
    → read_lines (map (λ (l : String). ok l) ls) r
      ≡ with_values (last_value "NAME" ls) (last_value "VERSION" ls) (last_value "PRETTY_NAME" ls) r
unfolding read_lines
read_lines_values [] r = refl
read_lines_values (l ∷ ls) r =
    ap (read_lines (map (λ (x : String). ok x) ls)) (read_line_values l r)
    ∙ read_lines_values ls
        (with_values (line_value "NAME" l) (line_value "VERSION" l) (line_value "PRETTY_NAME" l) r)
    ∙ rw
        (
          or_else_assoc (last_value "NAME" ls) (line_value "NAME" l) r.name,
          or_else_assoc (last_value "VERSION" ls) (line_value "VERSION" l) r.version,
          or_else_assoc (last_value "PRETTY_NAME" ls) (line_value "PRETTY_NAME" l) r.pretty_name,
        )
        refl

-- The description from the values of three keys.
abbrev pub described : Option String → Option String → Option String → String
described (some pretty) name version = pretty
described none name none = unwrap_or name "Linux"
described none name (some v) = String.◌++◌ (unwrap_or name "Linux") (String.◌++◌ " " v)

described_values :
    (pretty name version : Option String)
    → os_name_of (with_values name version pretty nothing_read) ≡ described pretty name version
described_values (some pretty) name version = refl
described_values none none none = refl
described_values none (some name) none = refl
described_values none none (some v) = refl
described_values none (some name) (some v) = refl

-- Of a file whose lines can all be read, the version is the last PRETTY_NAME, and without one the
-- last NAME, or "Linux", followed by the last VERSION, if there is one.
pub get_os_version-described :
    (ls : List String)
    → get_os_version (opened (map (λ (l : String). ok l) ls))
      ≡ described (last_value "PRETTY_NAME" ls) (last_value "NAME" ls) (last_value "VERSION" ls)
unfolding get_os_version
get_os_version-described ls =
    ap os_name_of (read_lines_values ls nothing_read)
    ∙ described_values (last_value "PRETTY_NAME" ls) (last_value "NAME" ls)
        (last_value "VERSION" ls)
