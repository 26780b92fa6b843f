-- ===== src/Agent/Config/Editing.antt =====
-- What the saving of the node's id does to the lines of the configuration.
use Prim.Native.Char.{Char, code}
use Prim.Native.String
use native.Mathlib.Decide.{ℕ_discrete}
use text.Mathlib.TextLemmas.{cons-append, append_assoc}
use aigis_zero.Agent.Config.{Scan, after, node_id_line, scan, finish, edit, starts_with}
use aigis_zero.Prelude.{
  ℕ, String, Bool, true, false, not, ◌&&◌, ◌||◌, List, [], ◌∷◌, ◌++◌, ◌≡◌, refl, ap, sym, ◌∙◌,
  subst, arith, str_eq, strip_prefix, strip_prefix-append, trim, trim_start_by, trim_end_by, eq_iff,
  &&-eq-true, All, length, ◌≤◌, before_trimmed, is_whitespace, is_some, Bool-cases, inl, inr, ◌⊎◌,
}

abbrev is_header : String → Bool
is_header l = str_eq (trim l) "[agent]"

-- The lines after the whole edit, from a value of `in_agent`.
abbrev edited : String → Bool → List String → List String
edited id b ls = finish id (scan id b ls)

finish-after : (id l : String) (s : Scan) → finish id (after l s) ≡ l ∷ finish id s
finish-after id l s = elim (Bool-cases (s.in_agent && not s.inserted)) [
  | inl e ↦ rw e refl
  | inr e ↦ rw e refl
]

module _ (id l : String) (ls : List String) (b : Bool) where
  edited-header : is_header l ≡ true → edited id b (l ∷ ls) ≡ l ∷ edited id true ls
  unfolding scan
  edited-header h = rw h (finish-after id l (scan id true ls))

  edited-old :
      is_header l ≡ false
      → (b && starts_with "node_id" l) ≡ true
      → edited id b (l ∷ ls) ≡ node_id_line id ∷ ls
  unfolding scan
  edited-old h k = rw (h, k) refl

  edited-next :
      is_header l ≡ false
      → (b && starts_with "node_id" l) ≡ false
      → (b && starts_with "[" l) ≡ true
      → edited id b (l ∷ ls) ≡ node_id_line id ∷ l ∷ ls
  unfolding scan
  edited-next h k m = rw (h, k, m) refl

  edited-on :
      is_header l ≡ false
      → (b && starts_with "node_id" l) ≡ false
      → (b && starts_with "[" l) ≡ false
      → edited id b (l ∷ ls) ≡ l ∷ edited id b ls
  unfolding scan
  edited-on h k m = rw (h, k, m) (finish-after id l (scan id b ls))

before_trimmed-keeps :
    (c : Char) (rest : String) → before_trimmed false rest (String.◌∷◌ c rest) ≡ String.◌∷◌ c rest
before_trimmed-keeps c String.[] = refl
before_trimmed-keeps c (String.◌∷◌ d rest) = refl

-- A first character that is not trimmed stays.
trim_end_by-keeps :
    (test : ℕ → Bool) (c : Char) (s : String)
    → test (code c) ≡ false
    → trim_end_by test (String.◌∷◌ c s) ≡ String.◌∷◌ c (trim_end_by test s)
unfolding trim_end_by
trim_end_by-keeps test c s h = rw h (before_trimmed-keeps c (trim_end_by test s))

trim_n : (s : String) → trim (String.◌∷◌ "n" s) ≡ String.◌∷◌ "n" (trim_end_by is_whitespace s)
unfolding trim trim_start_by
trim_n s = trim_end_by-keeps is_whitespace "n" s refl

node_id_line_cons :
    (id : String)
    → node_id_line id ≡ String.◌∷◌ "n" (String.◌++◌ "ode_id = \"" (String.◌++◌ id "\""))
node_id_line_cons id = cons-append "n" "ode_id = \"" (String.◌++◌ id "\"")

-- Texts with different first characters differ.
no_header : (s : String) → str_eq (String.◌∷◌ "n" s) "[agent]" ≡ false
unfolding strip_prefix ℕ_discrete
no_header s = elim (Bool-cases (str_eq (String.◌∷◌ "n" s) "[agent]")) [
  | inr e ↦ e
  | inl e ↦
      let same = (eq_iff (String.◌∷◌ "n" s) "[agent]").0 e in
      let found : true ≡ false = ap (starts_with "n") same in cc
]

node_id_line-is_header : (id : String) → is_header (node_id_line id) ≡ false
node_id_line-is_header id =
    ap is_header (node_id_line_cons id)
    ∙ ap (λ t. str_eq t "[agent]") (trim_n (String.◌++◌ "ode_id = \"" (String.◌++◌ id "\"")))
    ∙ no_header (trim_end_by is_whitespace (String.◌++◌ "ode_id = \"" (String.◌++◌ id "\"")))

node_id_line-starts_with : (id : String) → starts_with "node_id" (node_id_line id) ≡ true
node_id_line-starts_with id =
    ap (λ s. starts_with "node_id" s) (append_assoc "node_id" " = \"" (String.◌++◌ id "\""))
    ∙ ap is_some (strip_prefix-append "node_id" (String.◌++◌ " = \"" (String.◌++◌ id "\"")))

-- Whether the section of the agent has begun.
unfoldable pub has_agent : List String → Bool
has_agent [] = false
has_agent (l ∷ ls) = is_header l || has_agent ls

-- Whether the lines end in the section of the agent: its header begins it, and any other line that
-- starts with a bracket ends it.
unfoldable pub ends_in_agent : Bool → List String → Bool
ends_in_agent b [] = b
ends_in_agent b (l ∷ ls) = ends_in_agent (is_header l || (b && not (starts_with "[" l))) ls

module _ (id : String) where
  edited_again :
      (b : Bool) (xs : List String)
      → b ≡ true
      → edited id b (node_id_line id ∷ xs) ≡ node_id_line id ∷ xs
  edited_again b xs h =
      edited-old id (node_id_line id) xs b (node_id_line-is_header id)
        (rw (h, node_id_line-starts_with id) refl)

  -- Editing twice is editing once.
  edited_idem : (b : Bool) (ls : List String) → edited id b (edited id b ls) ≡ edited id b ls
  unfolding scan
  edited_idem false [] = refl
  edited_idem true [] = edited_again true [] refl
  edited_idem b (l ∷ ls) = elim (Bool-cases (is_header l)) [
    | inl h ↦
        let e = edited-header id l ls b h in
        ap (edited id b) e
        ∙ edited-header id l (edited id true ls) b h
        ∙ ap (◌∷◌ l) (edited_idem true ls)
        ∙ sym e
    | inr h ↦ elim (Bool-cases (b && starts_with "node_id" l)) [
      | inl k ↦
          let e = edited-old id l ls b h k in
          ap (edited id b) e
          ∙ edited_again b ls (&&-eq-true b (starts_with "node_id" l) k).0
          ∙ sym e
      | inr k ↦ elim (Bool-cases (b && starts_with "[" l)) [
        | inl m ↦
            let e = edited-next id l ls b h k m in
            ap (edited id b) e
            ∙ edited_again b (l ∷ ls) (&&-eq-true b (starts_with "[" l) m).0
            ∙ sym e
        | inr m ↦
            let e = edited-on id l ls b h k m in
            ap (edited id b) e
            ∙ edited-on id l (edited id b ls) b h k m
            ∙ ap (◌∷◌ l) (edited_idem b ls)
            ∙ sym e
      ]
    ]
  ]

  -- One line is put into the section, in place of at most one line of it that starts with the key.
  abbrev pub Places : Bool → List String → List String → Type 0
  Places b ls result =
      (before : List String) × (old : List String) × (after : List String) × (ls
        ≡ before ++ (old ++ after))
      × (result ≡ before ++ node_id_line id ∷ after)
      × (ends_in_agent b before ≡ true)
      × (length old ≤ 1)
      × All (λ l. starts_with "node_id" l ≡ true) old

  Places-cons :
      (b : Bool) (l : String) (ls result : List String)
      → Places (is_header l || (b && not (starts_with "[" l))) ls result
      → Places b (l ∷ ls) (l ∷ result)
  unfolding ends_in_agent
  Places-cons b l ls result (before, old, rest, e, r, in_section, short, keyed) =
      (l ∷ before, old, rest, ap (◌∷◌ l) e, ap (◌∷◌ l) r, in_section, short, keyed)

  Places-cong :
      (b c : Bool) (ls result : List String) → b ≡ c → Places b ls result → Places c ls result
  Places-cong b c ls result e h = subst (λ x. Places x ls result) e h

  edited-Places :
      (b : Bool) (ls : List String) → (b || has_agent ls) ≡ true → Places b ls (edited id b ls)
  unfolding scan has_agent ends_in_agent
  edited-Places true [] h = ([], [], [], refl, refl, refl, omega arith, tt)
  edited-Places false [] h = cc
  edited-Places b (l ∷ ls) h = elim (Bool-cases (is_header l)) [
    | inl e ↦ rw (edited-header id l ls b e) (
        Places-cons b l ls (edited id true ls) (
          Places-cong true (is_header l || (b && not (starts_with "[" l))) ls (edited id true ls)
            (rw e refl) (edited-Places true ls refl)))
    | inr e ↦ elim (Bool-cases (b && starts_with "node_id" l)) [
      | inl k ↦
          let (inside, key) = &&-eq-true b (starts_with "node_id" l) k in
          rw (edited-old id l ls b e k)
            ([], l ∷ [], ls, refl, refl, ground arith, omega arith, (key, tt))
      | inr k ↦ elim (Bool-cases (b && starts_with "[" l)) [
        | inl m ↦
            let (inside, key) = &&-eq-true b (starts_with "[" l) m in
            rw (edited-next id l ls b e k m)
              ([], [], l ∷ ls, refl, refl, ground arith, omega arith, tt)
        | inr m ↦ rw (edited-on id l ls b e k m) (
            Places-cons b l ls (edited id b ls) (
              Places-cong b (is_header l || (b && not (starts_with "[" l))) ls (edited id b ls)
                (ground arith) (edited-Places b ls (ground arith))))
      ]
    ]
  ]

  edited_without : (ls : List String) → has_agent ls ≡ false → edited id false ls ≡ ls
  unfolding scan has_agent
  edited_without [] h = refl
  edited_without (l ∷ ls) h =
      let e : is_header l ≡ false = ground arith in
      edited-on id l ls false e refl refl ∙ ap (◌∷◌ l) (edited_without ls (ground arith))

  -- Saving the node's id edits the lines of the configuration so: without a line "[agent]" nothing
  -- changes; with one, a line with the id comes into the section that such a line begins and that the
  -- next other line with a bracket at its start ends, in place of at most one line, which starts
  -- with the key, and all other lines stay. Saving the same id again changes nothing more.
  pub edit-Places :
      (ls : List String)
      → (((has_agent ls ≡ false) × (edit id ls ≡ ls))
          ⊎ ((has_agent ls ≡ true) × Places false ls (edit id ls)))
        × (edit id (edit id ls) ≡ edit id ls)
  unfolding edit
  edit-Places ls = (
    elim (Bool-cases (has_agent ls)) [
      | inl e ↦ inr (e, edited-Places false ls e)
      | inr e ↦ inl (e, edited_without ls e)
    ],
    edited_idem false ls,
  )
