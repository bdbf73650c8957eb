-- ===== src/Constraints/Toml.antt =====
-- The values of constraints.toml as Python's tomllib gives them, and the parsers of constraints.py for
-- reference rules and heading constraints.
pub mod Accepts
use katapult.Base.{
  ℕ, Bool, true, false, not, ◌&&◌, ◌||◌, List, [], ◌∷◌, ◌++◌, Option, none, some, leb,
  if◌then◌else◌,
}
use katapult.Base.Lists.{is_nil}
use katapult.Base.Text.{Text, txt, strip, text_eq, text_dec, fstring}
use katapult.Base.Dict.{Dict, insert}
use katapult.Base.Unicode.{Unicode}
use katapult.Constraints.Data.{ReferenceRule, HeadingConstraint}

-- Python's `None` is a key that is not there. A negative integer is given by what it lacks to -1;
-- `other` is a float, a date or a time, with the name of its type.
mutual
  pub data Value : Type 0 where
    text : Text → Value
    integer negative : ℕ → Value
    boolean : Bool → Value
    array : Values → Value
    table : Entries → Value
    other : Text → Value

  pub data Values : Type 0 where
    no_values : Values
    value : Value → Values → Values

  pub data Entries : Type 0 where
    no_entries : Entries
    entry : Text → Value → Entries → Entries

-- A parser's value, or its message.
pub data Parsed {ℓ} (A : Type ℓ) : Type ℓ where
  ok : A → Parsed A
  err : Text → Parsed A

infixl 10 ◌>>=◌
abbrev pub ◌>>=◌ {ℓ κ} : {A : Type ℓ} {B : Type κ} → Parsed A → (A → Parsed B) → Parsed B
ok a >>= f = f a
err e >>= f = err e

-- `obj.get(key)`
unfoldable pub get : Text → Entries → Option Value
unfolding text_dec
get k no_entries = none
get k (entry j v es) = let rest = get k es in if text_eq k j then some v else rest

-- `type(v).__name__`
unfoldable pub type_name : Value → Text
unfolding txt
type_name (text s) = txt "str"
type_name (integer n) = txt "int"
type_name (negative n) = txt "int"
type_name (boolean b) = txt "bool"
type_name (array vs) = txt "list"
type_name (table es) = txt "dict"
type_name (other name) = name

-- `_parse_optional_bool(v, field)`
unfoldable pub parse_optional_bool : Option Value → Text → Parsed (Option Bool)
unfolding type_name txt
parse_optional_bool none field = ok none
parse_optional_bool (some (boolean b)) field = ok (some b)
parse_optional_bool (some v) field =
    err (
      fstring (txt "Constraint field '" ∷ field ∷ txt "' must be boolean, got " ∷ type_name v ∷ []))

-- A text that may be left out; the message is for any other value.
unfoldable pub optional_text : Text → Option Value → Parsed (Option Text)
optional_text message none = ok none
optional_text message (some (text s)) = ok (some s)
optional_text message (some v) = err message

-- `s.strip() if isinstance(s, str) and s.strip() else None`
unfoldable pub filled_text : Option Text → Option Text
unfolding strip
filled_text none = none
filled_text (some s) = if is_nil (strip s) then none else some (strip s)

-- The stripped texts of a list that are not empty, or nothing where it holds another value.
unfoldable pub texts_of : Values → Option (List Text)
unfolding strip
texts_of no_values = some []
texts_of (value v vs) = before v (texts_of vs)
  where
    before : Value → Option (List Text) → Option (List Text)
    before (text s) (some ts) = if is_nil (strip s) then some ts else some (strip s ∷ ts)
    before v o = none

abbrev or_message : Text → Option (List Text) → Parsed (Option (List Text))
or_message message none = err message
or_message message (some ts) = ok (some ts)

unfoldable pub parse_headings_field : Text → Option Value → Parsed (Option (List Text))
unfolding texts_of
parse_headings_field message none = ok none
parse_headings_field message (some (array vs)) = or_message message (texts_of vs)
parse_headings_field message (some v) = err message

-- `_parse_reference_rule(obj)`
unfoldable pub parse_reference_rule : Value → Parsed ReferenceRule
unfolding parse_optional_bool parse_headings_field get txt
parse_reference_rule (table obj) = do
  coverage ← parse_optional_bool (get (txt "coverage") obj) (txt "references.coverage")
  task ← parse_optional_bool (get (txt "task") obj) (txt "references.task")
  priority ← parse_optional_bool (get (txt "priority") obj) (txt "references.priority")
  headings ←
      parse_headings_field (txt "Reference rule field 'headings' must be list[str]")
        (get (txt "headings") obj)
  ok (record { coverage = coverage; task = task; priority = priority; headings = headings })
parse_reference_rule v = err (txt "Reference rule must be an object")

-- The loop of `_parse_references` over the entries.
unfoldable pub parse_rules : Unicode → Entries → Dict ReferenceRule → Parsed (Dict ReferenceRule)
unfolding parse_reference_rule insert strip txt text_dec
parse_rules u no_entries out = ok out
parse_rules u (entry k raw es) out =
    if is_nil (strip k)
    then err (txt "Constraint field 'references' has non-string artifact kind key")
    else named (parse_reference_rule raw) >>= λ rule.
        parse_rules u es (insert (u.upper (strip k)) rule out)
  where
    named : Parsed ReferenceRule → Parsed ReferenceRule
    named (ok rule) = ok rule
    named (err e) = err (fstring (txt "references[" ∷ k ∷ txt "]: " ∷ e ∷ []))

-- `_parse_references(v)`
unfoldable pub parse_references : Unicode → Option Value → Parsed (Option (Dict ReferenceRule))
unfolding parse_rules txt
parse_references u none = ok none
parse_references u (some (table es)) = parse_rules u es [] >>= λ out. ok (some out)
parse_references u (some v) =
    err (txt "Constraint field 'references' must be an object mapping artifact kinds to rules")

-- `isinstance(level, int) and 1 <= level <= 6`: a boolean is an `int`, and `True` is 1.
unfoldable pub parse_level : Option Value → Parsed ℕ
unfolding txt
parse_level (some (integer n)) =
    if leb 1 n && leb n 6
    then ok n
    else err (txt "Heading constraint field 'level' must be integer 1-6")
parse_level (some (boolean true)) = ok 1
parse_level o = err (txt "Heading constraint field 'level' must be integer 1-6")

unfoldable pub parse_required : Text → Option Value → Parsed Bool
parse_required message none = ok true
parse_required message (some (boolean b)) = ok b
parse_required message (some v) = err message

-- A message with the parser's name in front.
unfoldable pub in_heading : Parsed (Option Bool) → Parsed (Option Bool)
unfolding txt
in_heading (ok b) = ok b
in_heading (err e) = err (fstring (txt "Heading constraint: " ∷ e ∷ []))

-- `re.compile(pattern)` of a pattern that is not blank: the error that it raises, if it does, is an
-- argument.
unfoldable pub check_pattern : (Text → Option Text) → Option Text → Parsed (Option Text)
unfolding strip txt
check_pattern regex_error none = ok none
check_pattern regex_error (some p) =
    if is_nil (strip p) then ok (some p) else raised (regex_error p)
  where
    raised : Option Text → Parsed (Option Text)
    raised none = ok (some p)
    raised (some e) = err (fstring (txt "Heading constraint 'pattern' invalid regex: " ∷ e ∷ []))

-- The fields of a heading constraint, by what the table holds under their keys, in the order in which
-- they are checked.
unfoldable pub parse_heading_fields :
    (Text → Option Text)
    → Option Value
    → Option Value
    → Option Value
    → Option Value
    → Option Value
    → Option Value
    → Option Value
    → Option Value
    → Option Value
    → Option Text
    → Parsed HeadingConstraint
unfolding optional_text parse_level parse_required parse_optional_bool in_heading check_pattern
    filled_text txt
parse_heading_fields regex_error vid vprev vnext vlevel vpattern vdesc vrequired vmultiple vnumbered
      pointer =
    do
      hid ← optional_text (txt "Heading constraint field 'id' must be string") vid
      prev ← optional_text (txt "Heading constraint field 'prev' must be string") vprev
      nxt ← optional_text (txt "Heading constraint field 'next' must be string") vnext
      level ← parse_level vlevel
      pattern ← optional_text (txt "Heading constraint field 'pattern' must be string") vpattern
      description ←
          optional_text (txt "Heading constraint field 'description' must be string") vdesc
      required ←
          parse_required (txt "Heading constraint field 'required' must be boolean") vrequired
      multiple ← in_heading (parse_optional_bool vmultiple (txt "multiple"))
      numbered ← in_heading (parse_optional_bool vnumbered (txt "numbered"))
      compiled ← check_pattern regex_error pattern
      ok (record {
        level = level;
        pattern = filled_text compiled;
        description = filled_text description;
        required = required;
        multiple = multiple;
        numbered = numbered;
        id = filled_text hid;
        prev = filled_text prev;
        next = filled_text nxt;
        pointer = filled_text pointer;
      })

-- `_parse_heading_constraint(obj, pointer=pointer)`
unfoldable pub parse_heading_constraint :
    (Text → Option Text) → Value → Option Text → Parsed HeadingConstraint
unfolding parse_heading_fields get txt
parse_heading_constraint regex_error (table obj) pointer =
    parse_heading_fields regex_error (get (txt "id") obj) (get (txt "prev") obj)
      (get (txt "next") obj) (get (txt "level") obj) (get (txt "pattern") obj)
      (get (txt "description") obj) (get (txt "required") obj) (get (txt "multiple") obj)
      (get (txt "numbered") obj) pointer
parse_heading_constraint regex_error v pointer = err (txt "Heading constraint must be an object")
