-- ===== src/Forms/Rules.antt =====
-- The rules of a form (rule.go and the rule of common/task/form.go) and its validation
-- (internal/http/handler/webui/common/form/form.go). A rule answers its error, `none` for nil.
use Prim.Native.String
use oplet.Prelude.{
  String, ◌==◌, Bool, true, false, not, Option, none, some, List, [], ◌∷◌, ok, err, if◌then◌else◌,
}
use oplet.Prelude.Int.{ℤ, pos, int_ltb}
use oplet.Task.Label.{get, put}
use oplet.Task.Label.Definition.{Input}
use oplet.Forms.{
  FileHeader, Asserted, accepted, skipped, rejected, Constraint, assert_value, assert_file,
  ValidationRule, required_rule, min_length_rule, number_range_rule, constraint_rule, Field,
  is_file, Form, lookup, remove, find_field,
}
use oplet.Strings.{trim_space, len}
use oplet.Strconv.{atoi, format_int}

abbrev blank : String → Bool
blank value = trim_space value == ""

abbrev pub required_found : Form → Field → Bool
required_found form field =
    if is_file field
    then elim (lookup field.name form.files) [ none ↦ false | some headers ↦ true ]
    else elim (lookup field.name form.values) [ none ↦ false | some value ↦ not (blank value) ]

abbrev value_of : Form → Field → String
value_of form field = get "" field.name form.values

abbrev below : ℤ → Option ℤ → Option String
below n none = none
below n (some m) =
    if int_ltb n m then some (String.◌++◌ "must be at least " (format_int m)) else none

abbrev above : ℤ → Option ℤ → Option String
above n none = none
above n (some m) =
    if int_ltb m n then some (String.◌++◌ "must be at most " (format_int m)) else none

abbrev pub or_next : Option String → Option String → Option String
or_next none next = next
or_next (some e) next = some e

abbrev in_bounds : Option ℤ → Option ℤ → Option ℤ → Option String
in_bounds low high none = some "must be a valid number"
in_bounds low high (some n) = or_next (below n low) (above n high)

abbrev asserted_error : Asserted → Option String
asserted_error accepted = none
asserted_error skipped = none
asserted_error (rejected e) = some e

abbrev assert_header : Input → Constraint → FileHeader → Option String
assert_header input constraint header = elim header.opened [
  | err e ↦ some e
  | ok content ↦ asserted_error (assert_file constraint input content)
]

abbrev assert_headers : Input → Constraint → List FileHeader → Option String
assert_headers input constraint [] = none
assert_headers input constraint (header ∷ headers) =
    or_next (assert_header input constraint header) (assert_headers input constraint headers)

abbrev constraint_error : Input → Constraint → Form → Field → Option String
constraint_error input constraint form field =
    if is_file field
    then elim (lookup field.name form.files) [
      | none ↦ none
      | some headers ↦ assert_headers input constraint headers
    ]
    else asserted_error (assert_value constraint input (value_of form field))

unfoldable pub validate : ValidationRule → Form → Field → Option String
validate required_rule form field =
    if required_found form field then none else some "this field is required"
validate (min_length_rule n) form field =
    if int_ltb (pos (len (value_of form field))) n
    then some (String.◌++◌ (String.◌++◌ "minimum length is " (format_int n)) " characters")
    else none
validate (number_range_rule low high) form field =
    if value_of form field == "" then none else in_bounds low high (atoi (value_of form field))
validate (constraint_rule input constraint) form field =
    constraint_error input constraint form field

-- MaxLengthRule, which is not a ValidationRule: its method takes no context and a pointer
unfoldable pub max_length_error : ℤ → Form → Field → Option String
max_length_error n form field =
    if int_ltb n (pos (len (value_of form field)))
    then some (String.◌++◌ (String.◌++◌ "maximum length is " (format_int n)) " characters")
    else none

-- the loop over the rules of a field, which stops at the first error
unfoldable pub first_error : List ValidationRule → Form → Field → Option String
first_error [] form field = none
first_error (rule ∷ rules) form field =
    or_next (validate rule form field) (first_error rules form field)

abbrev pub record_error : String → Option String → Form → Form
record_error name none form = form
record_error name (some e) form = record form { errors = put name e form.errors }

-- the loop over the fields; a rule reads the form as it is then
unfoldable pub check_fields : List Field → Form → Form
check_fields [] form = form
check_fields (field ∷ fields) form =
    check_fields fields (record_error field.name (first_error field.validation form field) form)

abbrev pub is_empty : List (String × String) → Bool
is_empty [] = true
is_empty (_ ∷ _) = false

-- IsValid, with the form that it leaves
unfoldable pub is_valid : Form → Bool × Form
unfolding check_fields
is_valid form =
    let checked = check_fields form.fields (record form { errors = [] }) in
    (is_empty checked.errors, checked)

abbrev pub succeeded : Option String → Bool
succeeded none = true
succeeded (some _) = false

abbrev validated : String → Form → Option Field → Bool × Form
validated name form none = (false, form)
validated name form (some field) =
    let e = first_error field.validation form field in (succeeded e, record_error name e form)

unfoldable pub validate_field : String → Form → Bool × Form
unfolding first_error
validate_field name form =
    let cleared = record form { errors = remove name form.errors } in
    validated name cleared (find_field name cleared.fields)
