-- ===== src/Task/Label/Valid.antt =====
-- What the parser accepts, and where it files a label.
use text.Mathlib.TextLemmas.{cons-append, nil-append}
use mathlib.Core.Path.{subst}
use Prim.Native.Char.{Char, code}
use Prim.Native.String
use oplet.Prelude.{
  String, ◌==◌, ◌≡◌, refl, sym, ◌∙◌, ap, ◌≢◌, ◌⊎◌, inl, inr, true, Option, none, some, [], ◌∷◌, All,
  Result, ok, err, Bool-cases, Result-cases, distinct_texts, eq_iff, nat_eq, Bool, ◌||◌,
}
use oplet.Task.Label.{
  Map, get, put, InputLabels, ParsedLabels, MetaLabels, Groups, is_valid_type, build_input_labels,
  named, build_group, assemble, build_groups, parse_meta_labels, group_labels, parse_labels,
  split_dot, push, group_label,
}

-- The types that the parser knows.
pub data KnownType : String → Type 0 where
  text_type : KnownType "text"
  number_type : KnownType "number"
  file_type : KnownType "file"
  secret_type : KnownType "secret"
  boolean_type : KnownType "boolean"

known_or :
    (t : String) {literal : String} {before : Bool}
    → (before ≡ true → KnownType t)
    → KnownType literal
    → (before || t == literal) ≡ true
    → KnownType t
known_or t {literal} {before} earlier known h = elim (Bool-cases before) [
  | inl was ↦ earlier was
  | inr not_ ↦ subst KnownType (sym ((eq_iff t literal).0 (rw not_ at h))) known
]

is_valid_type-KnownType : (t : String) → is_valid_type t ≡ true → KnownType t
is_valid_type-KnownType t =
    known_or t
      (known_or t
        (known_or t
          (known_or t (λ h. subst KnownType (sym ((eq_iff t "text").0 h)) text_type) number_type)
          file_type)
        secret_type)
      boolean_type

-- An input with one of the five types, and with a label unless its name is empty.
pub record IsInput (name : String) (labels : InputLabels) : Type 0 where
  pub typed : KnownType labels.type_
  pub labelled : (labels.label ≢ "") ⊎ (labels.label ≡ name)

abbrev pub AreInputs : Map InputLabels → Type 0
AreInputs = All (λ (entry : String × InputLabels). IsInput entry.0 entry.1)

build_input_labels-typed :
    (props : Map String) (labels : InputLabels)
    → build_input_labels props ≡ ok labels
    → is_valid_type labels.type_ ≡ true
unfolding build_input_labels
build_input_labels-typed props labels h = elim (Bool-cases (get "" "type" props == "")) [
  | inl missing ↦
      let g : ◌≡◌ {A = Result String InputLabels} (err "missing required property 'type'")
          (ok labels) =
        rw missing at h in
      cc
  | inr given ↦ elim (Bool-cases (is_valid_type (get "" "type" props))) [
    | inr wrong ↦ refused (rw (given, wrong) at h)
    | inl valid ↦ taken valid (rw (given, valid) at h)
  ]
]
  where
    refused :
        {m : String}
        → ◌≡◌ {A = Result String InputLabels} (err m) (ok labels)
        → is_valid_type labels.type_ ≡ true
    refused e = cc

    taken :
        {l : InputLabels}
        → is_valid_type l.type_ ≡ true
        → ◌≡◌ {A = Result String InputLabels} (ok l) (ok labels)
        → is_valid_type labels.type_ ≡ true
    taken {l} valid e =
        let same : l ≡ labels = cc in
        ap (λ (x : InputLabels). is_valid_type x.type_) (sym same) ∙ valid

named-IsInput :
    (name : String) (labels : InputLabels)
    → is_valid_type labels.type_ ≡ true
    → IsInput name (named name labels)
named-IsInput name labels typed = elim (Bool-cases (labels.label == "")) [
  | inl blank ↦
      rw blank record { typed = is_valid_type-KnownType labels.type_ typed; labelled = inr refl }
  | inr given ↦ rw given record {
    typed = is_valid_type-KnownType labels.type_ typed;
    labelled = inl (distinct_texts labels.label "" given);
  }
]

build_group-AreInputs :
    (groups : Groups) (inputs : Map InputLabels) → build_group groups ≡ ok inputs → AreInputs inputs
unfolding build_group
build_group-AreInputs [] inputs h = let same : [] ≡ inputs = cc in subst AreInputs same tt
build_group-AreInputs ((name, props) ∷ groups) inputs h =
    elim (Result-cases (build_input_labels props)) [
      | inr (e, wrong) ↦
          let g : ◌≡◌ {A = Result String (Map InputLabels)}
              (err (String.◌++◌ (String.◌++◌ name ": ") e)) (ok inputs) =
            rw wrong at h in
          cc
      | inl (labels, built) ↦ elim (Result-cases (build_group groups)) [
        | inr (e, wrong) ↦
            let g : ◌≡◌ {A = Result String (Map InputLabels)} (err e) (ok inputs) =
              rw (built, wrong) at h in
            cc
        | inl (rest, later) ↦
            let same : ◌≡◌ {A = Result String (Map InputLabels)}
                (ok ((name, named name labels) ∷ rest)) (ok inputs) =
              rw (built, later) at h in
            let equal : (name, named name labels) ∷ rest ≡ inputs = cc in
            subst AreInputs equal (
              named-IsInput name labels (build_input_labels-typed props labels built),
              build_group-AreInputs groups rest later,
            )
      ]
    ]

build_groups-AreInputs :
    (meta : MetaLabels) (run : Result String (Groups × Groups)) (parsed : ParsedLabels)
    → build_groups meta run ≡ ok parsed
    → AreInputs parsed.inputs × AreInputs parsed.config
build_groups-AreInputs meta (err e) parsed h = cc
build_groups-AreInputs meta (ok (inputs, config)) parsed h =
    go (build_group inputs) (build_group config) refl refl h
  where
    go :
        (i c : Result String (Map InputLabels))
        → build_group inputs ≡ i
        → build_group config ≡ c
        → assemble meta i c ≡ ok parsed
        → AreInputs parsed.inputs × AreInputs parsed.config
    go (err e) c p q k = cc
    go (ok i) (err e) p q k = cc
    go (ok i) (ok c) p q k =
        let same : record { meta = meta; inputs = i; config = c } ≡ parsed = cc in
        (
          subst AreInputs (ap (λ (x : ParsedLabels). x.inputs) same)
              (build_group-AreInputs inputs i p),
          subst AreInputs (ap (λ (x : ParsedLabels). x.config) same)
              (build_group-AreInputs config c q),
        )

-- If the labels parse, then every input and every configuration item has the type "text",
-- "number", "file", "secret" or "boolean", and its label is not empty or is its name.
pub parse_labels-AreInputs :
    (labels : Map String) (parsed : ParsedLabels)
    → parse_labels labels ≡ ok parsed
    → AreInputs parsed.inputs × AreInputs parsed.config
unfolding parse_labels
parse_labels-AreInputs labels parsed h =
    build_groups-AreInputs (parse_meta_labels labels) (group_labels labels ([], [])) parsed h

get-put :
    {A : Type 0} (zero value : A) (key : String) (m : Map A)
    → get zero key (put key value m) ≡ value
get-put zero value key [] = rw ((eq_iff key key).1 refl)
get-put zero value key ((k, v) ∷ m) = elim (Bool-cases (k == key)) [
  | inl hit ↦ rw hit (rw ((eq_iff key key).1 refl) refl)
  | inr miss ↦ rw (miss, miss, get-put zero value key m)
]

dot-append : (s : String) → String.◌++◌ "." s ≡ String.◌∷◌ "." s
dot-append s = cons-append "." "" s ∙ ap (λ t. String.◌∷◌ "." t) (nil-append s)

pushed-none : (c : Char) (o : Option (String × String)) → push c o ≡ none → o ≡ none
pushed-none c none h = refl
pushed-none c (some pair) h = cc

-- a name without a dot, a dot, and the rest
split_dot-join :
    (name property : String)
    → split_dot name ≡ none
    → split_dot (String.◌++◌ name (String.◌++◌ "." property)) ≡ some (name, property)
unfolding split_dot
split_dot-join String.[] property dotless = rw (nil-append, dot-append) refl
split_dot-join (String.◌∷◌ c name) property dotless = elim (Bool-cases (nat_eq (code c) 46)) [
  | inl dot ↦
      let g : ◌≡◌ {A = Option (String × String)} (some ("", name)) none = rw dot at dotless in cc
  | inr other ↦
      let later =
        split_dot-join name property (pushed-none c (split_dot name) (rw other at dotless)) in
      rw (cons-append, other, later)
]

-- If a label whose name has no dot is filed, then its value is found under its name and property,
-- whatever was filed before.
pub group_label-get :
    (key name property value : String) (groups groups' : Groups)
    → split_dot name ≡ none
    → group_label key (String.◌++◌ name (String.◌++◌ "." property)) value groups ≡ ok groups'
    → get "" property (get [] name groups') ≡ value
unfolding group_label
group_label-get key name property value groups groups' dotless h =
    let filed = put property value (get [] name groups) in
    let same : ◌≡◌ {A = Result String Groups} (ok (put name filed groups)) (ok groups') =
      rw (split_dot-join name property dotless) at h in
    let equal : put name filed groups ≡ groups' = cc in
    ap (λ g. get "" property (get [] name g)) (sym equal)
    ∙ ap (get "" property) (get-put [] filed name groups)
    ∙ get-put "" value property (get [] name groups)
