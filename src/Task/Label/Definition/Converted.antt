-- ===== src/Task/Label/Definition/Converted.antt =====
-- What a task definition keeps of its labels.
use oplet.Prelude.{
  String, ◌==◌, ◌≡◌, ◌≢◌, refl, sym, ◌∙◌, Bool, Option, none, some, List, [], ◌∷◌, Result, ok, err,
  Bool-cases, Result-cases, distinct_texts, inl, inr,
}
use mathlib.Core.Path.{subst}
use oplet.Task.Label.{Map, InputLabels, ParsedLabels}
use oplet.Task.Label.Definition.{
  Input, Definition, parse_required, with_required, convert_to_task_input, convert_inputs, define,
  build_task_definition, not_converted,
}

-- An input of the labels: its text is kept and its `required` is parsed; its tags are not kept.
pub record IsConverted (name : String) (labels : InputLabels) (input : Input) : Type 0 where
  pub named : input.name ≡ name
  pub label : input.label ≡ labels.label
  pub type_ : input.type_ ≡ labels.type_
  pub description : input.description ≡ labels.description
  pub required : parse_required labels.required ≡ some input.required
  pub tags : input.tags ≡ []

-- entry by entry, in the same order
pub data Converted : Map InputLabels → List Input → Type 0 where
  nothing : Converted [] []
  next :
      {name : String} {labels : InputLabels} {input : Input} {rest : Map InputLabels}
      {inputs : List Input}
      → IsConverted name labels input
      → Converted rest inputs
      → Converted ((name, labels) ∷ rest) (input ∷ inputs)

with_required-IsConverted :
    (name : String) (labels : InputLabels) (o : Option Bool) (input : Input)
    → parse_required labels.required ≡ o
    → with_required name labels o ≡ ok input
    → IsConverted name labels input
with_required-IsConverted name labels none input p h = cc
with_required-IsConverted name labels (some b) input p h =
    let made : Input = record {
      name = name;
      label = labels.label;
      type_ = labels.type_;
      description = labels.description;
      required = b;
      default_value = "";
      tags = [];
    } in
    let same : made ≡ input = cc in
    subst (λ (i : Input). IsConverted name labels i) same
      record {
        named = refl;
        label = refl;
        type_ = refl;
        description = refl;
        required = p;
        tags = refl;
      }

convert_inputs-Converted :
    (kind : String) (entries : Map InputLabels) (inputs : List Input)
    → convert_inputs kind entries ≡ ok inputs
    → Converted entries inputs
unfolding convert_inputs convert_to_task_input
convert_inputs-Converted kind [] inputs h =
    let same : [] ≡ inputs = cc in subst (λ (i : List Input). Converted [] i) same nothing
convert_inputs-Converted kind ((name, labels) ∷ rest) inputs h =
    elim (Result-cases (convert_to_task_input name labels)) [
      | inr (e, wrong) ↦
          let g : ◌≡◌ {A = Result String (List Input)} (err (not_converted kind name e))
              (ok inputs) =
            rw wrong at h in
          cc
      | inl (input, made) ↦ elim (Result-cases (convert_inputs kind rest)) [
        | inr (e, wrong) ↦
            let g : ◌≡◌ {A = Result String (List Input)} (err e) (ok inputs) =
              rw (made, wrong) at h in
            cc
        | inl (later, converted) ↦
            let g : ◌≡◌ {A = Result String (List Input)} (ok (input ∷ later)) (ok inputs) =
              rw (made, converted) at h in
            let same : input ∷ later ≡ inputs = cc in
            subst (λ (i : List Input). Converted ((name, labels) ∷ rest) i) same
              (next (with_required-IsConverted name labels _ input refl made)
                (convert_inputs-Converted kind rest later converted))
      ]
    ]

-- A definition's name and entries against the labels that it was built from.
pub record IsDefinition (parsed : ParsedLabels) (image_ref : String) (d : Definition) : Type 0 where
  pub named : d.name ≡ parsed.meta.name
  pub image : d.image_ref ≡ image_ref
  pub inputs : Converted parsed.inputs d.inputs
  pub configuration : Converted parsed.config d.configuration

define-IsDefinition :
    (parsed : ParsedLabels) (image_ref : String) (i c : Result String (List Input)) (d : Definition)
    → convert_inputs "input" parsed.inputs ≡ i
    → convert_inputs "config" parsed.config ≡ c
    → define parsed image_ref i c ≡ ok d
    → IsDefinition parsed image_ref d
define-IsDefinition parsed image_ref (err e) c d p q h = cc
define-IsDefinition parsed image_ref (ok i) (err e) d p q h = cc
define-IsDefinition parsed image_ref (ok i) (ok c) d p q h =
    let made : Definition = record {
      name = parsed.meta.name;
      description = parsed.meta.description;
      author = parsed.meta.author;
      url = parsed.meta.url;
      image_ref = image_ref;
      inputs = i;
      configuration = c;
    } in
    let same : made ≡ d = cc in
    subst (λ (x : Definition). IsDefinition parsed image_ref x) same
      record {
        named = refl;
        image = refl;
        inputs = convert_inputs-Converted "input" parsed.inputs i p;
        configuration = convert_inputs-Converted "config" parsed.config c q;
      }

-- If a definition is built, then it has a name that is not empty, the one of the labels, and its
-- inputs and its configuration are those of the labels, entry by entry, without their tags.
pub build_task_definition-IsDefinition :
    (parsed : ParsedLabels) (image_ref : String) (d : Definition)
    → build_task_definition parsed image_ref ≡ ok d
    → (d.name ≢ "") × IsDefinition parsed image_ref d
unfolding build_task_definition
build_task_definition-IsDefinition parsed image_ref d h =
    elim (Bool-cases (parsed.meta.name == "")) [
      | inl missing ↦
          let g : ◌≡◌ {A = Result String Definition} (err "missing required meta.name label")
              (ok d) =
            rw missing at h in
          cc
      | inr given ↦
          let is = define-IsDefinition parsed image_ref _ _ d refl refl (rw given at h) in
          (λ e. distinct_texts parsed.meta.name "" given (sym is.named ∙ e), is)
    ]
