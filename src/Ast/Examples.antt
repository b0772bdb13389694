-- ===== src/Ast/Examples.antt =====
-- What is extracted of small assignments.
use trust_and_safety_demo.Base.{◌≡◌, refl, true, false, not, ◌||◌, ◌&&◌, none, some, ok, all}
use trust_and_safety_demo.Ast.Grammar.{
  simple, with_variants, variant, no_variants, store, load, unset, source, Name, node, name, string,
  call, binary_operation, add, end, keyword, Assign,
}
use trust_and_safety_demo.Ast.Extracting.{
  is_constant, annotated_as, annotation_blocks, should_extract, starts_with_underscore, can_extract,
  name_can_extract, annotation_can_extract,
}
use trust_and_safety_demo.Ast.Secrets.{carried, is_open, IsValidated, should_extract_lem}

abbrev password : Name
password = record {
  identifier = "Password";
  context = load;
  path = "main.sml";
  source_annotation = source (some (with_variants "Secret" (variant (simple "str") no_variants)));
}

abbrev target : Name
target = record {
  identifier = "Hash";
  context = store;
  path = "main.sml";
  source_annotation = unset;
}

-- `Hash = HashMd5(s=Password)`
abbrev hashed : Assign
hashed = record {
  target = target;
  value = node 0 (
      call (node 1 (name (record password { identifier = "HashMd5"; source_annotation = unset })))
        (keyword "s" (node 2 (name password)) end));
  annotation = none;
}

password-IsValidated : IsValidated password
unfolding name_can_extract
password-IsValidated = refl

should_extract_lem_example :
    should_extract hashed
    ≡ ok (
        annotated_as "ExtractLiteral" hashed.annotation
        || (not (starts_with_underscore hashed.target.identifier || is_constant hashed.value)
            && (annotated_as "ExtractSecret" hashed.annotation
                || (not (annotation_blocks hashed.annotation)
                    && all is_open (carried hashed.value)))))
should_extract_lem_example = should_extract_lem hashed (password-IsValidated, tt)

-- A secret is not extracted from a call, and is from an operation.
hashed_stays : should_extract hashed ≡ ok false
unfolding should_extract can_extract name_can_extract annotation_can_extract
hashed_stays = refl

operation_extracts :
    should_extract (record hashed {
      value = node 0 (binary_operation (node 1 (name password)) (node 2 (string "!")) add);
    })
    ≡ ok true
unfolding should_extract can_extract
operation_extracts = refl
