-- ===== src/Json/Parser/Texts/Examples.antt =====
-- A quoted text at a concrete input.
use vds.Common.{ℕ, ◌≡◌, refl, [], ◌∷◌, ◌++◌, some}
use vds.Common.Text.{bytes_of}
use vds.Json.Tree.{json_primitive, json_array, text}
use vds.Json.Parser.{bof, array, array_item, Parser, next}
use vds.Json.Parser.Steps.{write, default_options}
use vds.Json.Parser.Texts.{write-quoted_text}

-- Behind an opening bracket.
abbrev in_array : Parser
in_array = record {
  options = default_options;
  state = array;
  saved_states = bof ∷ [];
  root_object = some 0;
  current_path = [];
  current_object = some 0;
  line = 1;
  column = 2;
  buffer = [];
  num_buffer = 0;
  heap = json_array 1 2 [] ∷ [];
  results = [];
}

write-quoted_text_example :
    (l : ℕ) × (c : ℕ) × (write in_array (b'"' ∷ (bytes_of "vds" ++ (b'"' ∷ [])))
      ≡ next (record in_array {
        state = array_item;
        line = l;
        column = c;
        heap = json_array 1 2 (1 ∷ []) ∷ json_primitive l c (bytes_of "vds") text ∷ [];
      }))
write-quoted_text_example =
    write-quoted_text in_array (bytes_of "vds") 0 1 2 []
      ((refl, refl), ((refl, refl), ((refl, refl), tt))) refl
