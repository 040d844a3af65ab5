-- ===== src/Json/Parser/Runs/Examples.antt =====
-- The JSON parser on concrete texts.
use vds.Common.{ℕ, List, [], ◌∷◌, ◌≡◌, refl}
use vds.Common.Text.{bytes_of}
use vds.Json.Parser.Steps
use vds.Json.Parser.Literals
use vds.Json.Parser.{final_container, start_array, start_container, set_root}
use vds.Json.Tree.{with_item, call}
use vds.Json.Tree.{json_primitive, json_array, integer, Node}
use vds.Json.Parser.{Outcome, next, init}
use vds.Json.Parser.Steps.{default_options, write, parse}
use vds.Json.Parser.Shape.{Fine}
use vds.Json.Parser.Runs.{write-Fine, parse-Answers, Answers}

abbrev nodes : Outcome → List Node
nodes (next p) = p.heap
nodes _ = []

abbrev small_object : List ℕ
small_object = bytes_of "{\"a\": [12, \"x\"]}"

abbrev array_text : List ℕ
array_text = bytes_of "[12]"

parsed_array :
    nodes (parse array_text)
    ≡ json_array 1 2 (1 ∷ []) ∷ json_primitive 1 5 (bytes_of "12") integer ∷ []
unfolding parse Steps.write Steps.write_loop Steps.read_char Steps.count_position Steps.dispatch
    Steps.on_bof Steps.on_array Steps.on_array_item Literals.on_number Literals.final_number
    Literals.step_back Literals.add_integer Steps.final_data final_container start_array
    start_container set_root init with_item call
parsed_array = refl

write-Fine_example : Fine (write (init default_options) small_object)
unfolding init
write-Fine_example = write-Fine (init default_options) small_object tt

parse-Answers_example : Answers (parse small_object)
parse-Answers_example = parse-Answers small_object
